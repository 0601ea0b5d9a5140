-- ===== src/Upgrade/Offline/Laws.antt =====
-- What holds once an offline upgrade goes on to restart the cluster.
use text.Mathlib.Text.{◌==◌}
use vertica_kubernetes.Prelude.{
  ◌≡◌, sym, ◌∙◌, ap, inl, inr, List, [], ◌∷◌, Bool, true, false, arith, All, any, ltb, keep,
  Bool-cases, subst,
}
use vertica_kubernetes.Api.Types.{VerticaDb, VerticaDbSpec}
use vertica_kubernetes.Api.Methods.{gen_subcluster_map}
use vertica_kubernetes.Finder.{find_existing, build_obj_list}
use vertica_kubernetes.Upgrade.World.{Pod, World, client_call, run_all, is_reconcile_aborted}
use vertica_kubernetes.Upgrade.Manager.Status.{IsFrame, client_call-IsFrame}
use vertica_kubernetes.Upgrade.Images.{
  update_image_in_stateful_sets, delete_pods_running_old_image, find_pods,
}
use vertica_kubernetes.Upgrade.Images.Laws.{needs_image, update_image_in_stateful_sets-done}
use vertica_kubernetes.Upgrade.Images.Pods.{is_left, delete_pods_running_old_image-none_left}
use vertica_kubernetes.Upgrade.Offline.{
  update_images_step, delete_pods_step, check_for_new_pods, post_offline_msg, reschedule_funcs,
  reschedule_pods_offline_msg_index, offline_upgrade_status_msgs,
}
use vertica_kubernetes.Upgrade.Offline.Runs.{run_all-four, err-none, post_next_status_msg-IsFrame}

-- Every object of a lasting subcluster has the image, and some pod runs it.
pub record IsRescheduled (spec : VerticaDbSpec) (w : World) : Type 0 where
  pub spec_kept : w.vdb.spec ≡ spec
  pub statefulsets_done :
      All
        (λ s. needs_image (gen_subcluster_map spec.subclusters) spec.image s ≡ false)
        w.statefulsets
  pub old_pods_gone :
      All (λ p. is_left (gen_subcluster_map spec.subclusters) "" spec.image p ≡ false) w.pods
  pub new_pod : any (λ (p : Pod). p.image == spec.image) w.pods ≡ true

images_step :
    (w : World)
    → is_reconcile_aborted (update_images_step w).0 ≡ false
    → ((update_images_step w).1.vdb ≡ w.vdb)
      × All
          (λ s. needs_image (gen_subcluster_map w.vdb.spec.subclusters) w.vdb.spec.image s ≡ false)
          (update_images_step w).1.statefulsets
unfolding update_images_step
images_step w h =
    let (same, done) = update_image_in_stateful_sets-done w (err-none _ h) in
    elim (Bool-cases (ltb 0 (update_image_in_stateful_sets w).0)) [
      | inl e ↦ rw e (same, done)
      | inr e ↦ rw e (same, done)
    ]

pods_step :
    (w : World)
    → is_reconcile_aborted (delete_pods_step w).0 ≡ false
    → ((delete_pods_step w).1.vdb ≡ w.vdb)
      × All
          (λ p. is_left (gen_subcluster_map w.vdb.spec.subclusters) "" w.vdb.spec.image p ≡ false)
          (delete_pods_step w).1.pods
      × ((delete_pods_step w).1.statefulsets ≡ w.statefulsets)
unfolding delete_pods_step
pods_step w h =
    let (same, gone, kept) = delete_pods_running_old_image-none_left "" w (err-none _ h) in
    elim (Bool-cases (ltb 0 (delete_pods_running_old_image "" w).0)) [
      | inl e ↦ rw e (same, gone, kept)
      | inr e ↦ rw e (same, gone, kept)
    ]

any-keep : (p q : Pod → Bool) (pods : List Pod) → any p (keep q pods) ≡ true → any p pods ≡ true
any-keep p q [] h = h
any-keep p q (x ∷ pods) h = ground (arith, any-keep p q pods)

check_step :
    (w : World)
    → is_reconcile_aborted (check_for_new_pods w).0 ≡ false
    → IsFrame w (check_for_new_pods w).1
      × (any (λ (p : Pod). p.image == w.vdb.spec.image) w.pods ≡ true)
unfolding check_for_new_pods find_pods build_obj_list is_reconcile_aborted
check_step w h =
    let (frame, _) = client_call-IsFrame w in
    let test = λ (p : Pod). p.image == w.vdb.spec.image in
    let existing =
      build_obj_list (λ (p : Pod). p.labels) find_existing
        (gen_subcluster_map w.vdb.spec.subclusters) w.pods in
    elim (Bool-cases (client_call w).0) [
      | inr e ↦ absurd (ground (arith, e, rw (check_for_new_pods, find_pods, e) at h))
      | inl e ↦ elim (Bool-cases (any test existing)) [
        | inr k ↦ absurd (ground (arith, rw (check_for_new_pods, find_pods, e, k) at h))
        | inl k ↦ rw (check_for_new_pods, find_pods, e, k) (frame, any-keep test _ w.pods k)
      ]
    ]

rescheduled :
    (w w1 w2 w3 w4 : World)
    → IsFrame w w1
    → (w2.vdb ≡ w1.vdb)
      × All
          (λ s.
            needs_image (gen_subcluster_map w1.vdb.spec.subclusters) w1.vdb.spec.image s ≡ false)
          w2.statefulsets
    → (w3.vdb ≡ w2.vdb)
      × All
          (λ p. is_left (gen_subcluster_map w2.vdb.spec.subclusters) "" w2.vdb.spec.image p ≡ false)
          w3.pods
      × (w3.statefulsets ≡ w2.statefulsets)
    → IsFrame w3 w4 × (any (λ (p : Pod). p.image == w3.vdb.spec.image) w3.pods ≡ true)
    → IsRescheduled w.vdb.spec w4
rescheduled w w1 w2 w3 w4 f1 (e2, done) (e3, gone, kept) (f4, new) =
    let s1 : w1.vdb.spec ≡ w.vdb.spec = f1.spec in
    let s2 : w2.vdb.spec ≡ w.vdb.spec = ap (λ (d : VerticaDb). d.spec) e2 ∙ s1 in
    let s3 : w3.vdb.spec ≡ w.vdb.spec = ap (λ (d : VerticaDb). d.spec) e3 ∙ s2 in
    record {
      spec_kept = f4.spec ∙ s3;
      statefulsets_done =
          rw (f4.statefulsets, kept)
            (subst
              (λ (spec : VerticaDbSpec).
                All (λ s. needs_image (gen_subcluster_map spec.subclusters) spec.image s ≡ false)
                  w2.statefulsets)
              s1 done);
      old_pods_gone = rw (f4.pods) (
          subst
            (λ (spec : VerticaDbSpec).
              All (λ p. is_left (gen_subcluster_map spec.subclusters) "" spec.image p ≡ false)
                w3.pods)
            s2 gone);
      new_pod = rw (f4.pods) (
          subst (λ (spec : VerticaDbSpec). any (λ (p : Pod). p.image == spec.image) w3.pods ≡ true)
            s3 new);
    }

-- When the functions that bring the new image to the pods all end without an error or a requeue,
-- and the upgrade goes on to check the version and to restart the cluster: each statefulset of a
-- lasting subcluster has the VerticaDB's image, no pod with another image exists, and some pod has
-- the image. The specification is as before. This holds whichever calls fail.
pub reschedule_funcs-IsRescheduled :
    (w : World)
    → is_reconcile_aborted (run_all reschedule_funcs w).0 ≡ false
    → IsRescheduled w.vdb.spec (run_all reschedule_funcs w).1
unfolding reschedule_funcs post_offline_msg
reschedule_funcs-IsRescheduled w h =
    let post = post_offline_msg reschedule_pods_offline_msg_index in
    let (_, a2, a3, a4, end) =
      run_all-four post update_images_step delete_pods_step check_for_new_pods w h in
    let w1 = (post w).1 in
    let w2 = (update_images_step w1).1 in
    let w3 = (delete_pods_step w2).1 in
    subst (IsRescheduled w.vdb.spec) (sym end) (
      rescheduled w w1 w2 w3 (check_for_new_pods w3).1
        (post_next_status_msg-IsFrame offline_upgrade_status_msgs reschedule_pods_offline_msg_index
          w)
        (images_step w1 a2) (pods_step w2 a3) (check_step w3 a4))
