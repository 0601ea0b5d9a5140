-- ===== src/Upgrade/Online/Recreate.antt =====
-- The new image for one subcluster of an online upgrade.
use vertica_kubernetes.Prelude.{
  ◌≡◌, refl, ◌∙◌, inl, inr, String, none, Bool, true, false, not, arith, All, List, map,
  if◌then◌else◌, Bool-cases, Option-cases, subst, ltb,
}
use text.Mathlib.Text.{◌==◌}
use vertica_kubernetes.Api.Types.{VerticaDb}
use vertica_kubernetes.Api.Methods.{gen_subcluster_map}
use vertica_kubernetes.Upgrade.World.{StatefulSet, World}
use vertica_kubernetes.Upgrade.Images.{
  set_image, update_image_in_stateful_set, delete_pods_running_old_image,
}
use vertica_kubernetes.Upgrade.Images.Handles.{round}
use vertica_kubernetes.Upgrade.Images.Pods.{is_left, delete_pods_running_old_image-none_left}
use vertica_kubernetes.Upgrade.Offline.{invalidate_if}
use vertica_kubernetes.Upgrade.Transient.{Online}
use vertica_kubernetes.Upgrade.Online.{
  recreate_subcluster_with_new_image, delete_old_pods, name_label,
}

delete_old_pods-none_left :
    (sc_name : String) (w : World)
    → (delete_old_pods sc_name w).0.err ≡ none
    → All
        (λ p.
          is_left (gen_subcluster_map w.vdb.spec.subclusters) sc_name w.vdb.spec.image p ≡ false)
        (delete_old_pods sc_name w).1.pods
      × ((delete_old_pods sc_name w).1.statefulsets ≡ w.statefulsets)
unfolding delete_old_pods
delete_old_pods-none_left sc_name w ok =
    let run = delete_pods_running_old_image sc_name w in
    elim (Option-cases run.1) [
      | inr (e, k) ↦ absurd (ground (arith, rw (delete_old_pods, k) at ok))
      | inl k ↦
          let (_, gone, kept) = delete_pods_running_old_image-none_left sc_name w k in
          elim (Bool-cases (ltb 0 run.0)) [
            | inl e ↦ rw (delete_old_pods, k, e) (gone, kept)
            | inr e ↦ rw (delete_old_pods, k, e) (gone, kept)
          ]
    ]

-- The statefulsets with the new image, and the strategy OnDelete, for those of a name.
abbrev pub with_image : String → String → List StatefulSet → List StatefulSet
with_image name image stss =
    map
      (λ (s : StatefulSet).
        if s.name == name then record s { image = image; on_delete = true } else s)
      stss

-- When a subcluster has been recreated without an error, its statefulset has the image of the
-- VerticaDB and all other statefulsets are as before, or all are if the one that was listed had the
-- image already; no pod of the subcluster that exists has another image, nor has any pod without the
-- label of a subcluster's name. This holds whichever calls fail.
pub recreate_subcluster_with_new_image-none_left :
    (sts : StatefulSet) (o : Online)
    → (recreate_subcluster_with_new_image sts o).0.err ≡ none
    → ((recreate_subcluster_with_new_image sts o).1.world.statefulsets ≡ (
        if sts.image == o.world.vdb.spec.image
        then o.world.statefulsets
        else with_image sts.name o.world.vdb.spec.image o.world.statefulsets))
      × All
          (λ p.
            is_left
              (gen_subcluster_map o.world.vdb.spec.subclusters)
              (name_label sts)
              o.world.vdb.spec.image
              p
            ≡ false)
          (recreate_subcluster_with_new_image sts o).1.world.pods
unfolding recreate_subcluster_with_new_image set_image
recreate_subcluster_with_new_image-none_left sts o ok =
    let run = update_image_in_stateful_set sts o.world in
    let (same, answer) = round sts o.world in
    elim answer [
      | inl (k, _) ↦ absurd (ground (arith, rw (recreate_subcluster_with_new_image, k) at ok))
      | inr (k, written) ↦
          let changed = not (sts.image == o.world.vdb.spec.image) in
          let w = invalidate_if changed run.1 in
          let (vdb_kept, sets_kept) = kept changed run.1 in
          let (gone, sets_same) =
            delete_old_pods-none_left (name_label sts) w
              (rw (recreate_subcluster_with_new_image, k) at ok) in
          rw (recreate_subcluster_with_new_image, k)
            (
              sets_same ∙ sets_kept ∙ written ∙ swap (sts.image == o.world.vdb.spec.image) _ _,
              subst
                  (λ (d : VerticaDb).
                    All
                      (λ p.
                        is_left (gen_subcluster_map d.spec.subclusters) (name_label sts)
                          d.spec.image p
                        ≡ false)
                      (delete_old_pods (name_label sts) w).1.pods)
                  (vdb_kept ∙ same) gone,
            )
    ]
  where
    kept :
        (b : Bool) (v : World)
        → ((invalidate_if b v).vdb ≡ v.vdb) × ((invalidate_if b v).statefulsets ≡ v.statefulsets)
    kept true v = (refl, refl)
    kept false v = (refl, refl)

    swap : (b : Bool) (x y : List StatefulSet) → (if not b then x else y) ≡ (if b then y else x)
    swap true x y = refl
    swap false x y = refl
