-- ===== src/Upgrade/Images/Progress.antt =====
-- The loop over the statefulsets gets to its end, and what it has written then.
use text.Mathlib.Text.{◌==◌}
use vertica_kubernetes.Prelude.{
  ℕ, ◌≡◌, ◌≢◌, refl, inl, inr, List, [], ◌∷◌, none, some, Bool, true, false, All, All-keep,
  Bool-cases, Option-cases,
}
use vertica_kubernetes.Finder.{build_obj_list}
use vertica_kubernetes.Upgrade.World.{StatefulSet, World, client_call}
use vertica_kubernetes.Api.Methods.{gen_subcluster_map}
use vertica_kubernetes.Upgrade.Images.Handles.{set_images}
use vertica_kubernetes.Upgrade.Images.Laws.{
  existing_sets, needs_image, update_image_in_stateful_sets-written,
}
use vertica_kubernetes.Upgrade.Images.{
  find_stateful_sets, update_image_in_stateful_set, transient_label, update_images,
  update_image_in_stateful_sets, counted,
}

calm_call :
    (w : World) → w.faults ≡ [] → ((client_call w).0 ≡ true) × ((client_call w).1.faults ≡ [])
unfolding client_call
calm_call w e = rw e (refl, refl)

calm_round :
    (s : StatefulSet) (w : World)
    → w.faults ≡ []
    → ((changed : Bool) × ((update_image_in_stateful_set s w).0 ≡ some changed)
        × ((update_image_in_stateful_set s w).1.faults ≡ []))
unfolding update_image_in_stateful_set
calm_round s w e =
    let (fine, calm) = calm_call w e in
    elim (Bool-cases (s.image == w.vdb.spec.image)) [
      | inl k ↦ rw k (false, refl, e)
      | inr k ↦ rw (k, fine) (true, refl, calm)
    ]

calm_loop :
    (stss : List StatefulSet) (n : ℕ) (w : World)
    → w.faults ≡ []
    → All (λ s. transient_label s ≢ none) stss
    → (update_images stss n w).1.err ≡ none
unfolding update_images
calm_loop [] n w e h = refl
calm_loop (s ∷ stss) n w e (known, h) = elim (Option-cases (transient_label s)) [
  | inl k ↦ absurd (known k)
  | inr (true, k) ↦ rw (update_images, k) (calm_loop stss n w e h)
  | inr (false, k) ↦
      let (changed, answer, calm) = calm_round s w e in
      rw (update_images, k, answer)
        (calm_loop stss (counted n changed) (update_image_in_stateful_set s w).1 calm h)
]

ends_without_error :
    (w : World)
    → w.faults ≡ []
    → All (λ s. transient_label s ≢ none) w.statefulsets
    → (update_image_in_stateful_sets w).1.err ≡ none
unfolding update_image_in_stateful_sets find_stateful_sets build_obj_list
ends_without_error w e labels =
    let (fine, calm) = calm_call w e in
    rw (update_image_in_stateful_sets, find_stateful_sets, fine)
      (calm_loop _ 0 (client_call w).1 calm
        (All-keep (λ s. transient_label s ≢ none) _ w.statefulsets labels))

-- If all calls of the client succeed and each statefulset has a truth value in the label that marks
-- the transient subcluster, the update of the statefulsets' images ends without an error. Each
-- existing statefulset of a subcluster other than the transient one has the VerticaDB's image then;
-- and those that are written are exactly the ones that are named as an existing statefulset that is
-- not transient and had another image.
pub update_image_in_stateful_sets-succeeds :
    (w : World)
    → w.faults ≡ []
    → All (λ s. transient_label s ≢ none) w.statefulsets
    → ((update_image_in_stateful_sets w).1.err ≡ none)
      × ((update_image_in_stateful_sets w).2.statefulsets
          ≡ set_images (existing_sets w) w.vdb.spec.image w.statefulsets)
      × All
          (λ s. needs_image (gen_subcluster_map w.vdb.spec.subclusters) w.vdb.spec.image s ≡ false)
          (update_image_in_stateful_sets w).2.statefulsets
update_image_in_stateful_sets-succeeds w e labels =
    let fine = ends_without_error w e labels in
    let (_, written, all) = update_image_in_stateful_sets-written w fine in (fine, written, all)
