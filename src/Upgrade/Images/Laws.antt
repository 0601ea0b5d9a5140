-- ===== src/Upgrade/Images/Laws.antt =====
-- The statefulsets after the loop over them.
use text.Mathlib.Text.{◌==◌}
use text.Mathlib.TextEquality.{eq_iff}
use text.Mathlib.TextPositions.{eq_refl}
use vertica_kubernetes.Prelude.{
  ℕ, ◌≡◌, refl, sym, ◌∙◌, ◌⊎◌, inl, inr, String, List, [], ◌∷◌, map, none, some, Bool, true, false,
  not, ◌&&◌, if◌then◌else◌, keep, any, arith, All, All-imp, All-map, Bool-cases,
}
use vertica_kubernetes.Api.Types.{Subcluster}
use vertica_kubernetes.Api.Methods.{gen_subcluster_map}
use vertica_kubernetes.Finder.{FindFlags, is_selected, find_existing, build_obj_list}
use vertica_kubernetes.Upgrade.World.{StatefulSet, World, Outcome, client_call}
use vertica_kubernetes.Upgrade.Manager.Status.{client_call-IsFrame}
use vertica_kubernetes.Upgrade.Images.Handles.{
  is_lasting_set, set_images, Handles, update_images-Handles,
}
use vertica_kubernetes.Upgrade.Images.{
  find_stateful_sets, set_image, update_images, update_image_in_stateful_sets,
}

-- The statefulset exists for a lasting subcluster, and does not have the image.
unfoldable pub needs_image : List (String × Subcluster) → String → StatefulSet → Bool
needs_image subclusters image s =
    is_selected find_existing subclusters s.labels && is_lasting_set s && not (s.image == image)

covers : List StatefulSet → String → StatefulSet → Bool
covers stss image s =
    any (λ (t : StatefulSet). is_lasting_set t && not (t.image == image) && t.name == s.name) stss

module _ (subclusters : List (String × Subcluster)) (image : String) where
  abbrev Covered : List StatefulSet → StatefulSet → Type 0
  Covered stss s = (needs_image subclusters image s ≡ false) ⊎ (covers stss image s ≡ true)

  Covered-round :
      (t s : StatefulSet) (stss : List StatefulSet)
      → Covered (t ∷ stss) s
      → Covered stss
          (if is_lasting_set t && not (t.image == image) then set_image t.name image s else s)
  unfolding needs_image covers set_image
  Covered-round t s stss h =
      ground (arith, eq_iff t.name s.name, eq_iff s.name t.name, eq_refl image)

  map-Covered :
      (t : StatefulSet) (stss all : List StatefulSet)
      → All (Covered (t ∷ stss)) all
      → All (Covered stss) (
          if is_lasting_set t && not (t.image == image)
          then map (set_image t.name image) all
          else all)
  map-Covered t stss all h = elim (Bool-cases (is_lasting_set t && not (t.image == image))) [
    | inl e ↦ rw e (
        All-map (Covered stss) (set_image t.name image) all
          (All-imp (λ s c. ground (arith, e, Covered-round t s stss c)) all h))
    | inr e ↦ rw e (All-imp (λ s c. ground (arith, e, Covered-round t s stss c)) all h)
  ]

  set_images-done :
      (stss all : List StatefulSet)
      → All (Covered stss) all
      → All (λ s. needs_image subclusters image s ≡ false) (set_images stss image all)
  unfolding set_images covers
  set_images-done [] all h = All-imp (λ s c. ground arith) all h
  set_images-done (t ∷ stss) all h = set_images-done stss _ (map-Covered t stss all h)

  keep-Covered :
      (all : List StatefulSet)
      → All
          (Covered (keep (λ (s : StatefulSet). is_selected find_existing subclusters s.labels) all))
          all
  unfolding covers needs_image
  keep-Covered [] = tt
  keep-Covered (s ∷ all) =
      (ground (arith, eq_refl s.name), All-imp (λ t c. ground (arith, c)) all (keep-Covered all))

-- The listing of the statefulsets.
find_stateful_sets-cases :
    (flags : FindFlags) (w : World)
    → let run = find_stateful_sets flags w in
      (run.1.vdb ≡ w.vdb)
      × (run.1.statefulsets ≡ w.statefulsets)
      × ((run.0 ≡ none)
          ⊎ (run.0
              ≡ some (
                  build_obj_list
                    (λ (s : StatefulSet). s.labels)
                    flags
                    (gen_subcluster_map w.vdb.spec.subclusters)
                    w.statefulsets)))
unfolding find_stateful_sets
find_stateful_sets-cases flags w =
    let (frame, same) = client_call-IsFrame w in
    elim (Bool-cases (client_call w).0) [
      | inl e ↦ rw e (same, frame.statefulsets, inr refl)
      | inr e ↦ rw e (same, frame.statefulsets, inl refl)
    ]

of_Handles :
    (w v : World) (run : ℕ × Outcome × World)
    → let subclusters = gen_subcluster_map w.vdb.spec.subclusters in
      v.vdb ≡ w.vdb
      → v.statefulsets ≡ w.statefulsets
      → Handles
          (keep
            (λ (s : StatefulSet). is_selected find_existing subclusters s.labels)
            w.statefulsets)
          v
          run
      → run.1.err ≡ none
      → (run.2.vdb ≡ w.vdb)
        × (run.2.statefulsets
            ≡ set_images
                (keep
                  (λ (s : StatefulSet). is_selected find_existing subclusters s.labels)
                  w.statefulsets)
                w.vdb.spec.image
                w.statefulsets)
        × All (λ s. needs_image subclusters w.vdb.spec.image s ≡ false) run.2.statefulsets
of_Handles w v (n, res, after) same kept (f, handled, rest, split, final, inl bad) ok =
    absurd (bad ok)
of_Handles w v (n, res, after) same kept (f, handled, rest, split, final, inr (all, labels)) ok =
    let subclusters = gen_subcluster_map w.vdb.spec.subclusters in
    (
      f ∙ same,
      rw (final, sym all, same, kept) refl,
      rw (final, sym all, same, kept)
          (set_images-done subclusters w.vdb.spec.image _ w.statefulsets
            (keep-Covered subclusters w.vdb.spec.image w.statefulsets)),
    )

-- The statefulsets of the VerticaDB's subclusters, and the transient one.
abbrev pub existing_sets : World → List StatefulSet
existing_sets w =
    keep
      (λ (s : StatefulSet).
        is_selected find_existing (gen_subcluster_map w.vdb.spec.subclusters) s.labels)
      w.statefulsets

-- What the loop has written, when it ends without an error.
pub update_image_in_stateful_sets-written :
    (w : World)
    → (update_image_in_stateful_sets w).1.err ≡ none
    → ((update_image_in_stateful_sets w).2.vdb ≡ w.vdb)
      × ((update_image_in_stateful_sets w).2.statefulsets
          ≡ set_images (existing_sets w) w.vdb.spec.image w.statefulsets)
      × All
          (λ s. needs_image (gen_subcluster_map w.vdb.spec.subclusters) w.vdb.spec.image s ≡ false)
          (update_image_in_stateful_sets w).2.statefulsets
unfolding update_image_in_stateful_sets build_obj_list
update_image_in_stateful_sets-written w ok =
    let (same, kept, answer) = find_stateful_sets-cases find_existing w in
    elim answer [
      | inl e ↦ absurd (ground (arith, e, ok))
      | inr e ↦
          let stss =
            build_obj_list (λ (s : StatefulSet). s.labels) find_existing
              (gen_subcluster_map w.vdb.spec.subclusters) w.statefulsets in
          let w' = (find_stateful_sets find_existing w).1 in
          rw (update_image_in_stateful_sets, e)
            (of_Handles w w' (update_images stss 0 w') same kept (update_images-Handles stss 0 w')
              (rw (update_image_in_stateful_sets, e) at ok))
    ]

-- When the loop over the statefulsets ends without an error, no statefulset of a subcluster is left
-- without the VerticaDB's image, the transient one's aside; the VerticaDB is as before. This holds
-- whichever calls fail.
pub update_image_in_stateful_sets-done :
    (w : World)
    → (update_image_in_stateful_sets w).1.err ≡ none
    → ((update_image_in_stateful_sets w).2.vdb ≡ w.vdb)
      × All
          (λ s. needs_image (gen_subcluster_map w.vdb.spec.subclusters) w.vdb.spec.image s ≡ false)
          (update_image_in_stateful_sets w).2.statefulsets
update_image_in_stateful_sets-done w ok =
    let (same, _, all) = update_image_in_stateful_sets-written w ok in (same, all)
