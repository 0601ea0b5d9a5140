-- ===== src/Upgrade/Images/Pods.antt =====
-- The pods after the loop that deletes those with an old image.
use text.Mathlib.Text.{◌==◌}
use text.Mathlib.TextPositions.{eq_refl}
use text.Mathlib.TextEquality.{eq_iff}
use vertica_kubernetes.Prelude.{
  ℕ, suc, ◌≡◌, refl, sym, ◌∙◌, ap, ◌⊎◌, inl, inr, String, List, [], ◌∷◌, none, Bool, true, false,
  not, ◌&&◌, if◌then◌else◌, keep, any, subst, arith, All, All-imp, Bool-cases,
}
use vertica_kubernetes.Api.Types.{Subcluster, VerticaDb}
use vertica_kubernetes.Api.Methods.{gen_subcluster_map}
use vertica_kubernetes.Finder.{is_selected, find_existing, build_obj_list}
use vertica_kubernetes.Upgrade.World.{Pod, World, client_call}
use vertica_kubernetes.Upgrade.Manager.Status.{client_call-IsFrame}
use vertica_kubernetes.Upgrade.Images.{
  find_pods, is_in_scope, delete_pod, delete_pods, delete_pods_running_old_image,
}

-- A pod that the loop is to delete.
unfoldable pub is_old : String → String → Pod → Bool
is_old sc_name image pod = is_in_scope sc_name pod && not (pod.image == image)

-- What the loop leaves of the pods when it gets to the end of its list.
unfoldable pub without_old : String → String → List Pod → List Pod → List Pod
unfolding is_old
without_old sc_name image [] all = all
without_old sc_name image (p ∷ pods) all =
    without_old sc_name image pods (if is_old sc_name image p then delete_pod p.name all else all)

delete_pods-without_old :
    (sc_name : String) (pods : List Pod) (n : ℕ) (w : World)
    → (delete_pods sc_name pods n w).1 ≡ none
    → ((delete_pods sc_name pods n w).2.vdb ≡ w.vdb)
      × ((delete_pods sc_name pods n w).2.pods ≡ without_old sc_name w.vdb.spec.image pods w.pods)
      × ((delete_pods sc_name pods n w).2.statefulsets ≡ w.statefulsets)
unfolding delete_pods without_old is_old
delete_pods-without_old sc_name [] n w ok = (refl, refl, refl)
delete_pods-without_old sc_name (p ∷ pods) n w ok =
    let (frame, same) = client_call-IsFrame w in
    let w' = (client_call w).1 in
    let next = record w' { pods = delete_pod p.name w'.pods } in
    elim (Bool-cases (is_in_scope sc_name p && not (p.image == w.vdb.spec.image))) [
      | inr e ↦ rw e (delete_pods-without_old sc_name pods n w (rw e at ok))
      | inl e ↦ elim (Bool-cases (client_call w).0) [
        | inr k ↦ absurd (ground (arith, e, k, ok))
        | inl k ↦
            let (f, g, h) = delete_pods-without_old sc_name pods (suc n) next (rw (e, k) at ok) in
            rw (e, k)
              (
                f ∙ same,
                g
                    ∙ ap
                        (λ (d : VerticaDb).
                          without_old sc_name d.spec.image pods (delete_pod p.name w'.pods))
                        same
                    ∙ ap (λ all. without_old sc_name w.vdb.spec.image pods (delete_pod p.name all))
                        frame.pods,
                h ∙ frame.statefulsets,
              )
      ]
    ]

module _ (subclusters : List (String × Subcluster)) (sc_name image : String) where
  -- A pod that exists, is in scope, and has an old image.
  abbrev pub is_left : Pod → Bool
  is_left p = is_selected find_existing subclusters p.labels && is_old sc_name image p

  abbrev Covered : List Pod → Pod → Type 0
  Covered pods p =
      (is_left p ≡ false)
      ⊎ (any (λ (q : Pod). is_old sc_name image q && q.name == p.name) pods ≡ true)

  Covered-other :
      (q p : Pod) (pods : List Pod)
      → is_old sc_name image q && q.name == p.name ≡ false
      → Covered (q ∷ pods) p
      → Covered pods p
  Covered-other q p pods e h = ground arith

  delete-Covered :
      (q : Pod) (pods all : List Pod)
      → All (Covered (q ∷ pods)) all
      → All (Covered pods) (if is_old sc_name image q then delete_pod q.name all else all)
  delete-Covered q pods [] h = ground arith
  delete-Covered q pods (p ∷ all) (c, h) =
      let rest = delete-Covered q pods all h in
      ground (arith, rest, c, eq_iff p.name q.name, eq_iff q.name p.name)

  without_old-none_left :
      (pods all : List Pod)
      → All (Covered pods) all
      → All (λ p. is_left p ≡ false) (without_old sc_name image pods all)
  unfolding without_old
  without_old-none_left [] all h = All-imp (λ p c. ground arith) all h
  without_old-none_left (q ∷ pods) all h =
      without_old-none_left pods _ (delete-Covered q pods all h)

  keep-Covered :
      (all : List Pod)
      → All (Covered (keep (λ (p : Pod). is_selected find_existing subclusters p.labels) all)) all
  keep-Covered [] = tt
  keep-Covered (p ∷ all) =
      (ground (arith, eq_refl p.name), All-imp (λ q c. ground (arith, c)) all (keep-Covered all))

-- When the loop over the pods ends without an error, no pod of a subcluster is left that is in its
-- scope and has another image than the VerticaDB's; the VerticaDB is as before. This holds whichever
-- calls fail.
pub delete_pods_running_old_image-none_left :
    (sc_name : String) (w : World)
    → (delete_pods_running_old_image sc_name w).1 ≡ none
    → ((delete_pods_running_old_image sc_name w).2.vdb ≡ w.vdb)
      × All
          (λ p.
            is_left (gen_subcluster_map w.vdb.spec.subclusters) sc_name w.vdb.spec.image p ≡ false)
          (delete_pods_running_old_image sc_name w).2.pods
      × ((delete_pods_running_old_image sc_name w).2.statefulsets ≡ w.statefulsets)
unfolding delete_pods_running_old_image find_pods build_obj_list
delete_pods_running_old_image-none_left sc_name w ok =
    let (frame, same) = client_call-IsFrame w in
    let w' = (client_call w).1 in
    let subclusters = gen_subcluster_map w.vdb.spec.subclusters in
    let pods = keep (λ (p : Pod). is_selected find_existing subclusters p.labels) w.pods in
    elim (Bool-cases (client_call w).0) [
      | inr e ↦ absurd (ground (arith, e, rw (delete_pods_running_old_image, find_pods, e) at ok))
      | inl e ↦
          let (f, g, h) =
            delete_pods-without_old sc_name pods 0 w'
              (rw (delete_pods_running_old_image, find_pods, e) at ok) in
          rw (delete_pods_running_old_image, find_pods, e)
            (
              f ∙ same,
              subst
                  (λ (l : List Pod).
                    All (λ p. is_left subclusters sc_name w.vdb.spec.image p ≡ false) l)
                  (sym (
                    g
                    ∙ ap (λ (d : VerticaDb). without_old sc_name d.spec.image pods w'.pods) same
                    ∙ ap (without_old sc_name w.vdb.spec.image pods) frame.pods))
                  (without_old-none_left subclusters sc_name w.vdb.spec.image pods w.pods
                    (keep-Covered subclusters sc_name w.vdb.spec.image w.pods)),
              h ∙ frame.statefulsets,
            )
    ]
