-- ===== src/Upgrade/Images/Handles.antt =====
-- What the loop over the statefulsets writes, up to an error.
use text.Mathlib.Text.{◌==◌}
use vertica_kubernetes.Prelude.{
  ℕ, ◌≡◌, ◌≢◌, refl, ◌∙◌, ap, ◌⊎◌, inl, inr, String, List, [], ◌∷◌, ◌++◌, map, none, some, Bool,
  true, false, not, ◌&&◌, if◌then◌else◌, arith, All, Bool-cases, Option-cases,
}
use vertica_kubernetes.Api.Types.{VerticaDb}
use vertica_kubernetes.Upgrade.World.{StatefulSet, World, Outcome, client_call}
use vertica_kubernetes.Upgrade.Manager.Status.{client_call-IsFrame}
use vertica_kubernetes.Upgrade.Images.{
  set_image, update_image_in_stateful_set, transient_label, update_images, counted,
}

-- The statefulset exists for a subcluster that is not the transient one.
unfoldable pub is_lasting_set : StatefulSet → Bool
is_lasting_set s = elim (transient_label s) [ none ↦ false | some transient ↦ not transient ]

-- What the loop over `stss` writes, all at once.
unfoldable pub set_images : List StatefulSet → String → List StatefulSet → List StatefulSet
unfolding set_image
set_images [] image all = all
set_images (s ∷ stss) image all =
    set_images stss image
      (if is_lasting_set s && not (s.image == image) then map (set_image s.name image) all else all)

-- One round: the writes, the VerticaDB, and the answer.
pub round :
    (s : StatefulSet) (w : World)
    → let run = update_image_in_stateful_set s w in
      (run.1.vdb ≡ w.vdb)
      × ((run.0 ≡ none × (run.1.statefulsets ≡ w.statefulsets))
          ⊎ ((run.0 ≡ some (not (s.image == w.vdb.spec.image)))
              × (run.1.statefulsets ≡ (
                  if not (s.image == w.vdb.spec.image)
                  then map (set_image s.name w.vdb.spec.image) w.statefulsets
                  else w.statefulsets))))
unfolding update_image_in_stateful_set
round s w =
    let (frame, same) = client_call-IsFrame w in
    elim (Bool-cases (s.image == w.vdb.spec.image)) [
      | inl e ↦ rw e (refl, inr (refl, refl))
      | inr e ↦ elim (Bool-cases (client_call w).0) [
        | inl k ↦
            rw (e, k)
              (same, inr (refl, ap (map (set_image s.name w.vdb.spec.image)) frame.statefulsets))
        | inr k ↦ rw (e, k) (same, inl (refl, frame.statefulsets))
      ]
    ]

-- The loop has handled the front of its list, and all of it unless there is an error.
abbrev pub Handles : List StatefulSet → World → ℕ × Outcome × World → Type 0
Handles stss before (n, res, after) =
    (after.vdb ≡ before.vdb)
    × (handled : List StatefulSet) × (rest : List StatefulSet) × (stss ≡ handled ++ rest)
    × (after.statefulsets ≡ set_images handled before.vdb.spec.image before.statefulsets)
    × ((res.err ≢ none) ⊎ ((stss ≡ handled) × All (λ s. transient_label s ≢ none) stss))

Handles-cons :
    (s : StatefulSet) (stss : List StatefulSet) (w v : World) (run : ℕ × Outcome × World)
    → v.vdb ≡ w.vdb
    → v.statefulsets ≡ (
        if is_lasting_set s && not (s.image == w.vdb.spec.image)
        then map (set_image s.name w.vdb.spec.image) w.statefulsets
        else w.statefulsets)
    → transient_label s ≢ none
    → Handles stss v run
    → Handles (s ∷ stss) w run
unfolding set_images
Handles-cons s stss w v (n, res, after) same e known (f, handled, rest, split, final, over) = (
  f ∙ same,
  s ∷ handled,
  rest,
  ap (λ l. s ∷ l) split,
  final
      ∙ ap (λ (d : VerticaDb). set_images handled d.spec.image v.statefulsets) same
      ∙ ap (set_images handled w.vdb.spec.image) e,
  elim over [ inl bad ↦ inl bad | inr (all, labels) ↦ inr (ap (λ l. s ∷ l) all, (known, labels)) ],
)

pub update_images-Handles :
    (stss : List StatefulSet) (n : ℕ) (w : World) → Handles stss w (update_images stss n w)
unfolding update_images set_images is_lasting_set
update_images-Handles [] n w = (refl, [], [], refl, refl, inr (refl, tt))
update_images-Handles (s ∷ stss) n w = elim (Option-cases (transient_label s)) [
  | inl e ↦ rw (update_images, e) (refl, [], s ∷ stss, refl, refl, inl (λ q. ground arith))
  | inr (true, e) ↦
      Handles-cons s stss w w (update_images (s ∷ stss) n w) refl (rw (is_lasting_set, e) refl)
        (λ q. ground arith) (rw (update_images, e) (update_images-Handles stss n w))
  | inr (false, e) ↦
      let (same, answer) = round s w in
      elim answer [
        | inl (none_is, kept) ↦
            rw (update_images, e, none_is) (same, [], s ∷ stss, refl, kept, inl (λ q. ground arith))
        | inr (some_is, written) ↦
            Handles-cons s stss w (update_image_in_stateful_set s w).1
              (update_images (s ∷ stss) n w) same (rw (is_lasting_set, e) written)
              (λ q. ground arith)
              (rw (update_images, e, some_is)
                (update_images-Handles stss (counted n (not (s.image == w.vdb.spec.image)))
                  (update_image_in_stateful_set s w).1))
      ]
]
