-- ===== src/Upgrade/Routing/Laws.antt =====
-- The clients go to a subcluster that stays up, where there is one.
use text.Mathlib.Text.{◌==◌}
use vertica_kubernetes.Prelude.{
  ◌≡◌, refl, sym, ◌∙◌, ◌⊎◌, inl, inr, List, [], ◌∷◌, Option, none, some, Bool, true, false, not,
  if◌then◌else◌, any, arith, Bool-cases, subst, ap, ℕ, suc, get_elem?,
}
use vertica_kubernetes.Api.Types.{Subcluster}
use vertica_kubernetes.Upgrade.Routing.{
  find_subcluster, or_first, pick_default_subcluster_for_temporary_routing,
}

-- A subcluster that an upgrade of `offline_sc` leaves up: with a primary all primaries go down.
abbrev pub stays_up : Subcluster → Subcluster → Bool
stays_up offline_sc sc =
    if offline_sc.is_primary then not sc.is_primary else not (sc.name == offline_sc.name)

-- The pick is one of the subclusters and stays up; or it is the first one, for a primary where none
-- stays up. None is picked where there is no subcluster for a primary, or none but its own for a
-- secondary.
abbrev pub PicksUp : Subcluster → List Subcluster → Option Subcluster → Type 0
PicksUp offline_sc scs none =
    (any (stays_up offline_sc) scs ≡ false) × ((offline_sc.is_primary ≡ true) → scs ≡ [])
PicksUp offline_sc scs (some sc) =
    ((i : ℕ) × (get_elem? scs i ≡ some sc) × (stays_up offline_sc sc ≡ true))
    ⊎ ((offline_sc.is_primary ≡ true)
        × (any (stays_up offline_sc) scs ≡ false)
        × (get_elem? scs 0 ≡ some sc))

find_subcluster-cases :
    (test : Subcluster → Bool) (scs : List Subcluster)
    → ((find_subcluster test scs ≡ none) × (any test scs ≡ false))
      ⊎ ((sc : Subcluster) × (find_subcluster test scs ≡ some sc)
          × (test sc ≡ true)
          × ((i : ℕ) × (get_elem? scs i ≡ some sc)))
find_subcluster-cases test [] = inl (refl, refl)
find_subcluster-cases test (sc ∷ scs) = elim (Bool-cases (test sc)) [
  | inl e ↦ rw e (inr (sc, refl, e, (0, refl)))
  | inr e ↦ rw e (elim (find_subcluster-cases test scs) [
    | inl none_is ↦ inl none_is
    | inr (found, k, t, (i, at)) ↦ inr (found, k, t, (suc i, at))
  ])
]

any-ext :
    (p q : Subcluster → Bool) (scs : List Subcluster)
    → ((sc : Subcluster) → p sc ≡ q sc)
    → any p scs ≡ any q scs
any-ext p q [] h = refl
any-ext p q (sc ∷ scs) h = ground (arith, h sc, any-ext p q scs h)

first-PicksUp :
    (offline_sc : Subcluster) (scs : List Subcluster)
    → offline_sc.is_primary ≡ true
    → any (stays_up offline_sc) scs ≡ false
    → PicksUp offline_sc scs (or_first none scs)
first-PicksUp offline_sc [] e a = (a, λ _. refl)
first-PicksUp offline_sc (sc ∷ scs) e a = inr (e, a, refl)

-- Without names in the VerticaDB the clients are sent to one of its subclusters that stays up, if there
-- is one: with a primary all primaries go down. Where none stays up, the clients of a primary go to
-- the first subcluster, if there is any, and no choice is made for a secondary.
pub pick_default_subcluster_for_temporary_routing-PicksUp :
    (offline_sc : Subcluster) (scs : List Subcluster)
    → PicksUp offline_sc scs (pick_default_subcluster_for_temporary_routing offline_sc scs)
unfolding pick_default_subcluster_for_temporary_routing
pick_default_subcluster_for_temporary_routing-PicksUp offline_sc scs =
    elim (Bool-cases offline_sc.is_primary) [
      | inl e ↦ elim (find_subcluster-cases (λ sc. not sc.is_primary) scs) [
        | inl (n, a) ↦
            let none_up : any (stays_up offline_sc) scs ≡ false =
              any-ext (stays_up offline_sc) (λ sc. not sc.is_primary) scs (λ sc. ground arith)
              ∙ a in
            subst (PicksUp offline_sc scs) (sym (choice e ∙ ap (λ o. or_first o scs) n))
              (first-PicksUp offline_sc scs e none_up)
        | inr (sc, n, a, (i, at)) ↦
            subst (PicksUp offline_sc scs) (sym (choice e ∙ ap (λ o. or_first o scs) n))
              (inl (i, at, ground arith))
      ]
      | inr e ↦ elim (find_subcluster-cases (λ sc. not (sc.name == offline_sc.name)) scs) [
        | inl (n, a) ↦
            let none_up : any (stays_up offline_sc) scs ≡ false =
              any-ext (stays_up offline_sc) (λ sc. not (sc.name == offline_sc.name)) scs
                (λ sc. ground arith)
              ∙ a in
            subst (PicksUp offline_sc scs) (sym (other e ∙ n))
              (none_up, λ primary. absurd (ground arith))
        | inr (sc, n, a, (i, at)) ↦
            subst (PicksUp offline_sc scs) (sym (other e ∙ n)) (inl (i, at, ground arith))
      ]
    ]
  where
    choice :
        offline_sc.is_primary ≡ true
        → pick_default_subcluster_for_temporary_routing offline_sc scs
          ≡ or_first (find_subcluster (λ sc. not sc.is_primary) scs) scs
    choice e = ground arith

    other :
        offline_sc.is_primary ≡ false
        → pick_default_subcluster_for_temporary_routing offline_sc scs
          ≡ find_subcluster (λ sc. not (sc.name == offline_sc.name)) scs
    other e = ground arith
