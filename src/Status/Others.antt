-- ===== src/Status/Others.antt =====
-- Setting a condition leaves the other conditions as they read.
use native.Mathlib.Decide.{ℕ_discrete}
use text.Mathlib.Text.{◌==◌}
use vertica_kubernetes.Prelude.{
  ℕ, zero, suc, ◌-◌, ◌≡◌, ◌≢◌, refl, sym, ◌∙◌, ap, inl, inr, List, [], ◌∷◌, ◌++◌, Option, none,
  some, arith, length, length-append, get_elem?, set, subst, Bool-cases, ◌+◌, ◌≤◌, ◌<◌,
}
use vertica_kubernetes.Api.Types.{VerticaDbCondition, VerticaDb}
use vertica_kubernetes.Api.Methods.{is_condition_index_set, status_is_true}
use vertica_kubernetes.Status.{
  condition_index, unset_condition, extend, write_condition, refresh_condition_at,
  refresh_condition_in_place, set_conditions,
}

get_elem?-append_unset :
    (cs : List VerticaDbCondition) (i j : ℕ)
    → status_is_true (get_elem? (cs ++ unset_condition i ∷ []) j) ≡ status_is_true (get_elem? cs j)
get_elem?-append_unset [] i zero = refl
get_elem?-append_unset [] i (suc j) = refl
get_elem?-append_unset (c ∷ cs) i zero = refl
get_elem?-append_unset (c ∷ cs) i (suc j) = get_elem?-append_unset cs i j

get_elem?-extend :
    (n : ℕ) (cs : List VerticaDbCondition) (j : ℕ)
    → status_is_true (get_elem? (extend n cs) j) ≡ status_is_true (get_elem? cs j)
unfolding extend
get_elem?-extend zero cs j = refl
get_elem?-extend (suc n) cs j =
    get_elem?-extend n (cs ++ unset_condition (length cs) ∷ []) j
    ∙ get_elem?-append_unset cs (length cs) j

get_elem?-append_some :
    (cs ds : List VerticaDbCondition) (j : ℕ) (d : VerticaDbCondition)
    → get_elem? cs j ≡ some d
    → get_elem? (cs ++ ds) j ≡ some d
get_elem?-append_some [] ds j d h = absurd (ground arith)
get_elem?-append_some (c ∷ cs) ds zero d h = h
get_elem?-append_some (c ∷ cs) ds (suc j) d h = get_elem?-append_some cs ds j d h

get_elem?-snoc :
    (cs : List VerticaDbCondition) (d : VerticaDbCondition)
    → get_elem? (cs ++ d ∷ []) (length cs) ≡ some d
get_elem?-snoc [] d = refl
get_elem?-snoc (c ∷ cs) d = get_elem?-snoc cs d

-- What there is stays where it is, when the array is made longer.
pub extend-kept :
    (n : ℕ) (cs : List VerticaDbCondition) (j : ℕ) (d : VerticaDbCondition)
    → get_elem? cs j ≡ some d
    → get_elem? (extend n cs) j ≡ some d
unfolding extend
extend-kept zero cs j d h = h
extend-kept (suc n) cs j d h =
    extend-kept n (cs ++ unset_condition (length cs) ∷ []) j d
      (get_elem?-append_some cs (unset_condition (length cs) ∷ []) j d h)

-- What is added is not set.
pub extend-filled :
    (n : ℕ) (cs : List VerticaDbCondition) (j : ℕ)
    → length cs ≤ j
    → j < n + length cs
    → get_elem? (extend n cs) j ≡ some (unset_condition j)
unfolding extend
extend-filled zero cs j h l = absurd (omega arith)
extend-filled (suc n) cs j h l =
    let added = unset_condition (length cs) ∷ [] in
    elim (ℕ_discrete (length cs) j) [
      | yes e ↦ extend-kept n (cs ++ added) j (unset_condition j) (
          subst (λ i. get_elem? (cs ++ added) i ≡ some (unset_condition i)) e
            (get_elem?-snoc cs (unset_condition (length cs))))
      | no ne ↦
          extend-filled n (cs ++ added) j (omega (arith, length-append cs added))
            (omega (arith, length-append cs added))
    ]

pub get_elem?-set_ne :
    (cs : List VerticaDbCondition) (inx j : ℕ) (c : VerticaDbCondition)
    → inx ≢ j
    → get_elem? (set cs inx c) j ≡ get_elem? cs j
get_elem?-set_ne [] inx j c h = refl
get_elem?-set_ne (d ∷ cs) zero zero c h = absurd (h refl)
get_elem?-set_ne (d ∷ cs) zero (suc j) c h = refl
get_elem?-set_ne (d ∷ cs) (suc inx) zero c h = refl
get_elem?-set_ne (d ∷ cs) (suc inx) (suc j) c h = get_elem?-set_ne cs inx j c (omega arith)

get_elem?-write :
    (c : VerticaDbCondition) (inx j : ℕ) (cs : List VerticaDbCondition)
    (old : Option VerticaDbCondition)
    → inx ≢ j
    → get_elem? (write_condition c inx cs old) j ≡ get_elem? cs j
get_elem?-write c inx j cs none h = refl
get_elem?-write c inx j cs (some old) h = elim (Bool-cases (old.status == c.status)) [
  | inl e ↦ rw e refl
  | inr e ↦ rw e (get_elem?-set_ne cs inx j c h)
]

-- A condition at another index reads as before, whatever the array was.
pub is_condition_index_set-refresh :
    (v : VerticaDb) (c : VerticaDbCondition) (inx j : ℕ) (after : List VerticaDbCondition)
    → condition_index c.type_name ≡ some inx
    → inx ≢ j
    → refresh_condition_in_place c v.status.conditions ≡ some after
    → is_condition_index_set (set_conditions v after) j ≡ is_condition_index_set v j
unfolding is_condition_index_set refresh_condition_in_place refresh_condition_at
is_condition_index_set-refresh v c inx j after known ne e =
    let cs = v.status.conditions in
    let extended = extend (suc inx - length cs) cs in
    let result : some (write_condition c inx extended (get_elem? extended inx)) ≡ some after =
      sym (ap (refresh_condition_at c cs) known) ∙ e in
    let same : write_condition c inx extended (get_elem? extended inx) ≡ after = cc in
    rw (sym same) (
      ap status_is_true (get_elem?-write c inx j extended (get_elem? extended inx) ne)
      ∙ get_elem?-extend (suc inx - length cs) cs j)
