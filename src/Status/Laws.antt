-- ===== src/Status/Laws.antt =====
-- The condition array keeps each condition at its index.
use text.Mathlib.Text.{◌==◌}
use text.Mathlib.TextEquality.{eq_iff}
use vertica_kubernetes.Prelude.{
  ℕ, zero, suc, ◌+◌, ◌-◌, ◌≤◌, ◌<◌, ◌≡◌, ◌≢◌, refl, false, sym, ◌∙◌, ap, inl, inr, String, List, [],
  ◌∷◌, ◌++◌, Option, none, some, arith, if◌then◌else◌, length, length-append, get_elem?, set,
  Bool-cases,
}
use vertica_kubernetes.Api.Types.{VerticaDbCondition, VerticaDb}
use vertica_kubernetes.Api.Methods.{is_condition_index_set}
use vertica_kubernetes.Api.Constants.{condition_true}
use vertica_kubernetes.Status.{
  condition_name, condition_index, unset_condition, extend, write_condition, refresh_condition_at,
  refresh_condition_in_place, is_condition_set, is_condition_set_at, set_conditions,
}
use vertica_kubernetes.Status.Others.{extend-kept, extend-filled, get_elem?-set_ne}

-- From index `i` on each condition has the type that the table has for its index.
abbrev pub IsIndexed : ℕ → List VerticaDbCondition → Type 0
IsIndexed i [] = Unit
IsIndexed i (c ∷ cs) = (c.type_name ≡ condition_name i) × IsIndexed (suc i) cs

-- The tables are inverse to each other.
step :
    (name known : String) (k i : ℕ) (rest : Option ℕ)
    → known ≡ condition_name k
    → (rest ≡ some i → name ≡ condition_name i)
    → (if name == known then some k else rest) ≡ some i
    → name ≡ condition_name i
step name known k i rest h other e = elim (Bool-cases (name == known)) [
  | inl same ↦
      let is_k : k ≡ i = ground arith in (eq_iff name known).0 same ∙ h ∙ ap condition_name is_k
  | inr differs ↦ other (sym (rw differs refl) ∙ e)
]

condition_name-condition_index :
    (name : String) (i : ℕ) → condition_index name ≡ some i → name ≡ condition_name i
condition_name-condition_index name i = step name _ 0 i _ refl (
    step name _ 1 i _ refl (
      step name _ 2 i _ refl (
        step name _ 3 i _ refl
          (step name _ 4 i _ refl (step name _ 5 i none refl (λ e. absurd (ground arith)))))))

IsIndexed-append :
    (i j : ℕ) (cs : List VerticaDbCondition)
    → j ≡ i + length cs
    → IsIndexed i cs
    → IsIndexed i (cs ++ unset_condition j ∷ [])
IsIndexed-append i j [] e h = let same : j ≡ i = omega arith in (ap condition_name same, tt)
IsIndexed-append i j (c ∷ cs) e (k, h) = (k, IsIndexed-append (suc i) j cs (omega arith) h)

extend-IsIndexed :
    (n : ℕ) (cs : List VerticaDbCondition)
    → IsIndexed 0 cs
    → IsIndexed 0 (extend n cs) × (length (extend n cs) ≡ n + length cs)
unfolding extend
extend-IsIndexed zero cs h = (h, omega arith)
extend-IsIndexed (suc n) cs h =
    let (k, e) =
      extend-IsIndexed n (cs ++ unset_condition (length cs) ∷ [])
        (IsIndexed-append 0 (length cs) cs (omega arith) h) in
    (k, omega (arith, e, length-append cs (unset_condition (length cs) ∷ [])))

set-IsIndexed :
    (i : ℕ) (cs : List VerticaDbCondition) (inx : ℕ) (c : VerticaDbCondition)
    → c.type_name ≡ condition_name (i + inx)
    → IsIndexed i cs
    → IsIndexed i (set cs inx c)
set-IsIndexed i [] inx c e h = tt
set-IsIndexed i (d ∷ cs) zero c e (k, h) =
    let same : i + 0 ≡ i = omega arith in (e ∙ ap condition_name same, h)
set-IsIndexed i (d ∷ cs) (suc inx) c e (k, h) =
    let same : i + suc inx ≡ suc i + inx = omega arith in
    (k, set-IsIndexed (suc i) cs inx c (e ∙ ap condition_name same) h)

length-set :
    (cs : List VerticaDbCondition) (inx : ℕ) (c : VerticaDbCondition)
    → length (set cs inx c) ≡ length cs
length-set [] inx c = refl
length-set (d ∷ cs) zero c = refl
length-set (d ∷ cs) (suc inx) c = omega (arith, length-set cs inx c)

get_elem?-set :
    (cs : List VerticaDbCondition) (inx : ℕ) (c : VerticaDbCondition)
    → inx < length cs
    → get_elem? (set cs inx c) inx ≡ some c
get_elem?-set [] inx c h = absurd (omega arith)
get_elem?-set (d ∷ cs) zero c h = refl
get_elem?-set (d ∷ cs) (suc inx) c h = get_elem?-set cs inx c (omega arith)

get_elem?-in_range :
    (cs : List VerticaDbCondition) (inx : ℕ)
    → inx < length cs
    → (c : VerticaDbCondition) × (get_elem? cs inx ≡ some c)
get_elem?-in_range [] inx h = absurd (omega arith)
get_elem?-in_range (d ∷ cs) zero h = (d, refl)
get_elem?-in_range (d ∷ cs) (suc inx) h = get_elem?-in_range cs inx (omega arith)

-- What refreshing the condition `c` at its index does to a well-formed array.
pub record IsRefreshed (c : VerticaDbCondition) (inx : ℕ) (before after : List VerticaDbCondition)
    : Type 0 where
  pub indexed : IsIndexed 0 after
  pub long_enough : inx < length after
  pub keeps_length : length after ≡ (suc inx - length before) + length before
  pub written : VerticaDbCondition
  pub at_index : get_elem? after inx ≡ some written
  pub has_status : written.status ≡ c.status
  pub untouched :
      (old : VerticaDbCondition)
      → get_elem? before inx ≡ some old
      → old.status ≡ c.status
      → written ≡ old
  pub replaced :
      (old : VerticaDbCondition)
      → get_elem? before inx ≡ some old
      → old.status ≢ c.status
      → written ≡ c
  pub kept :
      (j : ℕ) (d : VerticaDbCondition)
      → inx ≢ j
      → get_elem? before j ≡ some d
      → get_elem? after j ≡ some d
  pub filled : (j : ℕ) → length before ≤ j → j < inx → get_elem? after j ≡ some (unset_condition j)

refresh_at :
    (c : VerticaDbCondition) (inx : ℕ) (cs extended : List VerticaDbCondition)
    → c.type_name ≡ condition_name inx
    → IsIndexed 0 extended
    → length extended ≡ (suc inx - length cs) + length cs
    → ((j : ℕ) (d : VerticaDbCondition) → get_elem? cs j ≡ some d → get_elem? extended j ≡ some d)
    → ((j : ℕ)
        → length cs ≤ j
        → j < suc inx - length cs + length cs
        → get_elem? extended j ≡ some (unset_condition j))
    → IsRefreshed c inx cs (write_condition c inx extended (get_elem? extended inx))
refresh_at c inx cs extended e h n old_kept old_filled =
    let (old, is_old) = get_elem?-in_range extended inx (omega arith) in
    let same_index : condition_name inx ≡ condition_name (0 + inx) =
      ap condition_name (the_index inx) in
    elim (Bool-cases (old.status == c.status)) [
      | inl same ↦
          rw (is_old, same)
            (record {
              indexed = h;
              long_enough = omega arith;
              keeps_length = n;
              written = old;
              at_index = is_old;
              has_status = (eq_iff old.status c.status).0 same;
              untouched = λ d is_d s. the_same old d (sym is_old ∙ old_kept inx d is_d);
              replaced = λ d is_d differs. absurd (
                  differs (
                    sym (
                      ap (λ (t : VerticaDbCondition). t.status)
                        (the_same old d (sym is_old ∙ old_kept inx d is_d)))
                    ∙ (eq_iff old.status c.status).0 same));
              kept = λ j d ne is_d. old_kept j d is_d;
              filled = λ j le less. old_filled j le (omega arith);
            })
      | inr differs ↦
          rw (is_old, differs)
            (record {
              indexed = set-IsIndexed 0 extended inx c (e ∙ same_index) h;
              long_enough = omega (arith, length-set extended inx c);
              keeps_length = length-set extended inx c ∙ n;
              written = c;
              at_index = get_elem?-set extended inx c (omega arith);
              has_status = refl;
              untouched = λ d is_d s. absurd (
                  differ_status old (differs) (
                    ap (λ (t : VerticaDbCondition). t.status)
                      (the_same old d (sym is_old ∙ old_kept inx d is_d))
                    ∙ s));
              replaced = λ d is_d ne. refl;
              kept = λ j d ne is_d. get_elem?-set_ne extended inx j c ne ∙ old_kept j d is_d;
              filled = λ j le less.
                  get_elem?-set_ne extended inx j c (λ q. absurd (omega arith))
                  ∙ old_filled j le (omega arith);
            })
    ]
  where
    the_index : (k : ℕ) → k ≡ 0 + k
    the_index k = omega arith

    the_same : (a b : VerticaDbCondition) → some a ≡ some b → a ≡ b
    the_same a b e = ground arith

    differ_status :
        (old : VerticaDbCondition) → old.status == c.status ≡ false → old.status ≢ c.status
    differ_status old e s = ground (arith, eq_iff old.status c.status)

-- A condition of a known type is set without an error, if each condition of the array has the type of
-- its index. Each has after the call, too. The array grows to the index at most, with conditions that
-- are not set below it. At the index stands a condition with the new status: the old one, if there
-- was one with that status, and the new one, if there was one with another. All other conditions are
-- kept at their indices as they were.
pub refresh_condition_in_place-IsRefreshed :
    (c : VerticaDbCondition) (inx : ℕ) (cs : List VerticaDbCondition)
    → condition_index c.type_name ≡ some inx
    → IsIndexed 0 cs
    → (after : List VerticaDbCondition) × (refresh_condition_in_place c cs ≡ some after)
      × IsRefreshed c inx cs after
unfolding refresh_condition_in_place refresh_condition_at
refresh_condition_in_place-IsRefreshed c inx cs known h =
    let extended = extend (suc inx - length cs) cs in
    let (k, n) = extend-IsIndexed (suc inx - length cs) cs h in
    (
      write_condition c inx extended (get_elem? extended inx),
      ap (refresh_condition_at c cs) known,
      refresh_at c inx cs extended (condition_name-condition_index c.type_name inx known) k n
          (extend-kept (suc inx - length cs) cs) (extend-filled (suc inx - length cs) cs),
    )

-- In a well-formed array a condition of a known type reads back as it was set: it is on exactly if
-- its status is "True".
pub refresh_condition_in_place-is_condition_set :
    (v : VerticaDb) (c : VerticaDbCondition) (inx : ℕ)
    → condition_index c.type_name ≡ some inx
    → IsIndexed 0 v.status.conditions
    → (after : List VerticaDbCondition) × (refresh_condition_in_place c v.status.conditions
        ≡ some after)
      × (is_condition_set (set_conditions v after) c.type_name ≡ some (c.status == condition_true))
unfolding is_condition_set is_condition_set_at is_condition_index_set
refresh_condition_in_place-is_condition_set v c inx known h =
    let (after, e, r) = refresh_condition_in_place-IsRefreshed c inx v.status.conditions known h in
    (after, e, rw known (ap some (rw (r.at_index) (ap (λ s. s == condition_true) r.has_status))))
