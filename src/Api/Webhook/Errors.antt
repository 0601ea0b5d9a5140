-- ===== src/Api/Webhook/Errors.antt =====
-- Lists of field errors, the idiom by which each check appends to one, and when a check is silent.
use vertica_kubernetes.Prelude.{
  ℕ, suc, ◌≡◌, refl, ◌↔◌, ◌⊎◌, inl, inr, String, List, [], ◌∷◌, ◌++◌, Bool, true, false, arith, All,
  if◌then◌else◌,
}

-- field.Path
pub data PathElement : Type 0 where
  child : String → PathElement
  index : ℕ → PathElement

-- field.Invalid(path, value, detail); the value, which is only printed, is left out.
pub record FieldError : Type 0 where
  pub path : List PathElement
  pub detail : String

abbrev pub ErrorList : Type 0
ErrorList = List FieldError

abbrev pub invalid : List PathElement → String → FieldError
invalid path detail = record { path = child "spec" ∷ path; detail = detail }

-- if bad { err := …; allErrs = append(allErrs, err) }
abbrev pub report : Bool → FieldError → ErrorList → ErrorList
report bad err all_errs = if bad then all_errs ++ err ∷ [] else all_errs

module _ {A : Type 0} where
  -- A loop over the elements from index `i` on.
  unfoldable pub each : (ℕ → A → ErrorList → ErrorList) → ℕ → List A → ErrorList → ErrorList
  each body i [] all_errs = all_errs
  each body i (x ∷ xs) all_errs = each body (suc i) xs (body i x all_errs)

  -- A loop over the pairs of an element and a later one.
  unfoldable pub pairs :
      (ℕ → A → ℕ → A → ErrorList → ErrorList) → ℕ → List A → ErrorList → ErrorList
  unfolding each
  pairs body i [] all_errs = all_errs
  pairs body i (x ∷ xs) all_errs = pairs body (suc i) xs (each (body i x) (suc i) xs all_errs)

  abbrev pub AllPairs : (A → A → Type 0) → List A → Type 0
  AllPairs R [] = Unit
  AllPairs R (x ∷ xs) = All (R x) xs × AllPairs R xs

-- The check `f` adds no error exactly where `P` holds.
abbrev pub Checks : (ErrorList → ErrorList) → Type 0 → Type 0
Checks f P = (all_errs : ErrorList) → (f all_errs ≡ []) ↔ ((all_errs ≡ []) × P)

pub report-Checks :
    (bad : Bool) (err : FieldError) (P : Type 0) → (bad ≡ false) ↔ P → Checks (report bad err) P
report-Checks true err P h [] = (λ e. absurd (ground arith), λ p. absurd (true_false (h.1 p.1)))
  where
    true_false : true ≡ false → ⊥
    true_false e = cc
report-Checks true err P h (x ∷ xs) = (λ e. cc, λ p. absurd (ground (arith, p.0)))
report-Checks false err P h all_errs = (λ e. (e, h.0 refl), λ p. p.0)

pub id-Checks : Checks (λ all_errs. all_errs) Unit
id-Checks all_errs = (λ e. (e, tt), λ p. p.0)

pub then-Checks :
    (f g : ErrorList → ErrorList) (P Q : Type 0)
    → Checks f P
    → Checks g Q
    → Checks (λ all_errs. g (f all_errs)) (P × Q)
then-Checks f g P Q hf hg all_errs = (
  λ e. let (e', q) = (hg (f all_errs)).0 e in let (e'', p) = (hf all_errs).0 e' in (e'', (p, q)),
  λ (e, pq). (hg (f all_errs)).1 ((hf all_errs).1 (e, pq.0), pq.1),
)

pub iff-Checks : (f : ErrorList → ErrorList) (P Q : Type 0) → Checks f P → P ↔ Q → Checks f Q
iff-Checks f P Q h i all_errs =
    (λ e. let (e', p) = (h all_errs).0 e in (e', i.0 p), λ (e, q). (h all_errs).1 (e, i.1 q))

-- An early return, or a check that is made under a condition.
pub skip-Checks :
    (skip : Bool) (f : ErrorList → ErrorList) (P : Type 0)
    → Checks f P
    → Checks (λ all_errs. if skip then all_errs else f all_errs) ((skip ≡ true) ⊎ P)
skip-Checks true f P h all_errs = (λ e. (e, inl refl), λ p. p.0)
skip-Checks false f P h all_errs = (
  λ e. let (e', p) = (h all_errs).0 e in (e', inr p),
  λ (e, c). elim c [ inl b ↦ absurd (ground arith) | inr p ↦ (h all_errs).1 (e, p) ],
)

pub when-Checks :
    (when : Bool) (f : ErrorList → ErrorList) (P : Type 0)
    → Checks f P
    → Checks (λ all_errs. if when then f all_errs else all_errs) ((when ≡ false) ⊎ P)
when-Checks false f P h all_errs = (λ e. (e, inl refl), λ p. p.0)
when-Checks true f P h all_errs = (
  λ e. let (e', p) = (h all_errs).0 e in (e', inr p),
  λ (e, c). elim c [ inl b ↦ absurd (ground arith) | inr p ↦ (h all_errs).1 (e, p) ],
)

-- Two checks of which a test selects one.
pub if-Checks :
    (test : Bool) (f g : ErrorList → ErrorList) (P Q : Type 0)
    → Checks f P
    → Checks g Q
    → Checks
        (λ all_errs. if test then f all_errs else g all_errs)
        (((test ≡ true) × P) ⊎ ((test ≡ false) × Q))
if-Checks true f g P Q hf hg all_errs = (
  λ e. let (e', p) = (hf all_errs).0 e in (e', inl (refl, p)),
  λ (e, c). elim c [ inl p ↦ (hf all_errs).1 (e, p.1) | inr q ↦ absurd (ground arith) ],
)
if-Checks false f g P Q hf hg all_errs = (
  λ e. let (e', q) = (hg all_errs).0 e in (e', inr (refl, q)),
  λ (e, c). elim c [ inl p ↦ absurd (ground arith) | inr q ↦ (hg all_errs).1 (e, q.1) ],
)

module _ {A : Type 0} where
  pub each-Checks :
      (body : ℕ → A → ErrorList → ErrorList) (P : A → Type 0)
      → ((i : ℕ) (x : A) → Checks (body i x) (P x))
      → (i : ℕ) (xs : List A) → Checks (each body i xs) (All P xs)
  unfolding each
  each-Checks body P h i [] = id-Checks
  each-Checks body P h i (x ∷ xs) =
      then-Checks (body i x) (each body (suc i) xs) (P x) (All P xs) (h i x)
        (each-Checks body P h (suc i) xs)

  pub pairs-Checks :
      (body : ℕ → A → ℕ → A → ErrorList → ErrorList) (R : A → A → Type 0)
      → ((i : ℕ) (x : A) (j : ℕ) (y : A) → Checks (body i x j y) (R x y))
      → (i : ℕ) (xs : List A) → Checks (pairs body i xs) (AllPairs R xs)
  unfolding pairs
  pairs-Checks body R h i [] = id-Checks
  pairs-Checks body R h i (x ∷ xs) =
      then-Checks (each (body i x) (suc i) xs) (pairs body (suc i) xs) (All (R x) xs)
        (AllPairs R xs) (each-Checks (body i x) (R x) (h i x) (suc i) xs)
        (pairs-Checks body R h (suc i) xs)
