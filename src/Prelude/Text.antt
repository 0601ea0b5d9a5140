-- ===== src/Prelude/Text.antt =====
-- Texts: the code points of a text, Go's tests on strings, and `%d`.
use Prim.Native.Nat.{◌≤◌, ℕ, zero, suc, ◌+◌, ◌-◌, ◌*◌, ◌/◌, ◌%◌, ◌<◌}
use Prim.Native.Char.{Char, code}
use Prim.Native.String.{String, ◌++◌ as append}
use mathlib.Core.Path.{◌≡◌, refl, sym, ap, ◌∙◌}
use mathlib.Core.Bool.{Bool, false, true≢false, ◌||◌}
use mathlib.Core.Logic.{inl, inr}
use mathlib.Core.List.{List, [], ◌∷◌}
use native.Mathlib.Omega.{arith}
use text.Mathlib.Text.{◌==◌, starts_with}
use text.Mathlib.TextLemmas.{nil-append, cons-append}
use text.Mathlib.TextEquality.{eq_iff}
use vertica_kubernetes.Prelude.Lists.{length, All}
use mathlib.Core.List.{◌++◌}
use vertica_kubernetes.Prelude.Tests.{ltb, ◌==◌ as nat_eq, if◌then◌else◌, Bool-cases}

abbrev pub codes : String → List ℕ
codes String.[] = []
codes (String.◌∷◌ c s) = code c ∷ codes s

-- The characters of the digits, and the one at a place.
abbrev digit_chars : List Char
digit_chars = "0" ∷ "1" ∷ "2" ∷ "3" ∷ "4" ∷ "5" ∷ "6" ∷ "7" ∷ "8" ∷ "9" ∷ []

abbrev char_at : List Char → ℕ → Char
char_at [] i = "?"
char_at (c ∷ cs) zero = c
char_at (c ∷ cs) (suc i) = char_at cs i

abbrev digit : ℕ → String → String
digit d s = String.◌∷◌ (char_at digit_chars d) s

-- The digits of `n` in front of `s`; each round divides by ten, so `n + 1` rounds suffice.
digits : ℕ → ℕ → String → String
digits zero n s = s
digits (suc f) n s =
    let more = digits f (n / 10) (digit (n % 10) s) in if ltb n 10 then digit n s else more

-- `fmt.Sprintf("%d", n)` of a number that is not negative.
unfoldable pub itoa : ℕ → String
unfolding digits
itoa n = digits (suc n) n ""

-- The number that a row of digits stands for, behind the digits of `a`.
abbrev pub value : ℕ → List ℕ → ℕ
value a [] = a
value a (c ∷ s) = value (a * 10 + (c - 48)) s

abbrev value_of : ℕ → String → ℕ
value_of a s = value a (codes s)

-- The characters have the codes from `k` on, one after the other.
abbrev Consecutive : ℕ → List Char → Type 0
Consecutive k [] = Unit
Consecutive k (c ∷ cs) = (code c ≡ k) × Consecutive (suc k) cs

code-char_at :
    (k : ℕ) (cs : List Char) (i : ℕ)
    → Consecutive k cs
    → i < length cs
    → code (char_at cs i) ≡ k + i
code-char_at k [] i h lt = absurd (omega arith)
code-char_at k (c ∷ cs) zero (e, h) lt = omega (arith, e)
code-char_at k (c ∷ cs) (suc i) (e, h) lt = omega (arith, code-char_at (suc k) cs i h (omega arith))

digit_chars-Consecutive : Consecutive 48 digit_chars
digit_chars-Consecutive =
    (refl, (refl, (refl, (refl, (refl, (refl, (refl, (refl, (refl, (refl, tt))))))))))

value_of-digit : (a d : ℕ) (s : String) → d < 10 → value_of a (digit d s) ≡ value_of (a * 10 + d) s
value_of-digit a d s h =
    ap (λ (k : ℕ). value k (codes s))
      (omega (arith, code-char_at 48 digit_chars d digit_chars-Consecutive h))

value_of-digits : (f n : ℕ) (s : String) → n < f → value_of 0 (digits f n s) ≡ value_of n s
unfolding digits
value_of-digits zero n s h = absurd (omega arith)
value_of-digits (suc f) n s h = elim (Bool-cases (ltb n 10)) [
  | inl small ↦
      rw small (value_of-digit 0 n s (ground arith) ∙ ap (λ (k : ℕ). value_of k s) (omega arith))
  | inr large ↦ rw large (
      value_of-digits f (n / 10) (digit (n % 10) s) (ground arith)
      ∙ value_of-digit (n / 10) (n % 10) s (omega arith)
      ∙ ap (λ (k : ℕ). value_of k s) (omega arith))
]

pub itoa-injective : (m n : ℕ) → itoa m ≡ itoa n → m ≡ n
unfolding itoa
itoa-injective m n h =
    sym (value_of-digits (suc m) m "" (omega arith))
    ∙ ap (value_of 0) h
    ∙ value_of-digits (suc n) n "" (omega arith)

-- `[0-9]`
abbrev pub IsDigit : ℕ → Type 0
IsDigit c = (48 ≤ c) × (c ≤ 57)

char_at-IsDigit : (d : ℕ) → d < 10 → IsDigit (code (char_at digit_chars d))
char_at-IsDigit d lt =
    let e = code-char_at 48 digit_chars d digit_chars-Consecutive lt in
    (omega (arith, e), omega (arith, e))

digits-IsDigit :
    (f n : ℕ) (s : String)
    → n < f
    → All IsDigit (codes s)
    → All IsDigit (codes (digits f n s)) × (length (codes s) < length (codes (digits f n s)))
unfolding digits
digits-IsDigit zero n s lt h = absurd (omega arith)
digits-IsDigit (suc f) n s lt h = elim (Bool-cases (ltb n 10)) [
  | inl small ↦ rw small ((char_at-IsDigit n (ground arith), h), omega arith)
  | inr large ↦
      let (a, l) =
        digits-IsDigit f (n / 10) (digit (n % 10) s) (ground arith)
          (char_at-IsDigit (n % 10) (omega arith), h) in
      rw large (a, omega (arith, l))
]

-- The numeral of a number has at least one digit, only digits, and the number as its value.
pub itoa-IsDigit :
    (n : ℕ)
    → All IsDigit (codes (itoa n)) × (0 < length (codes (itoa n))) × (value 0 (codes (itoa n)) ≡ n)
unfolding itoa
itoa-IsDigit n =
    let (a, l) = digits-IsDigit (suc n) n "" (omega arith) tt in
    (a, l, value_of-digits (suc n) n "" (omega arith))

pub codes-append : (s t : String) → codes (append s t) ≡ codes s ++ codes t
codes-append String.[] t = ap codes (nil-append t)
codes-append (String.◌∷◌ c s) t =
    ap codes (cons-append c s t) ∙ ap (λ l. code c ∷ l) (codes-append s t)

-- Equality of texts is decided.
unfoldable pub String-discrete : Discrete String
String-discrete s t = elim (Bool-cases (s == t)) [
  | inl same ↦ yes ((eq_iff s t).0 same)
  | inr other ↦ no (λ e. true≢false (sym ((eq_iff s t).1 e) ∙ other))
]

-- `strings.HasPrefix`
abbrev pub has_prefix : String → String → Bool
has_prefix = starts_with

-- `strings.HasSuffix`
abbrev pub has_suffix : String → String → Bool
has_suffix String.[] t = String.[] == t
has_suffix (String.◌∷◌ c s) t = let rest = has_suffix s t in (String.◌∷◌ c s) == t || rest

-- `strings.Contains(s, string(c))`
abbrev pub contains_code : ℕ → List ℕ → Bool
contains_code c [] = false
contains_code c (d ∷ s) = nat_eq d c || contains_code c s
