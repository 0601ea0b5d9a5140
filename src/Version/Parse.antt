-- ===== src/Version/Parse.antt =====
-- The parser of versions reads back what is printed.
use Prim.Native.String.{◌++◌ as append}
use mathlib.Core.List.{append-nil}
use vertica_kubernetes.Prelude.{
  ℕ, ◌+◌, ◌-◌, ◌*◌, ◌<◌, ◌^◌, ◌≡◌, refl, sym, ◌∙◌, ap, ◌⊎◌, inl, inr, String, List, [], ◌∷◌, ◌++◌,
  some, Bool, true, false, arith, All, length, leb, ◌&&◌, Bool-cases,
}
use vertica_kubernetes.Prelude.Text.{codes, itoa, IsDigit, itoa-IsDigit, value, codes-append}
use vertica_kubernetes.Version.{
  Components, take_digits, match_version, find_version, if_in_range, parse_version, or_later,
}

-- A text that does not go on with a digit.
abbrev Stops : List ℕ → Type 0
Stops [] = Unit
Stops (c ∷ cs) = (c < 48) ⊎ (57 < c)

take_digits-append :
    (ds : List ℕ) (seen : Bool) (n : ℕ) (rest : List ℕ)
    → All IsDigit ds
    → (seen ≡ true) ⊎ (0 < length ds)
    → Stops rest
    → take_digits seen n (ds ++ rest) ≡ some (value n ds, rest)
unfolding take_digits
take_digits-append [] seen n [] h s stop = ground arith
take_digits-append [] seen n (c ∷ rest) h s stop = ground arith
take_digits-append (d ∷ ds) seen n rest ((lo, hi), h) s stop =
    let more = take_digits-append ds true (n * 10 + (d - 48)) rest h (inl refl) stop in
    elim (Bool-cases (leb 48 d && leb d 57)) [
      | inl digit ↦ rw digit more
      | inr other ↦ absurd (ground arith)
    ]

take_digits-itoa :
    (n : ℕ) (rest : List ℕ)
    → Stops rest
    → take_digits false 0 (codes (itoa n) ++ rest) ≡ some (n, rest)
take_digits-itoa n rest stop =
    let (h, l, v) = itoa-IsDigit n in
    take_digits-append (codes (itoa n)) false 0 rest h (inr l) stop
    ∙ ap (λ (k : ℕ). some (k, rest)) v

-- `v%d.%d.%d`
abbrev pub print_version : Components → String
print_version c = append "v" (
    append (itoa c.vdb_major)
      (append "." (append (itoa c.vdb_minor) (append "." (itoa c.vdb_patch)))))

-- What is behind the letter.
abbrev rest : Components → List ℕ
rest c =
    codes (itoa c.vdb_major)
    ++ b'.' ∷ (codes (itoa c.vdb_minor) ++ b'.' ∷ (codes (itoa c.vdb_patch) ++ []))

codes-print_version : (c : Components) → codes (print_version c) ≡ b'v' ∷ rest c
codes-print_version c =
    let a = itoa c.vdb_major in
    let b = itoa c.vdb_minor in
    let d = itoa c.vdb_patch in
    codes-append "v" (append a (append "." (append b (append "." d))))
    ∙ ap (λ l. b'v' ∷ l)
        (codes-append a (append "." (append b (append "." d)))
          ∙ ap (λ l. codes a ++ l)
              (codes-append "." (append b (append "." d))
                ∙ ap (λ l. b'.' ∷ l)
                    (codes-append b (append "." d)
                      ∙ ap (λ l. codes b ++ l)
                          (codes-append "." d ∙ ap (λ l. b'.' ∷ l) (sym (append-nil (codes d)))))))

match_version-print : (c : Components) → match_version (b'v' ∷ rest c) ≡ some c
unfolding match_version
match_version-print c =
    let a = codes (itoa c.vdb_major) in
    let b = codes (itoa c.vdb_minor) in
    let d = codes (itoa c.vdb_patch) in
    rw (take_digits-itoa c.vdb_major (b'.' ∷ (b ++ b'.' ∷ (d ++ []))) (inl (omega arith))) (
      rw (take_digits-itoa c.vdb_minor (b'.' ∷ (d ++ [])) (inl (omega arith)))
        (rw (take_digits-itoa c.vdb_patch [] tt) refl))

find_version-match :
    (x : ℕ) (xs : List ℕ) (c : Components)
    → match_version (x ∷ xs) ≡ some c
    → find_version (x ∷ xs) ≡ some c
unfolding find_version
find_version-match x xs c e = ap (λ o. or_later o (find_version xs)) e

if_in_range-some :
    (c : Components)
    → c.vdb_major < 2 ^ 63
    → c.vdb_minor < 2 ^ 63
    → c.vdb_patch < 2 ^ 63
    → if_in_range (some c) ≡ some c
if_in_range-some c major minor patch = ground arith

-- A version that is printed as v11.0.2 is, with numbers below 2 ^ 63, is read back as it was.
pub parse_version-print_version :
    (c : Components)
    → c.vdb_major < 2 ^ 63
    → c.vdb_minor < 2 ^ 63
    → c.vdb_patch < 2 ^ 63
    → parse_version (print_version c) ≡ some c
unfolding parse_version
parse_version-print_version c major minor patch =
    ap (λ l. if_in_range (find_version l)) (codes-print_version c)
    ∙ ap if_in_range (find_version-match b'v' (rest c) c (match_version-print c))
    ∙ if_in_range-some c major minor patch
