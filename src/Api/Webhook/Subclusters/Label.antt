-- ===== src/Api/Webhook/Subclusters/Label.antt =====
-- The pattern of a subcluster's name, read as the rule for a DNS label.
use vertica_kubernetes.Prelude.{
  ℕ, zero, suc, ◌+◌, ◌≡◌, ◌↔◌, String, List, [], ◌∷◌, Option, none, some, true, ◌≤◌, arith, All,
  length, last?,
}
use vertica_kubernetes.Prelude.Text.{codes}
use vertica_kubernetes.Api.Webhook.Subclusters.{
  is_alnum, is_label_char, matches_rest, matches_name, is_valid_subcluster_name,
}

-- A character of the right kind stands at an end.
abbrev pub IsAlnum : Option ℕ → Type 0
IsAlnum none = ⊥
IsAlnum (some c) = is_alnum c ≡ true

abbrev pub first? : List ℕ → Option ℕ
first? [] = none
first? (c ∷ cs) = some c

-- From 1 to 63 characters, all of them lower case letters, digits and dashes, the ends no dashes.
abbrev pub IsLabel : List ℕ → Type 0
IsLabel cs =
    (1 ≤ length cs)
    × (length cs ≤ 63)
    × All (λ c. is_label_char c ≡ true) cs
    × IsAlnum (first? cs)
    × IsAlnum (last? cs)

matches_rest_iff :
    (n : ℕ) (cs : List ℕ)
    → matches_rest n cs ≡ true
      ↔ ((length cs ≤ n + 1) × All (λ c. is_label_char c ≡ true) cs × IsAlnum (last? cs))
unfolding matches_rest
matches_rest_iff n [] = ground arith
matches_rest_iff n (c ∷ []) = ground arith
matches_rest_iff zero (c ∷ d ∷ cs) = ground arith
matches_rest_iff (suc n) (c ∷ d ∷ cs) = ground (arith, matches_rest_iff n (d ∷ cs))

matches_name-IsLabel : (cs : List ℕ) → matches_name cs ≡ true ↔ IsLabel cs
unfolding matches_name
matches_name-IsLabel [] = ground arith
matches_name-IsLabel (c ∷ []) = ground arith
matches_name-IsLabel (c ∷ d ∷ cs) = ground (arith, matches_rest_iff 61 (d ∷ cs))

-- A subcluster name is accepted exactly if it is a DNS label: from 1 to 63 characters, all of them
-- lower case letters, digits and dashes, of which neither the first nor the last is a dash.
pub is_valid_subcluster_name-IsLabel :
    (sc_name : String) → is_valid_subcluster_name sc_name ≡ true ↔ IsLabel (codes sc_name)
unfolding is_valid_subcluster_name
is_valid_subcluster_name-IsLabel sc_name = matches_name-IsLabel (codes sc_name)
