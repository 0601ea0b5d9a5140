-- ===== src/Prelude/Maps.antt =====
-- Go's `map[string]V` as an association list.
use Prim.Native.Nat.{◌<◌, ◌≤◌}
use Prim.Native.String.{String}
use mathlib.Core.Path.{◌≡◌, refl}
use mathlib.Core.Logic.{◌≢◌}
use mathlib.Core.Bool.{true}
use mathlib.Core.Option.{Option, none, some}
use mathlib.Core.List.{List, [], ◌∷◌}
use native.Mathlib.Omega.{arith}
use text.Mathlib.Text.{◌==◌}
use text.Mathlib.TextEquality.{eq_iff}
use vertica_kubernetes.Prelude.Tests.{if◌then◌else◌, is_some}
use vertica_kubernetes.Prelude.Lists.{length}

module _ {ℓ} {Val : Type ℓ} where
  unfoldable pub lookup : String → List (String × Val) → Option Val
  lookup name [] = none
  lookup name ((key, val) ∷ entries) = if key == name then some val else lookup name entries

  unfoldable pub insert : String → Val → List (String × Val) → List (String × Val)
  insert name val [] = (name, val) ∷ []
  insert name val ((key, old) ∷ entries) =
      if key == name then (name, val) ∷ entries else (key, old) ∷ insert name val entries

  pub lookup-insert :
      (name key : String) (val : Val) (entries : List (String × Val))
      → lookup key (insert name val entries)
        ≡ (if name == key then some val else lookup key entries)
  unfolding lookup insert
  lookup-insert name key val [] = refl
  lookup-insert name key val ((first, old) ∷ entries) = ground (
    arith,
    eq_iff name key,
    eq_iff first name,
    eq_iff first key,
    lookup-insert name key val entries,
  )

  -- All entries of a key taken out.
  unfoldable pub remove : String → List (String × Val) → List (String × Val)
  remove name [] = []
  remove name ((key, val) ∷ entries) =
      let rest = remove name entries in if key == name then rest else (key, val) ∷ rest

  pub lookup-remove_ne :
      (name key : String) (entries : List (String × Val))
      → name ≢ key
      → lookup key (remove name entries) ≡ lookup key entries
  unfolding lookup remove
  lookup-remove_ne name key [] h = refl
  lookup-remove_ne name key ((first, old) ∷ entries) h =
      ground (arith, eq_iff first name, eq_iff first key, lookup-remove_ne name key entries h)

  pub length-remove-le :
      (name : String) (entries : List (String × Val))
      → length (remove name entries) ≤ length entries
  unfolding remove
  length-remove-le name [] = omega arith
  length-remove-le name ((first, old) ∷ entries) = ground (arith, length-remove-le name entries)

  pub length-remove-lt :
      (name : String) (entries : List (String × Val))
      → is_some (lookup name entries) ≡ true
      → length (remove name entries) < length entries
  unfolding lookup remove
  length-remove-lt name [] h = absurd (ground arith)
  length-remove-lt name ((first, old) ∷ entries) h =
      ground (arith, length-remove-le name entries, length-remove-lt name entries)
