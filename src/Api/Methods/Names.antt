-- ===== src/Api/Methods/Names.antt =====
-- The names of the subclusters: which of them GenSubclusterMap has, and that they differ.
use text.Mathlib.Text.{◌==◌}
use text.Mathlib.TextEquality.{eq_iff}
use vertica_kubernetes.Prelude.{
  ◌≡◌, ◌≢◌, String, List, [], ◌∷◌, ◌++◌, Bool, false, ◌||◌, arith, All, any, is_some,
}
use vertica_kubernetes.Prelude.Maps.{lookup, insert, lookup-insert}
use vertica_kubernetes.Api.Types.{Subcluster}
use vertica_kubernetes.Api.Methods.{gen_subcluster_map, gen_subcluster_map_from}

abbrev pub has_name : String → List Subcluster → Bool
has_name n scs = any (λ sc. sc.name == n) scs

-- No two subclusters have the same name.
abbrev pub Unique : List Subcluster → Type 0
Unique [] = Unit
Unique (sc ∷ scs) = All (λ other. sc.name ≢ other.name) scs × Unique scs

gen_subcluster_map_from-has_name :
    (m : List (String × Subcluster)) (scs : List Subcluster) (n : String)
    → is_some (lookup n (gen_subcluster_map_from m scs)) ≡ (is_some (lookup n m) || has_name n scs)
unfolding gen_subcluster_map_from
gen_subcluster_map_from-has_name m [] n = ground arith
gen_subcluster_map_from-has_name m (sc ∷ scs) n = ground (
  arith,
  gen_subcluster_map_from-has_name (insert sc.name sc m) scs n,
  lookup-insert sc.name n sc m,
)

-- The map has exactly the names of the subclusters.
pub gen_subcluster_map-has_name :
    (scs : List Subcluster) (n : String)
    → is_some (lookup n (gen_subcluster_map scs)) ≡ has_name n scs
unfolding gen_subcluster_map lookup
gen_subcluster_map-has_name scs n = gen_subcluster_map_from-has_name [] scs n

pub Unique-snoc :
    (scs : List Subcluster) (sc : Subcluster)
    → Unique scs
    → has_name sc.name scs ≡ false
    → Unique (scs ++ sc ∷ [])
Unique-snoc [] sc u h = (tt, tt)
Unique-snoc (x ∷ scs) sc (apart, u) h = (All-snoc scs apart, Unique-snoc scs sc u (ground arith))
  where
    All-snoc :
        (ys : List Subcluster)
        → All (λ other. x.name ≢ other.name) ys
        → All (λ other. x.name ≢ other.name) (ys ++ sc ∷ [])
    All-snoc [] a = (λ e. ground (arith, eq_iff x.name sc.name), tt)
    All-snoc (y ∷ ys) (p, a) = (p, All-snoc ys a)

pub has_name-snoc :
    (n : String) (scs : List Subcluster) (sc : Subcluster)
    → has_name n (scs ++ sc ∷ []) ≡ (has_name n scs || sc.name == n)
has_name-snoc n [] sc = ground arith
has_name-snoc n (x ∷ scs) sc = ground (arith, has_name-snoc n scs sc)
