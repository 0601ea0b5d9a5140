-- ===== src/Api/Webhook/Immutable/Subclusters.antt =====
-- The names and types of the subclusters over an update.
use text.Mathlib.Text.{◌==◌}
use vertica_kubernetes.Prelude.{
  ◌≡◌, refl, ◌↔◌, ◌⊎◌, String, List, [], ◌∷◌, Option, none, some, Bool, true, false, not, ◌&&◌,
  ◌||◌, arith, All, any, if◌then◌else◌, is_some,
}
use vertica_kubernetes.Prelude.Int.{pos, ltb_ℤ}
use vertica_kubernetes.Prelude.Maps.{insert, lookup, lookup-insert}
use vertica_kubernetes.Api.Types.{Subcluster, SubclusterStatus, VerticaDb}
use vertica_kubernetes.Api.Webhook.Cluster.{is_empty}
use vertica_kubernetes.Api.Webhook.Immutable.{
  added_to_db, can_update_sc_name, name_to_primary_map, has_other_type, first_changed,
}

-- An old subcluster of that name has a node in the database, by the status at its index.
abbrev pub was_added : String → List Subcluster → List SubclusterStatus → Bool
was_added n [] ss = false
was_added n (sc ∷ scs) [] = false
was_added n (sc ∷ scs) (s ∷ ss) =
    sc.name == n && ltb_ℤ (pos 0) s.added_to_db_count || was_added n scs ss

abbrev pub none_was_added : List Subcluster → List SubclusterStatus → Bool
none_was_added [] ss = true
none_was_added (sc ∷ scs) [] = true
none_was_added (sc ∷ scs) (s ∷ ss) =
    not (ltb_ℤ (pos 0) s.added_to_db_count) && none_was_added scs ss

added_to_db-was_added :
    (scs : List Subcluster) (ss : List SubclusterStatus) (m : List (String × Subcluster))
    (n : String)
    → is_some (lookup n (added_to_db m scs ss)) ≡ (is_some (lookup n m) || was_added n scs ss)
unfolding added_to_db
added_to_db-was_added [] ss m n = ground arith
added_to_db-was_added (sc ∷ scs) [] m n = ground arith
added_to_db-was_added (sc ∷ scs) (s ∷ ss) m n = ground (
  arith,
  added_to_db-was_added scs ss m n,
  added_to_db-was_added scs ss (insert sc.name sc m) n,
  lookup-insert sc.name n sc m,
)

is_empty-insert :
    (k : String) (sc : Subcluster) (m : List (String × Subcluster))
    → is_empty (insert k sc m) ≡ false
unfolding insert
is_empty-insert k sc [] = refl
is_empty-insert k sc ((j, w) ∷ m) = ground arith

added_to_db-none :
    (scs : List Subcluster) (ss : List SubclusterStatus) (m : List (String × Subcluster))
    → is_empty (added_to_db m scs ss) ≡ (is_empty m && none_was_added scs ss)
unfolding added_to_db
added_to_db-none [] ss m = ground arith
added_to_db-none (sc ∷ scs) [] m = ground arith
added_to_db-none (sc ∷ scs) (s ∷ ss) m = ground (
  arith,
  added_to_db-none scs ss m,
  added_to_db-none scs ss (insert sc.name sc m),
  is_empty-insert sc.name sc m,
)

-- Some new subcluster keeps a name that is in the database, unless none is.
abbrev pub KeepsName : VerticaDb → VerticaDb → Type 0
KeepsName v old_obj =
    let scs = old_obj.spec.subclusters in
    let ss = old_obj.status.subclusters in
    (none_was_added scs ss ≡ true)
    ⊎ (any (λ sc. was_added sc.name scs ss) v.spec.subclusters ≡ true)

any-eq :
    (f g : Subcluster → Bool)
    → ((sc : Subcluster) → f sc ≡ g sc)
    → (scs : List Subcluster) → any f scs ≡ any g scs
any-eq f g h [] = refl
any-eq f g h (sc ∷ scs) = ground (arith, h sc, any-eq f g h scs)

-- The subclusters may get their new names exactly if one of them has the name of an old subcluster
-- with a node in the database, by the status at its index, or no old subcluster has one.
pub can_update_sc_name_iff :
    (v old_obj : VerticaDb) → can_update_sc_name v old_obj ≡ true ↔ KeepsName v old_obj
unfolding can_update_sc_name lookup
can_update_sc_name_iff v old_obj =
    let scs = old_obj.spec.subclusters in
    let ss = old_obj.status.subclusters in
    ground (
      arith,
      added_to_db-none scs ss [],
      any-eq (λ sc. is_some (lookup sc.name (added_to_db [] scs ss)))
          (λ sc. was_added sc.name scs ss) (λ sc. added_to_db-was_added scs ss [] sc.name)
          v.spec.subclusters,
    )

-- The type of the last subcluster of a name.
abbrev pub type_of : String → List Subcluster → Option Bool
type_of n [] = none
type_of n (sc ∷ scs) =
    let later = type_of n scs in
    if is_some later then later else if sc.name == n then some sc.is_primary else none

name_to_primary_map-type_of :
    (scs : List Subcluster) (m : List (String × Bool)) (n : String)
    → lookup n (name_to_primary_map m scs)
      ≡ (if is_some (type_of n scs) then type_of n scs else lookup n m)
unfolding name_to_primary_map
name_to_primary_map-type_of [] m n = refl
name_to_primary_map-type_of (sc ∷ scs) m n = ground (
  arith,
  name_to_primary_map-type_of scs (insert sc.name sc.is_primary m) n,
  lookup-insert sc.name n sc.is_primary m,
)

-- A subcluster that was there has the type that it had.
abbrev pub KeepsType : List Subcluster → Subcluster → Type 0
KeepsType old_scs sc = has_other_type (type_of sc.name old_scs) sc.is_primary ≡ false

pub first_changed_iff :
    (old_scs scs : List Subcluster)
    → first_changed (name_to_primary_map [] old_scs) scs ≡ none ↔ All (KeepsType old_scs) scs
unfolding first_changed lookup
first_changed_iff old_scs [] = ground arith
first_changed_iff old_scs (sc ∷ scs) =
    ground (arith, name_to_primary_map-type_of old_scs [] sc.name, first_changed_iff old_scs scs)
