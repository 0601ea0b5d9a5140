-- ===== src/Version/Laws.antt =====
-- The order of versions, and what an accepted upgrade path means.
use vertica_kubernetes.Prelude.{◌≡◌, ◌↔◌, ◌⊎◌, inl, inr, none, some, true, ◌<◌, ◌≤◌, arith}
use vertica_kubernetes.Version.{
  Components, Info, is_at_least, is_downgrade, is_equal, is_equal_except_patch, check_upgrade_path,
  valid, upgrade_paths, next_version, release,
}

-- The lexicographic order of major, minor and patch numbers.
abbrev pub IsBefore : Components → Components → Type 0
IsBefore a b =
    a.vdb_major < b.vdb_major
    ⊎ (a.vdb_major ≡ b.vdb_major
        × (a.vdb_minor < b.vdb_minor ⊎ (a.vdb_minor ≡ b.vdb_minor × a.vdb_patch < b.vdb_patch)))

-- `is_at_least` is the negation of the lexicographic order.
pub is_at_least-IsBefore : (i v : Components) → is_at_least i v ≡ true ↔ ¬ IsBefore i v
unfolding is_at_least
is_at_least-IsBefore i v = ground arith

pub is_downgrade-IsBefore : (i t : Components) → is_downgrade i t ≡ true ↔ IsBefore t i
unfolding is_downgrade
is_downgrade-IsBefore i t = ground arith

abbrev pub IsSameMinor : Components → Components → Type 0
IsSameMinor a b = a.vdb_major ≡ b.vdb_major × a.vdb_minor ≡ b.vdb_minor

-- From 11.0.0, 11.0.1 and 11.0.2 the next release is 11.1, and from 11.1.0 and 11.1.1 it is 12.0. No
-- other version has a release that must come next.
abbrev pub Follows : Components → Components → Type 0
Follows i t =
    ((i.vdb_major ≡ 11)
      → (i.vdb_minor ≡ 0)
      → (i.vdb_patch ≤ 2)
      → (t.vdb_major ≡ 11) × (t.vdb_minor ≡ 1))
    × ((i.vdb_major ≡ 11)
        → (i.vdb_minor ≡ 1)
        → (i.vdb_patch ≤ 1)
        → (t.vdb_major ≡ 12) × (t.vdb_minor ≡ 0))

-- The table, by its three kinds of rows.
next_version-cases :
    (i : Components)
    → ((i.vdb_major ≡ 11)
        × (i.vdb_minor ≡ 0)
        × (i.vdb_patch ≤ 2)
        × (next_version i upgrade_paths
            ≡ some (record { vdb_ver = "v11.1.x"; components = release 11 1 0 })))
      ⊎ ((i.vdb_major ≡ 11)
          × (i.vdb_minor ≡ 1)
          × (i.vdb_patch ≤ 1)
          × (next_version i upgrade_paths
              ≡ some (record { vdb_ver = "v12.0.x"; components = release 12 0 0 })))
      ⊎ (¬ ((i.vdb_major ≡ 11) × (i.vdb_minor ≡ 0) × (i.vdb_patch ≤ 2))
          × (¬ ((i.vdb_major ≡ 11) × (i.vdb_minor ≡ 1) × (i.vdb_patch ≤ 1)))
          × (next_version i upgrade_paths ≡ none))
unfolding next_version is_equal is_equal_except_patch
next_version-cases i = ground arith

-- A path is valid exactly if the target is not an older version, and it stays with the major
-- and minor number or goes to those of the next release. The next release of 11.0.0 to 11.0.2 is
-- 11.1, that of 11.1.0 and 11.1.1 is 12.0. From any other version, a later patch release of 11.0 or
-- 11.1 included, every target that is not older is valid.
pub check_upgrade_path-valid :
    (i t : Info)
    → check_upgrade_path i t ≡ valid ↔ (
        (¬ IsBefore t.components i.components)
        × (IsSameMinor i.components t.components ⊎ Follows i.components t.components))
unfolding check_upgrade_path is_equal is_downgrade is_equal_except_patch
check_upgrade_path-valid i t = elim (next_version-cases i.components) [
  | inl (a, b, c, e) ↦ rw e (ground arith)
  | inr (inl (a, b, c, e)) ↦ rw e (ground arith)
  | inr (inr (one, two, e)) ↦ rw e (ground arith)
]
