-- ===== src/Version.antt =====
-- pkg/version/version.go: the versions of Vertica, their order and the upgrades that are allowed.
pub mod Laws
pub mod Parse
use vertica_kubernetes.Prelude.{
  ℕ, zero, suc, ◌+◌, ◌-◌, ◌*◌, String, List, [], ◌∷◌, Option, none, some, Bool, true, false, not,
  ◌&&◌, ◌||◌, ltb, leb, ◌==◌, if◌then◌else◌, ◌^◌, ◌>>=◌,
}
use vertica_kubernetes.Prelude.Text.{codes}
use vertica_kubernetes.Api.Types.{VerticaDb}
use vertica_kubernetes.Api.Paths.{get_vertica_version}

-- The numbers are `int`s that were read from digits.
pub record Components : Type 0 where
  pub vdb_major : ℕ
  pub vdb_minor : ℕ
  pub vdb_patch : ℕ

pub record Info : Type 0 where
  pub vdb_ver : String
  pub components : Components

-- `\d+` and the number it spells: the digits from the front, with `seen` if there was one already.
unfoldable pub take_digits : Bool → ℕ → List ℕ → Option (ℕ × List ℕ)
take_digits seen n [] = if seen then some (n, []) else none
take_digits seen n (c ∷ cs) =
    let more = take_digits true (n * 10 + (c - b'0')) cs in
    if leb b'0' c && leb c b'9' then more else if seen then some (n, c ∷ cs) else none

-- A literal character of the pattern.
abbrev pub take_char : ℕ → List ℕ → Option (List ℕ)
take_char a [] = none
take_char a (c ∷ cs) = if c == a then some cs else none

-- `v(\d+)\.(\d+)\.(\d+)` at the front.
unfoldable pub match_version : List ℕ → Option Components
unfolding take_digits
match_version cs = do
  c1 ← take_char b'v' cs
  (major, c2) ← take_digits false 0 c1
  c3 ← take_char b'.' c2
  (minor, c4) ← take_digits false 0 c3
  c5 ← take_char b'.' c4
  (patch, c6) ← take_digits false 0 c5
  some (record { vdb_major = major; vdb_minor = minor; vdb_patch = patch })

abbrev pub or_later : Option Components → Option Components → Option Components
or_later (some m) later = some m
or_later none later = later

-- The leftmost match.
unfoldable pub find_version : List ℕ → Option Components
find_version [] = none
find_version (c ∷ cs) = or_later (match_version (c ∷ cs)) (find_version cs)

-- strconv.Atoi fails beyond the int of 64 bits.
abbrev pub in_range : ℕ → Bool
in_range n = ltb n (2 ^ 63)

abbrev pub if_in_range : Option Components → Option Components
if_in_range none = none
if_in_range (some m) =
    if in_range m.vdb_major && in_range m.vdb_minor && in_range m.vdb_patch then some m else none

unfoldable pub parse_version : String → Option Components
unfolding find_version
parse_version v = if_in_range (find_version (codes v))

unfoldable pub make_info_from_str : String → Option Info
unfolding parse_version
make_info_from_str ver = do c ← parse_version ver; some (record { vdb_ver = ver; components = c })

-- `none` also where the annotation is not there.
unfoldable pub make_info_from_vdb : VerticaDb → Option Info
unfolding make_info_from_str get_vertica_version
make_info_from_vdb vdb = do vdb_ver ← get_vertica_version vdb; make_info_from_str vdb_ver

-- The `switch` of IsEqualOrNewer.
unfoldable pub is_at_least : Components → Components → Bool
is_at_least i v =
    if ltb v.vdb_major i.vdb_major
    then true
    else if ltb i.vdb_major v.vdb_major
    then false
    else if ltb v.vdb_minor i.vdb_minor
    then true
    else if ltb i.vdb_minor v.vdb_minor
    then false
    else if ltb v.vdb_patch i.vdb_patch
    then true
    else if ltb i.vdb_patch v.vdb_patch
    then false
    else true

-- `none` is the panic on a version that cannot be parsed.
unfoldable pub is_equal_or_newer : Info → String → Option Bool
unfolding is_at_least
is_equal_or_newer i in_ver = do v ← parse_version in_ver; some (is_at_least i.components v)

abbrev pub minimum_version : String
minimum_version = "v11.0.0"

unfoldable pub is_supported : Info → Option Bool
unfolding is_equal_or_newer
is_supported i = is_equal_or_newer i minimum_version

unfoldable pub is_equal_except_patch : Components → Components → Bool
is_equal_except_patch i other = other.vdb_major == i.vdb_major && other.vdb_minor == i.vdb_minor

unfoldable pub is_equal : Components → Components → Bool
unfolding is_equal_except_patch
is_equal i other = is_equal_except_patch i other && other.vdb_patch == i.vdb_patch

-- UpgradePaths.
abbrev pub release : ℕ → ℕ → ℕ → Components
release major minor patch = record { vdb_major = major; vdb_minor = minor; vdb_patch = patch }

abbrev pub upgrade_paths : List (Components × Info)
upgrade_paths =
    (release 11 0 0, record { vdb_ver = "v11.1.x"; components = release 11 1 0 })
    ∷ (release 11 0 1, record { vdb_ver = "v11.1.x"; components = release 11 1 0 })
    ∷ (release 11 0 2, record { vdb_ver = "v11.1.x"; components = release 11 1 0 })
    ∷ (release 11 1 0, record { vdb_ver = "v12.0.x"; components = release 12 0 0 })
    ∷ (release 11 1 1, record { vdb_ver = "v12.0.x"; components = release 12 0 0 })
    ∷ []

unfoldable pub next_version : Components → List (Components × Info) → Option Info
unfolding is_equal
next_version c [] = none
next_version c ((k, i) ∷ paths) = if is_equal k c then some i else next_version c paths

-- The failure reasons, whose text names the versions.
pub data PathCheck : Type 0 where
  valid : PathCheck
  downgrade : String → String → PathCheck
  skips : String → String → String → PathCheck

-- The test of a downgrade.
unfoldable pub is_downgrade : Components → Components → Bool
is_downgrade i t =
    ltb t.vdb_major i.vdb_major
    || t.vdb_major == i.vdb_major && ltb t.vdb_minor i.vdb_minor
    || t.vdb_major == i.vdb_major && t.vdb_minor == i.vdb_minor && ltb t.vdb_patch i.vdb_patch

-- The last test: the release that follows, if it is known, must not be skipped.
abbrev pub check_next : Info → Info → Option Info → PathCheck
unfolding is_equal_except_patch
check_next i t none = valid
check_next i t (some next_ver) =
    if is_equal_except_patch t.components next_ver.components
    then valid
    else skips i.vdb_ver t.vdb_ver next_ver.vdb_ver

unfoldable pub check_upgrade_path : Info → Info → PathCheck
unfolding is_equal is_downgrade next_version
check_upgrade_path i t =
    if is_equal i.components t.components
    then valid
    else if is_downgrade i.components t.components
    then downgrade i.vdb_ver t.vdb_ver
    else if is_equal_except_patch i.components t.components
    then valid
    else check_next i t (next_version i.components upgrade_paths)

-- `none` is the panic on a target version that cannot be parsed.
unfoldable pub is_valid_upgrade_path : Info → String → Option PathCheck
unfolding make_info_from_str check_upgrade_path
is_valid_upgrade_path i target_ver = do
  t ← make_info_from_str target_ver
  some (check_upgrade_path i t)
