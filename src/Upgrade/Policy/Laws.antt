-- ===== src/Upgrade/Policy/Laws.antt =====
-- Which upgrade is chosen.
use text.Mathlib.Text.{◌==◌}
use vertica_kubernetes.Prelude.{
  ◌≡◌, ◌↔◌, ◌⊎◌, Option, none, some, Bool, true, false, ◌&&◌, ◌||◌, if◌then◌else◌, arith,
}
use vertica_kubernetes.Prelude.Text.{itoa}
use vertica_kubernetes.Api.Types.{VerticaDb}
use vertica_kubernetes.Api.Constants.{k_safety0}
use vertica_kubernetes.Api.Methods.{requires_transient_subcluster}
use vertica_kubernetes.Version.{
  Info, make_info_from_vdb, release, is_at_least, parse_version, is_equal_or_newer,
}
use vertica_kubernetes.Version.Parse.{parse_version-print_version}
use vertica_kubernetes.Upgrade.Policy.{
  offline_upgrade, online_upgrade_version, online_upgrade_allowed, supports_online, auto_upgrade,
}

online_upgrade_version_lem : parse_version online_upgrade_version ≡ some (release 11 1 0)
unfolding itoa
online_upgrade_version_lem =
    parse_version-print_version (release 11 1 0) (ground arith) (ground arith) (ground arith)

-- The server's version, which the annotation of the VerticaDB names, is 11.1.0 or newer.
abbrev pub IsSupportedVersion : Option Info → Type 0
IsSupportedVersion none = ⊥
IsSupportedVersion (some vinf) = is_at_least vinf.components (release 11 1 0) ≡ true

supports_online_iff : (vinf : Option Info) → supports_online vinf ≡ true ↔ IsSupportedVersion vinf
unfolding supports_online is_equal_or_newer
supports_online_iff none = ground arith
supports_online_iff (some vinf) = rw online_upgrade_version_lem (ground arith)

choice_iff :
    (offline auto missing transient unlicensed k0 supported : Bool)
    → (if offline
          then false
          else if (auto || missing) && ((transient && unlicensed) || k0)
          then false
          else supported)
        ≡ true
      ↔ ((offline ≡ false)
          × (((auto ≡ false) × (missing ≡ false))
              ⊎ (((transient ≡ false) ⊎ (unlicensed ≡ false)) × (k0 ≡ false)))
          × (supported ≡ true))
choice_iff true auto missing transient unlicensed k0 supported = ground arith
choice_iff false auto missing transient unlicensed k0 false = ground arith
choice_iff false true missing transient unlicensed k0 true = ground arith
choice_iff false false true transient unlicensed k0 true = ground arith
choice_iff false false false transient unlicensed k0 true = ground arith

-- An upgrade is online exactly if the policy is not "Offline", the server's version is known and at
-- least 11.1.0, and under the policy "Auto", or under none, the K-safety is not 0 and there is a
-- license if a transient subcluster is required. Where none is required, no license is asked for.
pub online_upgrade_allowed_iff :
    (vdb : VerticaDb)
    → let policy = vdb.spec.upgrade_policy in
      online_upgrade_allowed vdb ≡ true ↔ (
        (policy == offline_upgrade ≡ false)
        × (((policy == auto_upgrade ≡ false) × (policy == "" ≡ false))
            ⊎ (((requires_transient_subcluster vdb ≡ false)
                  ⊎ (vdb.spec.license_secret == "" ≡ false))
                × (vdb.spec.k_safety == k_safety0 ≡ false)))
        × IsSupportedVersion (make_info_from_vdb vdb))
unfolding online_upgrade_allowed
online_upgrade_allowed_iff vdb =
    let policy = vdb.spec.upgrade_policy in
    let known = supports_online_iff (make_info_from_vdb vdb) in
    let choice =
      choice_iff (policy == offline_upgrade) (policy == auto_upgrade) (policy == "")
        (requires_transient_subcluster vdb) (vdb.spec.license_secret == "")
        (vdb.spec.k_safety == k_safety0) (supports_online (make_info_from_vdb vdb)) in
    (λ e. let (a, b, c) = choice.0 e in (a, b, known.0 c), λ (a, b, c). choice.1 (a, b, known.1 c))
