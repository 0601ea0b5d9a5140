-- ===== src/Upgrade/Policy.antt =====
-- Which kind of upgrade a VerticaDB gets: the two tests of the policy, and IsUpgradeNeeded.
pub mod Laws
use text.Mathlib.Text.{◌==◌}
use vertica_kubernetes.Prelude.{
  ◌≡◌, ◌≢◌, refl, ◌↔◌, ◌⊎◌, inl, inr, String, List, [], ◌∷◌, Option, none, some, Bool, true, false,
  not, ◌&&◌, ◌||◌, if◌then◌else◌, any, arith, Option-cases, Bool-cases,
}
use vertica_kubernetes.Prelude.Maps.{lookup}
use vertica_kubernetes.Api.Types.{Subcluster, VerticaDb}
use vertica_kubernetes.Api.Constants.{init_policy_schedule_only, k_safety0}
use vertica_kubernetes.Api.Methods.{requires_transient_subcluster, gen_subcluster_map}
use vertica_kubernetes.Version.{
  Info, Components, make_info_from_vdb, release, is_at_least, parse_version, is_equal_or_newer,
}
use vertica_kubernetes.Status.{is_condition_set}
use vertica_kubernetes.Upgrade.World.{StatefulSet, World, client_call}
use vertica_kubernetes.Upgrade.Manager.{is_upgrade_in_progress}
use vertica_kubernetes.Upgrade.Images.{is_vdb_image_different}

abbrev pub offline_upgrade : String
offline_upgrade = "Offline"

abbrev pub online_upgrade : String
online_upgrade = "Online"

abbrev pub auto_upgrade : String
auto_upgrade = "Auto"

-- OnlineUpgradeVersion, which is parsed where it is compared.
abbrev pub online_upgrade_version : String
online_upgrade_version = "v11.1.0"

abbrev is_true : Option Bool → Bool
is_true none = false
is_true (some b) = b

-- `ok && vinf.IsEqualOrNewer(OnlineUpgradeVersion)`; the text of the version parses, so that the
-- comparison does not panic.
unfoldable pub supports_online : Option Info → Bool
unfolding is_equal_or_newer
supports_online none = false
supports_online (some vinf) = is_true (is_equal_or_newer vinf online_upgrade_version)

-- What the automatic choice lacks for an online upgrade.
abbrev pub cannot_scale_out : VerticaDb → Bool
cannot_scale_out vdb =
    (requires_transient_subcluster vdb && vdb.spec.license_secret == "")
    || vdb.spec.k_safety == k_safety0

unfoldable pub online_upgrade_allowed : VerticaDb → Bool
unfolding make_info_from_vdb supports_online requires_transient_subcluster
online_upgrade_allowed vdb =
    if vdb.spec.upgrade_policy == offline_upgrade
    then false
    else if (vdb.spec.upgrade_policy == auto_upgrade || vdb.spec.upgrade_policy == "")
        && cannot_scale_out vdb
    then false
    else supports_online (make_info_from_vdb vdb)

unfoldable pub offline_upgrade_allowed : VerticaDb → Bool
unfolding online_upgrade_allowed
offline_upgrade_allowed vdb = not (online_upgrade_allowed vdb)

-- IsUpgradeNeeded. Which of the two policies allows the upgrade is the manager's parameter; the
-- answer is missing where the condition's type is unknown or a call fails.
unfoldable pub is_upgrade_needed : String → (VerticaDb → Bool) → World → Option Bool × World
unfolding is_upgrade_in_progress is_vdb_image_different
is_upgrade_needed status_condition is_allowed_for_upgrade_policy w =
    let (in_progress, w') = is_upgrade_in_progress status_condition w in
    let different = is_vdb_image_different w' in
    if w.vdb.spec.init_policy == init_policy_schedule_only
    then (some false, w)
    else elim in_progress [
      | none ↦ (none, w')
      | some true ↦ (some true, w')
      | some false ↦
          if not (is_allowed_for_upgrade_policy w'.vdb) then (some false, w') else different
    ]
