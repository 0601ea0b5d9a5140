-- ===== src/Tests/Transient.antt =====
-- The transient subcluster and the webhook during an upgrade, at concrete inputs.
use vertica_kubernetes.Prelude.{◌≡◌, refl, [], ◌∷◌, none, true, false, arith}
use vertica_kubernetes.Api.Types.{VerticaDb}
use vertica_kubernetes.Upgrade.Manager.{start_upgrade}
use vertica_kubernetes.Upgrade.Manager.Conditions.{IsToggled}
use vertica_kubernetes.Upgrade.Manager.Goals.{with_start_event}
use vertica_kubernetes.Upgrade.Manager.Progress.{start_upgrade-succeeds}
use vertica_kubernetes.Upgrade.Transient.{Online, add_transient_to_vdb, remove_transient_from_vdb}
use vertica_kubernetes.Upgrade.Transient.Laws.{
  subclusters_of, remove_transient_from_vdb-add_transient_to_vdb,
}
use vertica_kubernetes.Tests.{database, subcluster, three}
use vertica_kubernetes.Tests.Admission.{pod}
use vertica_kubernetes.Tests.Upgrade.{upgrading}

-- A VerticaDB that wants a transient subcluster with one pod.
abbrev pub with_template : VerticaDb
with_template =
    let vdb = database "1" in
    record vdb {
      spec = record (vdb.spec) {
        temporary_subcluster_routing = record {
          names = none;
          template = subcluster "transient" "" 1 false;
        };
      };
    }

-- The primaries have the old image, and a pod is up.
abbrev pub started : Online
started = record {
  world = record upgrading { vdb = with_template; pfacts = pod "vertica:old" true false ∷ [] };
  transient_sc = none;
  primary_images = "vertica:old" ∷ [];
  status_msgs = [];
  posted = 0;
}

remove_transient_from_vdb-add_transient_to_vdb_example :
    subclusters_of (remove_transient_from_vdb (add_transient_to_vdb "" started).1).1 ≡ three
unfolding remove_transient_from_vdb add_transient_to_vdb
remove_transient_from_vdb-add_transient_to_vdb_example =
    remove_transient_from_vdb-add_transient_to_vdb "" started refl refl

start_upgrade-succeeds_example :
    ((start_upgrade "OfflineUpgradeInProgress" upgrading).0.err ≡ none)
    × IsToggled 3 true
        (with_start_event upgrading)
        (start_upgrade "OfflineUpgradeInProgress" upgrading).1
start_upgrade-succeeds_example =
    start_upgrade-succeeds "OfflineUpgradeInProgress" 3 upgrading refl (λ e. ground arith) tt refl
