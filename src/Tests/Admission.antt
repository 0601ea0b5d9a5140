-- ===== src/Tests/Admission.antt =====
-- The theorems on the webhook and on versions, at concrete inputs.
use text.Mathlib.Text.{◌==◌}
use vertica_kubernetes.Prelude.{◌⊎◌, ◌≡◌, refl, ◌↔◌, String, none, true}
use vertica_kubernetes.Prelude.Int.{◌+ℤ◌}
use vertica_kubernetes.Prelude.Text.{codes}
use vertica_kubernetes.Api.Methods.{
  get_service_name, is_hdfs, is_azure, requires_transient_subcluster, gen_subcluster_map,
}
use vertica_kubernetes.Api.Webhook.Errors.{Checks, AllPairs, each, pairs}
use vertica_kubernetes.Api.Webhook.Cluster.{
  has_at_least_one_sc, has_valid_init_policy, has_valid_db_name, has_primary_subcluster,
  validate_ksafety, validate_communal_path, validate_endpoint, credential_secret_exists,
  has_valid_kerberos_setup, validate_requeue_times, validate_encrypt_spread_comm, get_cluster_size,
}
use vertica_kubernetes.Api.Webhook.Mounts.{
  has_valid_volume_name, has_valid_volume_mount_name, check_mount,
}
use vertica_kubernetes.Api.Webhook.Routing.{has_valid_temporary_subcluster_routing, check_template}
use vertica_kubernetes.Api.Webhook.Default.{default}
use vertica_kubernetes.Api.Webhook.Default.Laws.{IsDefaulted, default-IsDefaulted}
use vertica_kubernetes.Api.Webhook.Subclusters.{
  is_valid_subcluster_name, matching_service_names_are_consistent, has_valid_domain_name,
  has_valid_node_port, is_node_port_properly_specified, is_service_type_valid,
  has_duplicate_sc_name, transient_subcluster_must_match_template, match_services,
  match_services_from, matches_name, matches_rest, same_external_ips,
}
use vertica_kubernetes.Api.Webhook.Subclusters.Label.{IsLabel, is_valid_subcluster_name-IsLabel}
use vertica_kubernetes.Api.Webhook.Subclusters.Services.{
  AgreeOnService, matching_service_names_are_consistent-Checks,
}
use vertica_kubernetes.Api.Webhook.Create.{
  validate_create, validate_verticadb_spec, check_cluster, check_details,
}
use vertica_kubernetes.Api.Webhook.Create.Laws.{IsValidCluster, IsValidDetails, validate_create_iff}
use vertica_kubernetes.Api.Webhook.Immutable.{can_update_sc_name, validate_update}
use vertica_kubernetes.Api.Webhook.Immutable.Subclusters.{KeepsName, can_update_sc_name_iff}
use vertica_kubernetes.Api.Webhook.Immutable.Laws.{IsAllowedUpdate, validate_update_iff}
use vertica_kubernetes.Api.Webhook.Autoscaler.{validate_autoscaler}
use vertica_kubernetes.Api.Webhook.Autoscaler.Laws.{IsValidAutoscaler, validate_autoscaler_iff}
use vertica_kubernetes.Prelude.Int.{pos}
use vertica_kubernetes.Prelude.{String, List, [], ◌∷◌, Bool, true, false}
use vertica_kubernetes.PodFacts.{PodFact, find_pod_to_run_admintools_any}
use vertica_kubernetes.PodFacts.Laws.{IsBest, find_pod_to_run_admintools_any-IsBest}
use vertica_kubernetes.Api.Types.{VerticaDbCondition}
use vertica_kubernetes.Prelude.{some}
use vertica_kubernetes.Status.{
  unset_condition, refresh_condition_in_place, is_condition_set, set_conditions,
}
use vertica_kubernetes.Status.Laws.{
  IsRefreshed, refresh_condition_in_place-is_condition_set, refresh_condition_in_place-IsRefreshed,
}
use text.Mathlib.Text.{◌==◌}
use vertica_kubernetes.Api.Constants.{condition_true}
use vertica_kubernetes.Version.{
  Components, Info, release, is_at_least, check_upgrade_path, valid, next_version, is_equal,
  is_equal_except_patch, is_downgrade,
}
use vertica_kubernetes.Version.Laws.{
  is_at_least-IsBefore, check_upgrade_path-valid, IsBefore, IsSameMinor, Follows,
}
use vertica_kubernetes.Tests.{three, database, autoscaler}

validate_create_iff_example :
    validate_create (database "1") ≡ none
    ↔ (IsValidCluster (database "1") × IsValidDetails (database "1"))
validate_create_iff_example = validate_create_iff (database "1")

validate_update_iff_example :
    validate_update (λ a b. a == b) (database "0") (database "1") ≡ none ↔ (
      IsAllowedUpdate (λ a b. a == b) (database "0") (database "1")
      × (validate_create (database "0") ≡ none))
validate_update_iff_example = validate_update_iff (λ a b. a == b) (database "0") (database "1")

can_update_sc_name_iff_example :
    can_update_sc_name (database "0") (database "1") ≡ true
    ↔ KeepsName (database "0") (database "1")
can_update_sc_name_iff_example = can_update_sc_name_iff (database "0") (database "1")

matching_service_names_are_consistent-Checks_example :
    Checks (matching_service_names_are_consistent (database "1")) (AllPairs AgreeOnService three)
matching_service_names_are_consistent-Checks_example =
    matching_service_names_are_consistent-Checks (database "1")

is_valid_subcluster_name-IsLabel_example :
    is_valid_subcluster_name "as-0" ≡ true ↔ IsLabel (codes "as-0")
is_valid_subcluster_name-IsLabel_example = is_valid_subcluster_name-IsLabel "as-0"

default-IsDefaulted_example : IsDefaulted (database "1") (default (database "1"))
default-IsDefaulted_example = default-IsDefaulted (database "1")

is_at_least-IsBefore_example :
    is_at_least (release 11 0 2) (release 11 1 0) ≡ true
    ↔ ¬ IsBefore (release 11 0 2) (release 11 1 0)
is_at_least-IsBefore_example = is_at_least-IsBefore (release 11 0 2) (release 11 1 0)

abbrev info : String → Components → Info
info ver components = record { vdb_ver = ver; components = components }

check_upgrade_path-valid_example :
    check_upgrade_path (info "v11.0.1" (release 11 0 1)) (info "v12.0.0" (release 12 0 0)) ≡ valid
    ↔ ((¬ IsBefore (release 12 0 0) (release 11 0 1))
        × (IsSameMinor (release 11 0 1) (release 12 0 0)
            ⊎ Follows (release 11 0 1) (release 12 0 0)))
check_upgrade_path-valid_example =
    check_upgrade_path-valid (info "v11.0.1" (release 11 0 1)) (info "v12.0.0" (release 12 0 0))

-- The path table has the patch releases 11.0.0 to 11.0.2 only, so 11.0.3 may skip 11.1.
skip_from_unlisted :
    check_upgrade_path (info "v11.0.3" (release 11 0 3)) (info "v12.0.0" (release 12 0 0)) ≡ valid
unfolding check_upgrade_path is_equal is_equal_except_patch is_downgrade next_version
skip_from_unlisted = refl

admitted : validate_create (database "1") ≡ none
unfolding validate_create validate_verticadb_spec check_cluster check_details has_at_least_one_sc
    has_valid_init_policy has_valid_db_name has_primary_subcluster validate_ksafety
    validate_communal_path validate_endpoint credential_secret_exists has_valid_kerberos_setup
    validate_requeue_times validate_encrypt_spread_comm has_valid_domain_name has_valid_node_port
    is_node_port_properly_specified is_service_type_valid has_duplicate_sc_name
    matching_service_names_are_consistent match_services match_services_from
    transient_subcluster_must_match_template has_valid_volume_name has_valid_volume_mount_name
    check_mount has_valid_temporary_subcluster_routing check_template get_cluster_size is_hdfs
    is_azure is_valid_subcluster_name matches_name matches_rest each pairs ◌+ℤ◌
    requires_transient_subcluster gen_subcluster_map get_service_name same_external_ips
admitted = refl

validate_autoscaler_iff_example :
    validate_autoscaler (autoscaler 7) ≡ none ↔ IsValidAutoscaler (autoscaler 7)
validate_autoscaler_iff_example = validate_autoscaler_iff (autoscaler 7)

abbrev pub pod : String → Bool → Bool → PodFact
pod image up_node read_only = record {
  name = ("ns", "db-main-0");
  pod_index = pos 0;
  dns_name = "db-main-0.db.ns";
  pod_ip = "10.0.0.1";
  subcluster = "main";
  is_primary = true;
  image = image;
  exists = true;
  is_pod_running = true;
  managed_by_parent = true;
  pending_delete = false;
  is_installed = true;
  has_stale_admintools_conf = false;
  db_exists = true;
  up_node = up_node;
  read_only = read_only;
  vnode_name = "v_db_node0001";
  compat21_node_name = "node0001";
  eula_accepted = "true";
  config_logrotate_exists = true;
  config_logrotate_writable = true;
  config_share_exists = true;
  is_transient = false;
  shard_subscriptions = pos 12;
  has_dc_table_annotations = true;
}

abbrev pods : List PodFact
pods = pod "old" false false ∷ pod "old" true true ∷ pod "new" true false ∷ []

find_pod_to_run_admintools_any-IsBest_example : IsBest pods (find_pod_to_run_admintools_any pods)
find_pod_to_run_admintools_any-IsBest_example = find_pod_to_run_admintools_any-IsBest pods

abbrev upgrading : VerticaDbCondition
upgrading = record {
  type_name = "ImageChangeInProgress";
  status = "True";
  last_transition_time = pos 1000;
}

refresh_condition_in_place-IsRefreshed_example :
    (after : List VerticaDbCondition) × (refresh_condition_in_place upgrading
        (unset_condition 0 ∷ [])
      ≡ some after)
    × IsRefreshed upgrading 2 (unset_condition 0 ∷ []) after
refresh_condition_in_place-IsRefreshed_example =
    refresh_condition_in_place-IsRefreshed upgrading 2 (unset_condition 0 ∷ []) refl (refl, tt)

refresh_condition_in_place-is_condition_set_example :
    (after : List VerticaDbCondition) × (refresh_condition_in_place upgrading [] ≡ some after)
    × (is_condition_set (set_conditions (database "1") after) "ImageChangeInProgress"
        ≡ some ("True" == condition_true))
refresh_condition_in_place-is_condition_set_example =
    refresh_condition_in_place-is_condition_set (database "1") upgrading 2 refl tt
