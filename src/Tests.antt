-- ===== src/Tests.antt =====
-- Test data: a database with three subclusters on two services, and an autoscaler.
pub mod Scaling
pub mod Admission
pub mod Upgrade
pub mod Transient
pub mod Online
use text.Mathlib.Text.{◌==◌}
use text.Mathlib.TextEquality.{eq_iff}
use mathlib.Core.Bool.{true≢false}
use vertica_kubernetes.Prelude.{
  sym, ◌⊎◌, ℕ, ◌≡◌, ◌≢◌, refl, ◌↔◌, String, List, [], ◌∷◌, ◌++◌, map, none, some, Bool, true, false,
  not, arith, length, ◌==◌ as nat_eq,
}
use vertica_kubernetes.Prelude.Int.{pos, ◌+ℤ◌}
use vertica_kubernetes.Prelude.Text.{codes}
use vertica_kubernetes.Prelude.Maps.{lookup}
use vertica_kubernetes.Api.Types.{Subcluster, VerticaDb, VerticaAutoscaler}
use vertica_kubernetes.Api.Methods.{
  serves, can_use_template, get_service_name, is_hdfs, is_azure, requires_transient_subcluster,
  gen_subcluster_map,
}
use vertica_kubernetes.Api.Webhook.Errors.{Checks, AllPairs, each, pairs}
use vertica_kubernetes.Api.Webhook.Cluster.{
  has_at_least_one_sc, has_valid_init_policy, has_valid_db_name, has_primary_subcluster,
  validate_ksafety, validate_communal_path, validate_endpoint, credential_secret_exists,
  has_valid_kerberos_setup, validate_requeue_times, validate_encrypt_spread_comm, get_cluster_size,
}
use vertica_kubernetes.Api.Webhook.Mounts.{
  has_valid_volume_name, has_valid_volume_mount_name, check_mount,
}
use vertica_kubernetes.Api.Webhook.Routing.{has_valid_temporary_subcluster_routing, check_template}
use vertica_kubernetes.Api.Webhook.Default.{default}
use vertica_kubernetes.Api.Webhook.Subclusters.{
  is_valid_subcluster_name, matching_service_names_are_consistent, has_valid_domain_name,
  has_valid_node_port, is_node_port_properly_specified, is_service_type_valid,
  has_duplicate_sc_name, transient_subcluster_must_match_template, match_services,
  match_services_from, matches_name, matches_rest, same_external_ips,
}
use vertica_kubernetes.Api.Webhook.Subclusters.Label.{IsLabel, is_valid_subcluster_name-IsLabel}
use vertica_kubernetes.Api.Webhook.Subclusters.Services.{
  AgreeOnService, matching_service_names_are_consistent-Checks,
}
use vertica_kubernetes.Api.Webhook.Create.{
  validate_create, validate_verticadb_spec, check_cluster, check_details,
}
use vertica_kubernetes.Api.Webhook.Create.Laws.{IsValidCluster, IsValidDetails, validate_create_iff}
use vertica_kubernetes.Api.Webhook.Immutable.{can_update_sc_name, validate_update}
use vertica_kubernetes.Api.Webhook.Immutable.Subclusters.{KeepsName, can_update_sc_name_iff}
use vertica_kubernetes.Api.Webhook.Immutable.Laws.{IsAllowedUpdate, validate_update_iff}
use vertica_kubernetes.Vas.Remove.{consider_removing_subclusters}
use vertica_kubernetes.Vas.Remove.Laws.{IsRemoval, consider_removing_subclusters-IsRemoval}
use vertica_kubernetes.Vas.Add.{
  gen_next_subcluster_name, consider_adding_subclusters, added, still_running,
}
use vertica_kubernetes.Vas.Add.Names.{gen_next_subcluster_name_total}
use vertica_kubernetes.Vas.Add.Copies.{Base, of_last}
use vertica_kubernetes.Vas.Add.Laws.{
  IsAddition, consider_adding_subclusters-IsAddition, consider_adding_subclusters-still_running,
}
use vertica_kubernetes.Vas.Resize.{resize_subclusters}
use vertica_kubernetes.Vas.Resize.Laws.{Outcome, resize_subclusters-Outcome}
use vertica_kubernetes.Vas.Scale.{scale_subclusters}
use vertica_kubernetes.Vas.Scale.Moves.{Moves}
use vertica_kubernetes.Version.{
  Components, Info, release, is_at_least, check_upgrade_path, valid, next_version, upgrade_paths,
  is_equal, is_equal_except_patch, is_downgrade,
}
use vertica_kubernetes.Version.Laws.{
  is_at_least-IsBefore, check_upgrade_path-valid, IsBefore, IsSameMinor, Follows,
}

abbrev pub subcluster : String → String → ℕ → Bool → Subcluster
subcluster name service_name size is_primary = record {
  name = name;
  size = pos size;
  is_primary = is_primary;
  is_transient = false;
  image_override = "";
  node_selector = "";
  affinity = record { node_affinity = ""; pod_affinity = ""; pod_anti_affinity = "" };
  priority_class_name = "";
  tolerations = "";
  resources = "";
  service_type = "ClusterIP";
  service_name = service_name;
  node_port = pos 0;
  external_ips = none;
  load_balancer_ip = "";
  service_annotations = "";
}

abbrev pub three : List Subcluster
three =
    subcluster "main" "" 3 true ∷ subcluster "as1" "as" 2 false ∷ subcluster "as2" "as" 4 false ∷ []

-- The last subcluster of the service has no pods.
abbrev pub last_empty : List Subcluster
last_empty = subcluster "as1" "as" 2 false ∷ subcluster "as2" "as" 0 false ∷ []

-- The autoscaler of the service "as" has no template.
abbrev pub autoscaler : ℕ → VerticaAutoscaler
autoscaler target = record {
  meta = record { name = "as"; namespace = "ns"; uid = "1"; annotations = [] };
  spec = record {
    vertica_db_name = "db";
    scaling_granularity = "Subcluster";
    service_name = "as";
    template = subcluster "" "" 0 false;
    target_size = pos target;
  };
  status = record { scaling_count = pos 0; current_size = pos 6; selector = ""; conditions = [] };
}

abbrev pub database : String → VerticaDb
database k_safety = record {
  meta = record { name = "db"; namespace = "ns"; uid = "2"; annotations = [] };
  spec = record {
    image_pull_policy = "";
    image_pull_secrets = [];
    image = "vertica:latest";
    labels = [];
    annotations = [];
    auto_restart_vertica = true;
    db_name = "db";
    shard_count = pos 12;
    superuser_password_secret = "";
    license_secret = "";
    ignore_cluster_lease = false;
    init_policy = "Create";
    upgrade_policy = "Auto";
    ignore_upgrade_path = false;
    revive_order = [];
    restart_timeout = pos 0;
    communal = record {
      path = "s3://bucket";
      include_uid_in_path = false;
      endpoint = "http://minio";
      credential_secret = "creds";
      ca_file = "";
      region = "";
      hadoop_config = "";
      kerberos_service_name = "";
      kerberos_realm = "";
    };
    local = record {
      storage_class = "";
      request_size = "500Gi";
      data_path = "/data";
      depot_path = "/depot";
    };
    subclusters = three;
    temporary_subcluster_routing = record { names = none; template = subcluster "" "" 0 false };
    k_safety = k_safety;
    requeue_time = pos 0;
    upgrade_requeue_time = pos 0;
    sidecars = "";
    volumes = [];
    volume_mounts = [];
    cert_secrets = [];
    kerberos_secret = "";
    ssh_secret = "";
    encrypt_spread_comm = "";
    security_context = "";
  };
  status = record {
    install_count = pos 9;
    added_to_db_count = pos 9;
    up_node_count = pos 9;
    subcluster_count = pos 3;
    subclusters = [];
    conditions = [];
    upgrade_status = "";
  };
}
