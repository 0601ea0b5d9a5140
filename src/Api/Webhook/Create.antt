-- ===== src/Api/Webhook/Create.antt =====
-- validateVerticaDBSpec and ValidateCreate: the checks in the order of the source.
pub mod Laws
use vertica_kubernetes.Prelude.{List, [], ◌∷◌, Option, none, some}
use vertica_kubernetes.Api.Types.{VerticaDb}
use vertica_kubernetes.Api.Webhook.Errors.{ErrorList}
use vertica_kubernetes.Api.Webhook.Cluster.{
  has_at_least_one_sc, has_valid_init_policy, has_valid_db_name, has_primary_subcluster,
  validate_ksafety, validate_communal_path, validate_endpoint, credential_secret_exists,
  has_valid_kerberos_setup, validate_requeue_times, validate_encrypt_spread_comm,
}
use vertica_kubernetes.Api.Webhook.Subclusters.{
  has_valid_domain_name, has_valid_node_port, is_node_port_properly_specified,
  is_service_type_valid, has_duplicate_sc_name, matching_service_names_are_consistent,
  transient_subcluster_must_match_template,
}
use vertica_kubernetes.Api.Webhook.Mounts.{has_valid_volume_name, has_valid_volume_mount_name}
use vertica_kubernetes.Api.Webhook.Routing.{has_valid_temporary_subcluster_routing}

-- The checks up to that of the subclusters' names.
unfoldable pub check_cluster : VerticaDb → ErrorList → ErrorList
check_cluster v all_errs = credential_secret_exists v (
    has_valid_domain_name v (
      validate_endpoint v (
        validate_communal_path v (
          validate_ksafety v (
            has_primary_subcluster v
              (has_valid_db_name v (has_valid_init_policy v (has_at_least_one_sc v all_errs))))))))

-- The checks from that of the node ports on.
unfoldable pub check_details : VerticaDb → ErrorList → ErrorList
check_details v all_errs = validate_encrypt_spread_comm v (
    validate_requeue_times v (
      transient_subcluster_must_match_template v (
        matching_service_names_are_consistent v (
          has_valid_temporary_subcluster_routing v (
            has_valid_kerberos_setup v (
              has_valid_volume_mount_name v (
                has_valid_volume_name v (
                  has_duplicate_sc_name v (
                    is_service_type_valid v
                      (is_node_port_properly_specified v (has_valid_node_port v all_errs)))))))))))

unfoldable pub validate_verticadb_spec : VerticaDb → ErrorList
unfolding check_cluster check_details
validate_verticadb_spec v = check_details v (check_cluster v [])

-- `nil` for an empty list, else apierrors.NewInvalid of it.
abbrev pub as_error : ErrorList → Option ErrorList
as_error [] = none
as_error (e ∷ es) = some (e ∷ es)

unfoldable pub validate_create : VerticaDb → Option ErrorList
unfolding validate_verticadb_spec
validate_create v = as_error (validate_verticadb_spec v)
