-- ===== src/Api/Webhook/Create/Laws.antt =====
-- A VerticaDB that the webhook admits.
use vertica_kubernetes.Prelude.{◌≡◌, ◌≢◌, refl, ◌↔◌, [], ◌∷◌, none, true, arith, All, any}
use vertica_kubernetes.Api.Types.{VerticaDb}
use vertica_kubernetes.Api.Webhook.Errors.{Checks, AllPairs, ErrorList, then-Checks, iff-Checks}
use vertica_kubernetes.Api.Webhook.Cluster.Laws.{
  has_at_least_one_sc-Checks, HasInitPolicy, has_valid_init_policy-Checks, HasDbName,
  has_valid_db_name-Checks, has_primary_subcluster-Checks, IsSafe, validate_ksafety-Checks,
  HasAcceptedPath, validate_communal_path-Checks, HasEndpoint, validate_endpoint-Checks,
  HasCredentialSecret, credential_secret_exists-Checks, HasKerberos,
  has_valid_kerberos_setup-Checks, HasRequeueTimes, validate_requeue_times-Checks, HasSpreadSetting,
  validate_encrypt_spread_comm-Checks,
}
use vertica_kubernetes.Api.Webhook.Subclusters.Laws.{
  HasValidName, has_valid_domain_name-Checks, HasValidNodePort, has_valid_node_port-Checks,
  HasPortWhereAllowed, is_node_port_properly_specified-Checks, HasKnownServiceType,
  is_service_type_valid-Checks, has_duplicate_sc_name-Checks, MatchesTemplate,
  transient_subcluster_must_match_template-Checks,
}
use vertica_kubernetes.Api.Webhook.Subclusters.Services.{
  AgreeOnService, matching_service_names_are_consistent-Checks,
}
use vertica_kubernetes.Api.Webhook.Mounts.Laws.{
  HasFreeName, has_valid_volume_name-Checks, HasFreePath, has_valid_volume_mount_name-Checks,
}
use vertica_kubernetes.Api.Webhook.Routing.Laws.{
  HasRouting, has_valid_temporary_subcluster_routing-Checks,
}
use vertica_kubernetes.Api.Webhook.Create.{
  check_cluster, check_details, validate_verticadb_spec, as_error, validate_create,
}

-- The cluster as a whole is set up well.
pub record IsValidCluster (v : VerticaDb) : Type 0 where
  pub has_subcluster : v.spec.subclusters ≢ []
  pub init_policy : HasInitPolicy v
  pub db_name : HasDbName v
  pub has_primary : any (λ sc. sc.is_primary) v.spec.subclusters ≡ true
  pub is_safe : IsSafe v
  pub communal_path : HasAcceptedPath v
  pub endpoint : HasEndpoint v
  pub names : All HasValidName v.spec.subclusters
  pub credential_secret : HasCredentialSecret v

-- So are the services, the volumes and the rest.
pub record IsValidDetails (v : VerticaDb) : Type 0 where
  pub node_ports : All HasValidNodePort v.spec.subclusters
  pub port_services : All HasPortWhereAllowed v.spec.subclusters
  pub service_types : All HasKnownServiceType v.spec.subclusters
  pub different_names : AllPairs (λ a b. a.name ≢ b.name) v.spec.subclusters
  pub volumes : All HasFreeName v.spec.volumes
  pub volume_mounts : All (HasFreePath v) v.spec.volume_mounts
  pub kerberos : HasKerberos v
  pub routing : HasRouting v
  pub services : AllPairs AgreeOnService v.spec.subclusters
  pub transients : All (MatchesTemplate v) v.spec.subclusters
  pub requeue_times : HasRequeueTimes v
  pub spread_setting : HasSpreadSetting v

check_cluster-Checks : (v : VerticaDb) → Checks (check_cluster v) (IsValidCluster v)
unfolding check_cluster
check_cluster-Checks v =
    iff-Checks _ _ _
      (then-Checks _ _ _ _
        (then-Checks _ _ _ _
          (then-Checks _ _ _ _
            (then-Checks _ _ _ _
              (then-Checks _ _ _ _
                (then-Checks _ _ _ _
                  (then-Checks _ _ _ _
                    (then-Checks _ _ _ _ (has_at_least_one_sc-Checks v)
                      (has_valid_init_policy-Checks v))
                    (has_valid_db_name-Checks v))
                  (has_primary_subcluster-Checks v))
                (validate_ksafety-Checks v))
              (validate_communal_path-Checks v))
            (validate_endpoint-Checks v))
          (has_valid_domain_name-Checks v))
        (credential_secret_exists-Checks v))
      (
        λ ((((((((a, b), c), d), e), f), g), h), i). record {
          has_subcluster = a;
          init_policy = b;
          db_name = c;
          has_primary = d;
          is_safe = e;
          communal_path = f;
          endpoint = g;
          names = h;
          credential_secret = i;
        },
        λ r. (
          (
            (
              (
                ((((r.has_subcluster, r.init_policy), r.db_name), r.has_primary), r.is_safe),
                r.communal_path,
              ),
              r.endpoint,
            ),
            r.names,
          ),
          r.credential_secret,
        ),
      )

check_details-Checks : (v : VerticaDb) → Checks (check_details v) (IsValidDetails v)
unfolding check_details
check_details-Checks v =
    iff-Checks _ _ _
      (then-Checks _ _ _ _
        (then-Checks _ _ _ _
          (then-Checks _ _ _ _
            (then-Checks _ _ _ _
              (then-Checks _ _ _ _
                (then-Checks _ _ _ _
                  (then-Checks _ _ _ _
                    (then-Checks _ _ _ _
                      (then-Checks _ _ _ _
                        (then-Checks _ _ _ _
                          (then-Checks _ _ _ _ (has_valid_node_port-Checks v)
                            (is_node_port_properly_specified-Checks v))
                          (is_service_type_valid-Checks v))
                        (has_duplicate_sc_name-Checks v))
                      (has_valid_volume_name-Checks v))
                    (has_valid_volume_mount_name-Checks v))
                  (has_valid_kerberos_setup-Checks v))
                (has_valid_temporary_subcluster_routing-Checks v))
              (matching_service_names_are_consistent-Checks v))
            (transient_subcluster_must_match_template-Checks v))
          (validate_requeue_times-Checks v))
        (validate_encrypt_spread_comm-Checks v))
      (
        λ (((((((((((a, b), c), d), e), f), g), h), i), j), k), l). record {
          node_ports = a;
          port_services = b;
          service_types = c;
          different_names = d;
          volumes = e;
          volume_mounts = f;
          kerberos = g;
          routing = h;
          services = i;
          transients = j;
          requeue_times = k;
          spread_setting = l;
        },
        λ r. (
          (
            (
              (
                (
                  (
                    (
                      (
                        (((r.node_ports, r.port_services), r.service_types), r.different_names),
                        r.volumes,
                      ),
                      r.volume_mounts,
                    ),
                    r.kerberos,
                  ),
                  r.routing,
                ),
                r.services,
              ),
              r.transients,
            ),
            r.requeue_times,
          ),
          r.spread_setting,
        ),
      )

pub as_error_iff : (es : ErrorList) → as_error es ≡ none ↔ (es ≡ [])
as_error_iff [] = (λ _. refl, λ _. refl)
as_error_iff (e ∷ es) = ground arith

-- A new VerticaDB is admitted exactly if the conditions of all 21 checks hold.
pub validate_create_iff :
    (v : VerticaDb) → validate_create v ≡ none ↔ (IsValidCluster v × IsValidDetails v)
unfolding validate_create validate_verticadb_spec
validate_create_iff v =
    let spec = validate_verticadb_spec-Checks v [] in
    let error = as_error_iff (check_details v (check_cluster v [])) in
    (λ e. (spec.0 (error.0 e)).1, λ p. error.1 (spec.1 (refl, p)))
  where
    validate_verticadb_spec-Checks :
        (v : VerticaDb)
        → Checks (λ es. check_details v (check_cluster v es)) (IsValidCluster v × IsValidDetails v)
    validate_verticadb_spec-Checks v =
        then-Checks _ _ _ _ (check_cluster-Checks v) (check_details-Checks v)
