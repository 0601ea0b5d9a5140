-- ===== src/Api/Webhook/Cluster/Laws.antt =====
-- What the checks on the cluster as a whole let pass.
use Prim.Native.String.{len}
use text.Mathlib.Text.{◌==◌}
use text.Mathlib.TextEquality.{eq_iff, starts_with_iff}
use text.Mathlib.TextBridge.{IsPrefix}
use vertica_kubernetes.Prelude.{
  ◌≡◌, ◌≢◌, ◌↔◌, ◌⊎◌, List, [], ◌∷◌, true, false, not, ◌&&◌, ◌||◌, arith, All, ◌≤◌, any,
}
use vertica_kubernetes.Prelude.Int.{pos, ltb_ℤ, ◌≤ℤ◌}
use vertica_kubernetes.Prelude.Text.{codes, has_prefix, contains_code}
use vertica_kubernetes.Api.Types.{Subcluster, VerticaDb}
use vertica_kubernetes.Api.Constants.{
  init_policy_create, init_policy_revive, init_policy_schedule_only, k_safety0, k_safety1,
  invalid_db_name_chars, db_name_length_limit, s3_prefix, gcloud_prefix, azure_prefix,
  hdfs_prefixes, encrypt_spread_comm_with_vertica,
}
use vertica_kubernetes.Api.Methods.{is_hdfs, is_azure}
use vertica_kubernetes.Api.Webhook.Errors.{
  Checks, report-Checks, then-Checks, iff-Checks, skip-Checks, each-Checks, if-Checks,
}
use vertica_kubernetes.Api.Webhook.Cluster.{
  has_at_least_one_sc, has_valid_init_policy, has_valid_db_name, has_primary_subcluster,
  validate_ksafety, validate_communal_path, validate_endpoint, credential_secret_exists,
  has_valid_kerberos_setup, validate_requeue_times, validate_encrypt_spread_comm, get_cluster_size,
  schedules_only, is_empty,
}

pub has_at_least_one_sc-Checks :
    (v : VerticaDb) → Checks (has_at_least_one_sc v) (v.spec.subclusters ≢ [])
unfolding has_at_least_one_sc
has_at_least_one_sc-Checks v = report-Checks _ _ _ (is_empty_iff v.spec.subclusters)
  where
    is_empty_iff : (scs : List Subcluster) → is_empty scs ≡ false ↔ (scs ≢ [])
    is_empty_iff [] = ground arith
    is_empty_iff (sc ∷ scs) = ground arith

abbrev pub HasInitPolicy : VerticaDb → Type 0
HasInitPolicy v =
    (v.spec.init_policy ≡ init_policy_create)
    ⊎ ((v.spec.init_policy ≡ init_policy_revive) ⊎ (v.spec.init_policy ≡ init_policy_schedule_only))

pub has_valid_init_policy-Checks :
    (v : VerticaDb) → Checks (has_valid_init_policy v) (HasInitPolicy v)
unfolding has_valid_init_policy
has_valid_init_policy-Checks v = report-Checks _ _ _ (
    ground (
      arith,
      eq_iff v.spec.init_policy init_policy_create,
      eq_iff v.spec.init_policy init_policy_revive,
      eq_iff v.spec.init_policy init_policy_schedule_only,
    ))

abbrev pub SchedulesOnly : VerticaDb → Type 0
SchedulesOnly v = v.spec.init_policy ≡ init_policy_schedule_only

-- With K-safety 0 from 1 to 3 hosts, with K-safety 1 at least 3.
abbrev pub IsSafe : VerticaDb → Type 0
IsSafe v =
    let n = get_cluster_size v.spec.subclusters in
    SchedulesOnly v
    ⊎ (((v.spec.k_safety ≡ k_safety0) × (pos 1 ≤ℤ n) × (n ≤ℤ pos 3))
        ⊎ ((v.spec.k_safety ≡ k_safety1) × (pos 3 ≤ℤ n)))

k_safety0≢k_safety1 : k_safety0 ≢ k_safety1
k_safety0≢k_safety1 e = absurd (ground (arith, (eq_iff k_safety0 k_safety1).1 e))

pub validate_ksafety-Checks : (v : VerticaDb) → Checks (validate_ksafety v) (IsSafe v)
unfolding validate_ksafety
validate_ksafety-Checks v =
    let size_sum = get_cluster_size v.spec.subclusters in
    iff-Checks _ _ _
      (skip-Checks (schedules_only v) _ _ (
        if-Checks (v.spec.k_safety == k_safety0) _ _ _ _
          (report-Checks (ltb_ℤ size_sum (pos 1) || ltb_ℤ (pos 3) size_sum) _
            ((pos 1 ≤ℤ size_sum) × (size_sum ≤ℤ pos 3)) (ground arith))
          (if-Checks (v.spec.k_safety == k_safety1) _ _ _ _
            (report-Checks (ltb_ℤ size_sum (pos 3)) _ (pos 3 ≤ℤ size_sum) (ground arith))
            (report-Checks true _ ⊥ (ground arith)))))
      (ground (
        arith,
        eq_iff v.spec.init_policy init_policy_schedule_only,
        eq_iff v.spec.k_safety k_safety0,
        eq_iff v.spec.k_safety k_safety1,
        k_safety0≢k_safety1,
      ))

abbrev pub HasAcceptedPath : VerticaDb → Type 0
HasAcceptedPath v =
    SchedulesOnly v
    ⊎ (any (has_prefix v.spec.communal.path)
          (s3_prefix ∷ gcloud_prefix ∷ azure_prefix ∷ hdfs_prefixes)
        ≡ true)

pub validate_communal_path-Checks :
    (v : VerticaDb) → Checks (validate_communal_path v) (HasAcceptedPath v)
unfolding validate_communal_path
validate_communal_path-Checks v =
    iff-Checks _ _ _
      (skip-Checks (schedules_only v) _ _ (
        report-Checks _ _
          (any (has_prefix v.spec.communal.path)
              (s3_prefix ∷ gcloud_prefix ∷ azure_prefix ∷ hdfs_prefixes)
            ≡ true)
          (ground arith)))
      (ground (arith, eq_iff v.spec.init_policy init_policy_schedule_only))

-- The endpoint names its protocol, where the storage has an endpoint that the operator connects to.
abbrev pub HasEndpoint : VerticaDb → Type 0
HasEndpoint v =
    SchedulesOnly v
    ⊎ ((is_hdfs v.spec.communal ≡ true)
        ⊎ ((is_azure v.spec.communal ≡ true)
            ⊎ (IsPrefix "http://" v.spec.communal.endpoint
                ⊎ IsPrefix "https://" v.spec.communal.endpoint)))

pub validate_endpoint-Checks : (v : VerticaDb) → Checks (validate_endpoint v) (HasEndpoint v)
unfolding validate_endpoint
validate_endpoint-Checks v =
    iff-Checks _ _ _
      (skip-Checks (schedules_only v || (is_hdfs v.spec.communal || is_azure v.spec.communal)) _ _ (
        report-Checks _ _
          (IsPrefix "http://" v.spec.communal.endpoint
            ⊎ IsPrefix "https://" v.spec.communal.endpoint)
          (ground (
            arith,
            starts_with_iff v.spec.communal.endpoint "http://",
            starts_with_iff v.spec.communal.endpoint "https://",
          ))))
      (ground (arith, eq_iff v.spec.init_policy init_policy_schedule_only))

abbrev pub HasCredentialSecret : VerticaDb → Type 0
HasCredentialSecret v =
    SchedulesOnly v ⊎ ((is_hdfs v.spec.communal ≡ true) ⊎ (v.spec.communal.credential_secret ≢ ""))

pub credential_secret_exists-Checks :
    (v : VerticaDb) → Checks (credential_secret_exists v) (HasCredentialSecret v)
unfolding credential_secret_exists
credential_secret_exists-Checks v =
    iff-Checks _ _ _
      (skip-Checks (schedules_only v || is_hdfs v.spec.communal) _ _ (
        report-Checks _ _ (v.spec.communal.credential_secret ≢ "")
          (ground (arith, eq_iff v.spec.communal.credential_secret ""))))
      (ground (arith, eq_iff v.spec.init_policy init_policy_schedule_only))

-- At most 30 bytes, none of them a character of the list.
abbrev pub HasDbName : VerticaDb → Type 0
HasDbName v =
    (len v.spec.db_name ≤ db_name_length_limit)
    × All (λ c. contains_code c (codes v.spec.db_name) ≡ false) invalid_db_name_chars

pub has_valid_db_name-Checks : (v : VerticaDb) → Checks (has_valid_db_name v) (HasDbName v)
unfolding has_valid_db_name
has_valid_db_name-Checks v =
    then-Checks _ _ _ _
      (report-Checks _ _ (len v.spec.db_name ≤ db_name_length_limit) (ground arith))
      (each-Checks _ (λ c. contains_code c (codes v.spec.db_name) ≡ false)
        (λ _ c. report-Checks (contains_code c (codes v.spec.db_name)) _ _ (ground arith)) 0
        invalid_db_name_chars)

pub has_primary_subcluster-Checks :
    (v : VerticaDb)
    → Checks (has_primary_subcluster v) (any (λ sc. sc.is_primary) v.spec.subclusters ≡ true)
unfolding has_primary_subcluster
has_primary_subcluster-Checks v = report-Checks _ _ _ (ground arith)

-- The settings of Kerberos are all there, or neither the realm nor the service name is.
abbrev pub HasKerberos : VerticaDb → Type 0
HasKerberos v =
    ((v.spec.communal.kerberos_realm ≡ "") × (v.spec.communal.kerberos_service_name ≡ ""))
    ⊎ ((v.spec.communal.kerberos_realm ≢ "")
        × (v.spec.communal.kerberos_service_name ≢ "")
        × (v.spec.kerberos_secret ≢ ""))

pub has_valid_kerberos_setup-Checks :
    (v : VerticaDb) → Checks (has_valid_kerberos_setup v) (HasKerberos v)
unfolding has_valid_kerberos_setup
has_valid_kerberos_setup-Checks v =
    let realm = v.spec.communal.kerberos_realm in
    let service_name = v.spec.communal.kerberos_service_name in
    let secret = v.spec.kerberos_secret in
    iff-Checks _ _ _
      (skip-Checks
        ((realm == "" && service_name == "")
          || (not (realm == "") && not (service_name == "") && not (secret == "")))
        _ _
        (then-Checks _ _ _ _
          (then-Checks _ _ _ _
            (report-Checks (realm == "") _ (realm ≢ "") (ground (arith, eq_iff realm "")))
            (report-Checks (service_name == "") _ (service_name ≢ "")
              (ground (arith, eq_iff service_name ""))))
          (report-Checks (secret == "") _ (secret ≢ "") (ground (arith, eq_iff secret "")))))
      (ground (arith, eq_iff realm "", eq_iff service_name "", eq_iff secret ""))

abbrev pub HasRequeueTimes : VerticaDb → Type 0
HasRequeueTimes v = (pos 0 ≤ℤ v.spec.requeue_time) × (pos 0 ≤ℤ v.spec.upgrade_requeue_time)

pub validate_requeue_times-Checks :
    (v : VerticaDb) → Checks (validate_requeue_times v) (HasRequeueTimes v)
unfolding validate_requeue_times
validate_requeue_times-Checks v =
    then-Checks _ _ _ _ (report-Checks _ _ (pos 0 ≤ℤ v.spec.requeue_time) (ground arith))
      (report-Checks _ _ (pos 0 ≤ℤ v.spec.upgrade_requeue_time) (ground arith))

abbrev pub HasSpreadSetting : VerticaDb → Type 0
HasSpreadSetting v =
    (v.spec.encrypt_spread_comm ≡ "")
    ⊎ (v.spec.encrypt_spread_comm ≡ encrypt_spread_comm_with_vertica)

pub validate_encrypt_spread_comm-Checks :
    (v : VerticaDb) → Checks (validate_encrypt_spread_comm v) (HasSpreadSetting v)
unfolding validate_encrypt_spread_comm
validate_encrypt_spread_comm-Checks v = report-Checks _ _ _ (
    ground (
      arith,
      eq_iff v.spec.encrypt_spread_comm "",
      eq_iff v.spec.encrypt_spread_comm encrypt_spread_comm_with_vertica,
    ))
