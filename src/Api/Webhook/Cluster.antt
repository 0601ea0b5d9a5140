-- ===== src/Api/Webhook/Cluster.antt =====
-- The checks of validateVerticaDBSpec on the cluster as a whole: its policy, its name, its size and
-- its communal storage.
pub mod Laws
use Prim.Native.Nat.{compare, Ordering}
use Prim.Native.String.{len}
use text.Mathlib.Text.{◌==◌}
use vertica_kubernetes.Prelude.{
  ℕ, zero, suc, String, List, [], ◌∷◌, ◌++◌, Bool, true, false, not, ◌&&◌, ◌||◌, any, ltb,
  if◌then◌else◌,
}
use vertica_kubernetes.Prelude.Int.{ℤ, pos, negsuc, ◌+ℤ◌, ltb_ℤ}
use vertica_kubernetes.Prelude.Text.{codes, has_prefix, contains_code}
use vertica_kubernetes.Api.Types.{Subcluster, VerticaDb}
use vertica_kubernetes.Api.Constants.{
  init_policy_create, init_policy_revive, init_policy_schedule_only, k_safety0, k_safety1,
  invalid_db_name_chars, db_name_length_limit, s3_prefix, gcloud_prefix, azure_prefix,
  hdfs_prefixes, encrypt_spread_comm_with_vertica,
}
use vertica_kubernetes.Api.Methods.{is_hdfs, is_azure}
use vertica_kubernetes.Api.Webhook.Errors.{child, ErrorList, invalid, report, each}

abbrev pub is_empty {ℓ} : {A : Type ℓ} → List A → Bool
is_empty [] = true
is_empty (x ∷ xs) = false

unfoldable pub has_at_least_one_sc : VerticaDb → ErrorList → ErrorList
has_at_least_one_sc v =
    report (is_empty v.spec.subclusters)
      (invalid (child "subclusters" ∷ []) "there should be at least one subcluster defined")

unfoldable pub has_valid_init_policy : VerticaDb → ErrorList → ErrorList
has_valid_init_policy v =
    let p = v.spec.init_policy in
    report
      (not (p == init_policy_create || p == init_policy_revive || p == init_policy_schedule_only))
      (invalid (child "initPolicy" ∷ [])
        "initPolicy should either be Create, Revive or ScheduleOnly.")

-- The test `v.Spec.InitPolicy == CommunalInitPolicyScheduleOnly`.
abbrev pub schedules_only : VerticaDb → Bool
schedules_only v = v.spec.init_policy == init_policy_schedule_only

unfoldable pub validate_communal_path : VerticaDb → ErrorList → ErrorList
validate_communal_path v all_errs =
    if schedules_only v
    then all_errs
    else report
        (not (
          any (has_prefix v.spec.communal.path)
            (s3_prefix ∷ gcloud_prefix ∷ azure_prefix ∷ hdfs_prefixes)))
        (invalid (child "communal" ∷ child "path" ∷ [])
          "communal.Path is not prefixed with an accepted type")
        all_errs

unfoldable pub validate_endpoint : VerticaDb → ErrorList → ErrorList
validate_endpoint v all_errs =
    let endpoint = v.spec.communal.endpoint in
    if schedules_only v || (is_hdfs v.spec.communal || is_azure v.spec.communal)
    then all_errs
    else report (not (has_prefix endpoint "http://" || has_prefix endpoint "https://"))
        (invalid (child "communal" ∷ child "endpoint" ∷ [])
          "communal.endpoint must be prefaced with http:// or https:// to know what protocol to connect with")
        all_errs

unfoldable pub credential_secret_exists : VerticaDb → ErrorList → ErrorList
credential_secret_exists v all_errs =
    if schedules_only v || is_hdfs v.spec.communal
    then all_errs
    else report (v.spec.communal.credential_secret == "")
        (invalid (child "communal" ∷ child "credentialSecret" ∷ [])
          "communal.credentialSecret must exist")
        all_errs

-- `len` counts bytes. Each character of the list is reported, so `\`, which stands there twice, is
-- reported twice. The detail names the character in the source.
unfoldable pub has_valid_db_name : VerticaDb → ErrorList → ErrorList
has_valid_db_name v all_errs =
    each
      (λ _ c.
        report (contains_code c (codes v.spec.db_name))
          (invalid (child "dbName" ∷ []) "dbName cannot have the '%s' character"))
      0 invalid_db_name_chars
      (report (ltb db_name_length_limit (len v.spec.db_name))
        (invalid (child "dbName" ∷ []) "dbName cannot exceed 30 characters") all_errs)

unfoldable pub has_primary_subcluster : VerticaDb → ErrorList → ErrorList
has_primary_subcluster v =
    report (not (any (λ sc. sc.is_primary) v.spec.subclusters))
      (invalid (child "subclusters" ∷ []) "there must be at least one primary subcluster")

-- The sum is an `int`, which holds any sum of int32 sizes.
unfoldable pub get_cluster_size : List Subcluster → ℤ
get_cluster_size [] = pos 0
get_cluster_size (sc ∷ scs) = sc.size +ℤ get_cluster_size scs

unfoldable pub validate_ksafety : VerticaDb → ErrorList → ErrorList
validate_ksafety v all_errs =
    let size_sum = get_cluster_size v.spec.subclusters in
    let path = child "kSafety" ∷ [] in
    if schedules_only v
    then all_errs
    else if v.spec.k_safety == k_safety0
    then report (ltb_ℤ size_sum (pos 1) || ltb_ℤ (pos 3) size_sum)
        (invalid path
          "with kSafety 0, the total size of the cluster must have between 1 and 3 hosts")
        all_errs
    else if v.spec.k_safety == k_safety1
    then report (ltb_ℤ size_sum (pos 3))
        (invalid path "with kSafety 1, the total size of the cluster must have at least 3 hosts")
        all_errs
    else report true (invalid path "kSafety can only be 0 or 1") all_errs

unfoldable pub has_valid_kerberos_setup : VerticaDb → ErrorList → ErrorList
has_valid_kerberos_setup v all_errs =
    let realm = v.spec.communal.kerberos_realm in
    let service_name = v.spec.communal.kerberos_service_name in
    let secret = v.spec.kerberos_secret in
    if (realm == "" && service_name == "")
      || (not (realm == "") && not (service_name == "") && not (secret == ""))
    then all_errs
    else report (secret == "")
        (invalid (child "kerberosSecret" ∷ []) "kerberosSecret must be set if setting up Kerberos")
        (report (service_name == "")
          (invalid (child "communal" ∷ child "kerberosServiceName" ∷ [])
            "kerberosServiceName must be set if setting up Kerberos")
          (report (realm == "")
            (invalid (child "communal" ∷ child "kerberosRealm" ∷ [])
              "kerberosRealm must be set if setting up Kerberos")
            all_errs))

unfoldable pub validate_requeue_times : VerticaDb → ErrorList → ErrorList
validate_requeue_times v all_errs =
    report (ltb_ℤ v.spec.upgrade_requeue_time (pos 0))
      (invalid (child "upgradeRequeueTime" ∷ []) "upgradeRequeueTime cannot be negative")
      (report (ltb_ℤ v.spec.requeue_time (pos 0))
        (invalid (child "requeueTime" ∷ []) "requeueTime cannot be negative") all_errs)

unfoldable pub validate_encrypt_spread_comm : VerticaDb → ErrorList → ErrorList
validate_encrypt_spread_comm v =
    report
      (not (v.spec.encrypt_spread_comm == "")
        && not (v.spec.encrypt_spread_comm == encrypt_spread_comm_with_vertica))
      (invalid (child "encrpytSpreadComm" ∷ [])
        "encryptSpreadComm can either be an empty string or set to vertica")
