-- ===== src/Api/Webhook/Immutable.antt =====
-- validateImmutableFields and ValidateUpdate: what an update may not change.
pub mod Laws
pub mod Subclusters
use text.Mathlib.Text.{◌==◌}
use mathlib.Core.Bool.{decide}
use vertica_kubernetes.Prelude.{
  ℕ, zero, suc, String, List, [], ◌∷◌, ◌++◌, Option, none, some, Bool, true, false, not, ◌&&◌, ◌||◌,
  any, if◌then◌else◌, is_some,
}
use vertica_kubernetes.Prelude.Int.{ℤ, pos, ltb_ℤ, eqb_ℤ}
use vertica_kubernetes.Prelude.Maps.{insert, lookup}
use vertica_kubernetes.Api.Types.{
  Subcluster, Subcluster-discrete, SubclusterStatus, VerticaDb, Opaque,
}
use vertica_kubernetes.Api.Constants.{image_change_in_progress_index}
use vertica_kubernetes.Api.Methods.{is_condition_index_set}
use vertica_kubernetes.Api.Webhook.Errors.{child, ErrorList, invalid, report}
use vertica_kubernetes.Api.Webhook.Cluster.{is_empty}
use vertica_kubernetes.Api.Webhook.Subclusters.{same_external_ips}
use vertica_kubernetes.Api.Webhook.Create.{validate_verticadb_spec, as_error}

-- The old subclusters, up to the length of the old status, that have a node in the database.
unfoldable pub added_to_db :
    List (String × Subcluster)
    → List Subcluster
    → List SubclusterStatus
    → List (String × Subcluster)
added_to_db sc_map [] ss = sc_map
added_to_db sc_map (sc ∷ scs) [] = sc_map
added_to_db sc_map (sc ∷ scs) (s ∷ ss) =
    added_to_db (if ltb_ℤ (pos 0) s.added_to_db_count then insert sc.name sc sc_map else sc_map) scs
      ss

unfoldable pub can_update_sc_name : VerticaDb → VerticaDb → Bool
unfolding added_to_db
can_update_sc_name v old_obj =
    let sc_map = added_to_db [] old_obj.spec.subclusters old_obj.status.subclusters in
    if is_empty sc_map
    then true
    else any (λ sc_new. is_some (lookup sc_new.name sc_map)) v.spec.subclusters

-- The map from the names of subclusters to `isPrimary`.
unfoldable pub name_to_primary_map : List (String × Bool) → List Subcluster → List (String × Bool)
name_to_primary_map m [] = m
name_to_primary_map m (sc ∷ scs) = name_to_primary_map (insert sc.name sc.is_primary m) scs

-- `isPrimary, ok := m[name]; ok && isPrimary != b`
abbrev pub has_other_type : Option Bool → Bool → Bool
has_other_type none b = false
has_other_type (some true) b = not b
has_other_type (some false) b = b

-- The first subcluster whose type changes, if there is one.
unfoldable pub first_changed : List (String × Bool) → List Subcluster → Option Subcluster
first_changed m [] = none
first_changed m (sc ∷ scs) =
    if has_other_type (lookup sc.name m) sc.is_primary then some sc else first_changed m scs

unfoldable pub is_subcluster_type_is_changing : VerticaDb → VerticaDb → Option Subcluster
unfolding name_to_primary_map first_changed
is_subcluster_type_is_changing v old_obj =
    first_changed (name_to_primary_map [] old_obj.spec.subclusters) v.spec.subclusters

unfoldable pub is_image_change_in_progress : VerticaDb → Bool
unfolding is_condition_index_set
is_image_change_in_progress v = is_condition_index_set v image_change_in_progress_index

unfoldable pub check_immutable_upgrade_policy : VerticaDb → VerticaDb → ErrorList → ErrorList
check_immutable_upgrade_policy v old_obj all_errs =
    if v.spec.upgrade_policy == old_obj.spec.upgrade_policy
      || not (is_image_change_in_progress old_obj)
    then all_errs
    else report true
        (invalid (child "upgradePolicy" ∷ [])
          "upgradePolicy cannot change because upgrade is in progress")
        all_errs

-- reflect.DeepEqual on two subclusters.
unfoldable pub same_subcluster : Subcluster → Subcluster → Bool
unfolding decide
same_subcluster a b = decide (Subcluster-discrete a b)

unfoldable pub check_immutable_temporary_subcluster_routing :
    VerticaDb → VerticaDb → ErrorList → ErrorList
check_immutable_temporary_subcluster_routing v old_obj all_errs =
    let routing = v.spec.temporary_subcluster_routing in
    let old_routing = old_obj.spec.temporary_subcluster_routing in
    if not (is_image_change_in_progress old_obj)
    then all_errs
    else report (not (same_subcluster routing.template old_routing.template))
        (invalid (child "temporarySubclusterRouting" ∷ child "template" ∷ [])
          "template for temporasySubclusterRouting cannot change when an upgrade is in progress")
        (report (not (same_external_ips routing.names old_routing.names))
          (invalid (child "temporarySubclusterRouting" ∷ child "names" ∷ [])
            "subcluster names for temporasySubclusterRouting cannot change when an upgrade is in progress")
          all_errs)

unfoldable pub check_immutable_encrypt_spread_comm : VerticaDb → VerticaDb → ErrorList → ErrorList
check_immutable_encrypt_spread_comm v old_obj =
    report (not (v.spec.encrypt_spread_comm == old_obj.spec.encrypt_spread_comm))
      (invalid (child "encryptSpreadComm" ∷ []) "encryptSpreadComm cannot change after creation")

-- The settings of the database and its storage that are fixed; `same_quantity` is the test that
-- resource.Quantity's `Cmp` returns 0.
unfoldable pub check_fixed_fields :
    (Opaque → Opaque → Bool) → VerticaDb → VerticaDb → ErrorList → ErrorList
check_fixed_fields same_quantity v old_obj all_errs =
    let s = v.spec in
    let o = old_obj.spec in
    report (not (s.local.storage_class == o.local.storage_class))
      (invalid (child "local" ∷ child "storageClass" ∷ [])
        "local.storageClass cannot change after creation")
      (report (not (same_quantity s.local.request_size o.local.request_size))
        (invalid (child "local" ∷ child "requestSize" ∷ [])
          "local.requestSize cannot change after creation")
        (report (not (s.communal.endpoint == o.communal.endpoint))
          (invalid (child "communal" ∷ child "endpoint" ∷ [])
            "communal.endpoint cannot change after creation")
          (report (not (s.communal.path == o.communal.path))
            (invalid (child "communal" ∷ child "path" ∷ [])
              "communal.path cannot change after creation")
            (report (not (eqb_ℤ s.shard_count o.shard_count))
              (invalid (child "shardCount" ∷ []) "shardCount cannot change after creation.")
              (report (not (s.local.depot_path == o.local.depot_path))
                (invalid (child "local" ∷ child "depotPath" ∷ [])
                  "depotPath cannot change after creation.")
                (report (not (s.local.data_path == o.local.data_path))
                  (invalid (child "local" ∷ child "dataPath" ∷ [])
                    "dataPath cannot change after creation.")
                  (report (not (s.db_name == o.db_name))
                    (invalid (child "dbName" ∷ []) "dbName cannot change after creation.")
                    (report (not (s.init_policy == o.init_policy))
                      (invalid (child "initPolicy" ∷ []) "initPolicy cannot change after creation.")
                      (report (not (s.k_safety == o.k_safety))
                        (invalid (child "kSafety" ∷ []) "kSafety cannot change after creation.")
                        all_errs)))))))))

-- The detail of the second error names the subcluster in the source.
unfoldable pub validate_immutable_fields :
    (Opaque → Opaque → Bool) → VerticaDb → VerticaDb → ErrorList
unfolding check_fixed_fields
validate_immutable_fields same_quantity v old_obj = check_immutable_encrypt_spread_comm v old_obj (
    check_immutable_temporary_subcluster_routing v old_obj (
      check_immutable_upgrade_policy v old_obj (
        report (is_some (is_subcluster_type_is_changing v old_obj))
          (invalid (child "subclusters" ∷ child "isPrimary" ∷ [])
            "subcluster %s cannot have its isPrimary type change")
          (report (not (can_update_sc_name v old_obj))
            (invalid (child "subclusters" ∷ [])
              "at least one subcluster name should match its old name")
            (check_fixed_fields same_quantity v old_obj [])))))

unfoldable pub validate_update : (Opaque → Opaque → Bool) → VerticaDb → VerticaDb → Option ErrorList
unfolding validate_immutable_fields
validate_update same_quantity v old_obj =
    as_error (validate_immutable_fields same_quantity v old_obj ++ validate_verticadb_spec v)
