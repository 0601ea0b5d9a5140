-- ===== src/Api/Methods.antt =====
-- The methods of api/v1beta1/verticadb_types.go and verticaautoscaler_types.go, and the storage
-- tests at the top of verticadb_webhook.go.
use Prim.Native.Nat.{ℕ, zero, suc}
pub mod Names
use text.Mathlib.Text.{◌==◌}
use vertica_kubernetes.Prelude.{
  String, List, [], ◌∷◌, Option, none, some, Bool, true, false, not, ◌&&◌, if◌then◌else◌, any, keep,
  get_elem?,
}
use vertica_kubernetes.Prelude.Int.{ℤ, pos, ltb_ℤ}
use vertica_kubernetes.Prelude.Int32.{add32}
use vertica_kubernetes.Prelude.Maps.{insert}
use vertica_kubernetes.Prelude.Text.{has_prefix}
use vertica_kubernetes.Api.Types.{
  Subcluster, CommunalStorage, VerticaDb, VerticaDbCondition, SubclusterStatus, VerticaAutoscaler,
}
use vertica_kubernetes.Api.Constants.{
  hdfs_prefixes, s3_prefix, gcloud_prefix, azure_prefix, condition_true,
  online_upgrade_in_progress_index,
}

unfoldable pub get_service_name : Subcluster → String
get_service_name s = if s.service_name == "" then s.name else s.service_name

-- The test by which FindSubclusterForServiceName selects.
unfoldable pub serves : String → Subcluster → Bool
unfolding get_service_name
serves svc_name sc = get_service_name sc == svc_name

-- The pods of the selected subclusters, added up from the front in int32.
unfoldable pub sum_size : ℤ → List Subcluster → ℤ
sum_size total_size [] = total_size
sum_size total_size (sc ∷ scs) = sum_size (add32 total_size sc.size) scs

unfoldable pub find_subcluster_for_service_name : String → List Subcluster → List Subcluster × ℤ
unfolding sum_size
find_subcluster_for_service_name svc_name subclusters =
    let scs = keep (serves svc_name) subclusters in (scs, sum_size (pos 0) scs)

-- A later subcluster of the same name takes the place of an earlier one.
gen_subcluster_map_from : List (String × Subcluster) → List Subcluster → List (String × Subcluster)
gen_subcluster_map_from sc_map [] = sc_map
gen_subcluster_map_from sc_map (sc ∷ scs) = gen_subcluster_map_from (insert sc.name sc sc_map) scs

unfoldable pub gen_subcluster_map : List Subcluster → List (String × Subcluster)
unfolding gen_subcluster_map_from
gen_subcluster_map scs = gen_subcluster_map_from [] scs

unfoldable pub find_transient_subcluster : List Subcluster → Option Subcluster
find_transient_subcluster [] = none
find_transient_subcluster (sc ∷ scs) =
    if sc.is_transient then some sc else find_transient_subcluster scs

unfoldable pub find_subcluster_status : String → List SubclusterStatus → Option SubclusterStatus
find_subcluster_status sc_name [] = none
find_subcluster_status sc_name (s ∷ ss) =
    if s.name == sc_name then some s else find_subcluster_status sc_name ss

unfoldable pub requires_transient_subcluster : VerticaDb → Bool
requires_transient_subcluster v =
    not (v.spec.temporary_subcluster_routing.template.name == "")
    && ltb_ℤ (pos 0) v.spec.temporary_subcluster_routing.template.size

-- A condition beyond the end of the array is off.
abbrev pub status_is_true : Option VerticaDbCondition → Bool
status_is_true none = false
status_is_true (some c) = c.status == condition_true

unfoldable pub is_condition_index_set : VerticaDb → ℕ → Bool
is_condition_index_set v inx = status_is_true (get_elem? v.status.conditions inx)

unfoldable pub is_online_upgrade_in_progress : VerticaDb → Bool
unfolding is_condition_index_set
is_online_upgrade_in_progress v = is_condition_index_set v online_upgrade_in_progress_index

-- What BuildTransientSubcluster leaves out has Go's zero value; `zero_value` is that of the fields
-- whose type is a library's.
unfoldable pub build_transient_subcluster : VerticaDb → String → String → Subcluster
build_transient_subcluster v image_override zero_value =
    let template = v.spec.temporary_subcluster_routing.template in
    record {
      name = template.name;
      size = template.size;
      is_primary = false;
      is_transient = true;
      image_override = image_override;
      node_selector = template.node_selector;
      affinity = template.affinity;
      priority_class_name = template.priority_class_name;
      tolerations = template.tolerations;
      resources = template.resources;
      service_type = "";
      service_name = "";
      node_port = pos 0;
      external_ips = none;
      load_balancer_ip = "";
      service_annotations = zero_value;
    }

unfoldable pub is_hdfs : CommunalStorage → Bool
is_hdfs c = any (has_prefix c.path) hdfs_prefixes

unfoldable pub is_s3 : CommunalStorage → Bool
is_s3 c = has_prefix c.path s3_prefix

unfoldable pub is_gcloud : CommunalStorage → Bool
is_gcloud c = has_prefix c.path gcloud_prefix

unfoldable pub is_azure : CommunalStorage → Bool
is_azure c = has_prefix c.path azure_prefix

unfoldable pub can_use_template : VerticaAutoscaler → Bool
can_use_template v = ltb_ℤ (pos 0) v.spec.template.size
