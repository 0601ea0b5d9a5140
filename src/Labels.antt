-- ===== src/Labels.antt =====
-- pkg/builder/labels_annotations.go: the labels of the operator's objects, and the selectors by
-- which Service objects find pods.
pub mod Laws
use text.Mathlib.Text.{◌==◌}
use vertica_kubernetes.Prelude.{
  String, List, [], ◌∷◌, Option, none, some, Bool, true, false, not, ◌&&◌, ◌||◌, if◌then◌else◌, any,
}
use vertica_kubernetes.Prelude.Maps.{lookup, insert}
use vertica_kubernetes.Api.Types.{Subcluster, VerticaDb}
use vertica_kubernetes.Api.Methods.{get_service_name}
use vertica_kubernetes.Api.Paths.{get_type}
use vertica_kubernetes.Finder.{Labels, subcluster_name_label}

abbrev pub svc_type_label : String
svc_type_label = "vertica.com/svc-type"

abbrev pub subcluster_type_label : String
subcluster_type_label = "vertica.com/subcluster-type"

abbrev pub subcluster_svc_name_label : String
subcluster_svc_name_label = "vertica.com/subcluster-svc"

abbrev pub subcluster_transient_label : String
subcluster_transient_label = "vertica.com/subcluster-transient"

abbrev pub client_routing_label : String
client_routing_label = "vertica.com/client-routing"

abbrev pub client_routing_val : String
client_routing_val = "true"

abbrev pub vdb_instance_label : String
vdb_instance_label = "app.kubernetes.io/instance"

abbrev pub operator_version_label : String
operator_version_label = "app.kubernetes.io/version"

abbrev pub managed_by_label : String
managed_by_label = "app.kubernetes.io/managed-by"

abbrev pub operator_name : String
operator_name = "verticadb-operator"

abbrev pub cur_operator_version : String
cur_operator_version = "1.7.0"

-- strconv.FormatBool and strconv.ParseBool, whose error is none.
abbrev pub format_bool : Bool → String
format_bool true = "true"
format_bool false = "false"

unfoldable pub parse_bool : String → Option Bool
parse_bool s =
    if any (λ t. s == t) ("1" ∷ "t" ∷ "T" ∷ "true" ∷ "TRUE" ∷ "True" ∷ [])
    then some true
    else if any (λ t. s == t) ("0" ∷ "f" ∷ "F" ∷ "false" ∷ "FALSE" ∷ "False" ∷ [])
    then some false
    else none

-- `for k, v := range from { to[k] = v }`, in any order: the keys of `from` differ.
unfoldable pub copy_labels : Labels → Labels → Labels
copy_labels [] to = to
copy_labels ((k, v) ∷ from) to = copy_labels from (insert k v to)

unfoldable pub make_subcluster_labels : Subcluster → Labels
unfolding get_service_name
make_subcluster_labels sc =
    let m =
      (subcluster_name_label, sc.name)
      ∷ (subcluster_type_label, get_type sc)
      ∷ (subcluster_transient_label, format_bool sc.is_transient)
      ∷ [] in
    if sc.is_transient then m else insert subcluster_svc_name_label (get_service_name sc) m

unfoldable pub make_operator_labels : VerticaDb → Labels
make_operator_labels vdb =
    (managed_by_label, operator_name)
    ∷ ("app.kubernetes.io/name", "vertica")
    ∷ (vdb_instance_label, vdb.meta.name)
    ∷ ("app.kubernetes.io/component", "database")
    ∷ ("vertica.com/database", vdb.spec.db_name)
    ∷ []

-- The subcluster's labels, if there is a subcluster.
unfoldable pub with_subcluster : Option Subcluster → Labels → Labels
unfolding copy_labels make_subcluster_labels
with_subcluster none labels = labels
with_subcluster (some sc) labels = copy_labels (make_subcluster_labels sc) labels

unfoldable pub make_common_labels : VerticaDb → Option Subcluster → Bool → Labels
unfolding make_operator_labels with_subcluster
make_common_labels vdb sc for_pod =
    let labels = make_operator_labels vdb in
    with_subcluster sc
      (if for_pod then labels else insert operator_version_label cur_operator_version labels)

unfoldable pub make_labels_for_object : VerticaDb → Option Subcluster → Bool → Labels
unfolding make_common_labels copy_labels
make_labels_for_object vdb sc for_pod =
    copy_labels vdb.spec.labels (make_common_labels vdb sc for_pod)

unfoldable pub make_labels_for_pod_object : VerticaDb → Subcluster → Labels
unfolding make_labels_for_object
make_labels_for_pod_object vdb sc = make_labels_for_object vdb (some sc) true

unfoldable pub make_labels_for_sts_object : VerticaDb → Subcluster → Labels
unfolding make_labels_for_object
make_labels_for_sts_object vdb sc = make_labels_for_object vdb (some sc) false

unfoldable pub make_labels_for_svc_object : VerticaDb → Option Subcluster → String → Labels
unfolding make_labels_for_object
make_labels_for_svc_object vdb sc svc_type =
    insert svc_type_label svc_type (make_labels_for_object vdb sc false)

unfoldable pub make_base_svc_selector_labels : VerticaDb → Labels
make_base_svc_selector_labels vdb = (vdb_instance_label, vdb.meta.name) ∷ []

unfoldable pub make_svc_selector_labels_for_service_name_routing : VerticaDb → Subcluster → Labels
unfolding make_base_svc_selector_labels get_service_name
make_svc_selector_labels_for_service_name_routing vdb sc =
    insert client_routing_label client_routing_val
      (insert subcluster_svc_name_label (get_service_name sc) (make_base_svc_selector_labels vdb))

unfoldable pub make_svc_selector_labels_for_subcluster_name_routing :
    VerticaDb → Subcluster → Labels
unfolding make_base_svc_selector_labels
make_svc_selector_labels_for_subcluster_name_routing vdb sc =
    insert client_routing_label client_routing_val
      (insert subcluster_name_label sc.name (make_base_svc_selector_labels vdb))

unfoldable pub make_sts_selector_labels : VerticaDb → Subcluster → Labels
unfolding make_base_svc_selector_labels
make_sts_selector_labels vdb sc =
    insert subcluster_name_label sc.name (make_base_svc_selector_labels vdb)
