-- ===== src/Labels/Laws.antt =====
-- Which pods a Service object finds.
use mathlib.Core.Bool.{true≢false}
use text.Mathlib.Text.{◌==◌}
use text.Mathlib.TextEquality.{eq_iff}
use vertica_kubernetes.Prelude.{
  ◌≡◌, ◌≢◌, refl, sym, ◌∙◌, ◌↔◌, inl, inr, String, [], ◌∷◌, Option, none, some, Bool, true, false,
  arith, if◌then◌else◌, Bool-cases,
}
use vertica_kubernetes.Prelude.Maps.{lookup, insert, lookup-insert}
use vertica_kubernetes.Api.Types.{Subcluster, VerticaDb}
use vertica_kubernetes.Api.Methods.{get_service_name}
use vertica_kubernetes.Api.Paths.{get_type}
use vertica_kubernetes.Finder.{Labels, subcluster_name_label}
use vertica_kubernetes.Labels.{
  vdb_instance_label, subcluster_svc_name_label, client_routing_label, client_routing_val,
  subcluster_transient_label, subcluster_type_label, with_subcluster, copy_labels,
  make_subcluster_labels, make_operator_labels, make_common_labels, make_labels_for_object,
  make_labels_for_pod_object, make_base_svc_selector_labels,
  make_svc_selector_labels_for_service_name_routing,
  make_svc_selector_labels_for_subcluster_name_routing, format_bool,
}

-- A Service selects an object that has all labels of its selector, with their values.
abbrev pub Selects : Labels → Labels → Type 0
Selects [] labels = Unit
Selects ((k, v) ∷ selector) labels = (lookup k labels ≡ some v) × Selects selector labels

lookup-copy_labels-none :
    (k : String) (from to : Labels)
    → lookup k from ≡ none
    → lookup k (copy_labels from to) ≡ lookup k to
unfolding copy_labels lookup
lookup-copy_labels-none k [] to h = refl
lookup-copy_labels-none k ((j, v) ∷ from) to h =
    ground (arith, lookup-copy_labels-none k from (insert j v to), lookup-insert j k v to)

-- The labels of a pod, with the one that lets Service objects route to it or without.
abbrev pub pod_labels : VerticaDb → Subcluster → Bool → Labels
pod_labels vdb sc routed =
    if routed
    then insert client_routing_label client_routing_val (make_labels_for_pod_object vdb sc)
    else make_labels_for_pod_object vdb sc

lookup-make_labels_for_pod_object :
    (k : String) (vdb : VerticaDb) (sc : Subcluster)
    → lookup k vdb.spec.labels ≡ none
    → lookup k (make_labels_for_pod_object vdb sc)
      ≡ lookup k (copy_labels (make_subcluster_labels sc) (make_operator_labels vdb))
unfolding make_labels_for_pod_object make_labels_for_object make_common_labels with_subcluster
lookup-make_labels_for_pod_object k vdb sc h = lookup-copy_labels-none k vdb.spec.labels _ h

lookup-pod_labels :
    (k : String) (vdb : VerticaDb) (sc : Subcluster) (routed : Bool)
    → k ≢ client_routing_label
    → lookup k vdb.spec.labels ≡ none
    → lookup k (pod_labels vdb sc routed)
      ≡ lookup k (copy_labels (make_subcluster_labels sc) (make_operator_labels vdb))
lookup-pod_labels k vdb sc true ne h = ground (
  arith,
  lookup-insert client_routing_label k client_routing_val (make_labels_for_pod_object vdb sc),
  eq_iff client_routing_label k,
  lookup-make_labels_for_pod_object k vdb sc h,
)
lookup-pod_labels k vdb sc false ne h = lookup-make_labels_for_pod_object k vdb sc h

differ : (a b : String) → a == b ≡ false → a ≢ b
differ a b h e = true≢false (sym ((eq_iff a b).1 e) ∙ h)

-- The labels that the operator gives, by what the subcluster is.
svc_name : Subcluster → Option String
svc_name sc = if sc.is_transient then none else some (get_service_name sc)

lookup-labels :
    (vdb : VerticaDb) (sc : Subcluster)
    → let labels = copy_labels (make_subcluster_labels sc) (make_operator_labels vdb) in
      (lookup vdb_instance_label labels ≡ some vdb.meta.name)
      × (lookup subcluster_name_label labels ≡ some sc.name)
      × (lookup subcluster_svc_name_label labels ≡ svc_name sc)
      × (lookup subcluster_transient_label labels ≡ some (format_bool sc.is_transient))
      × (lookup subcluster_type_label labels ≡ some (get_type sc))
unfolding lookup insert copy_labels make_subcluster_labels make_operator_labels svc_name
lookup-labels vdb sc = elim (Bool-cases sc.is_transient) [
  | inl e ↦ rw e (refl, refl, refl, refl, refl)
  | inr e ↦ rw e (refl, refl, refl, refl, refl)
]

lookup-own_routing :
    (vdb : VerticaDb) (sc : Subcluster)
    → lookup client_routing_label
        (copy_labels (make_subcluster_labels sc) (make_operator_labels vdb))
      ≡ none
unfolding lookup insert copy_labels make_subcluster_labels make_operator_labels
lookup-own_routing vdb sc = elim (Bool-cases sc.is_transient) [
  | inl e ↦ rw e refl
  | inr e ↦ rw e refl
]

svc_name_iff :
    (sc : Subcluster) (name : String)
    → svc_name sc ≡ some name ↔ ((sc.is_transient ≡ false) × (get_service_name sc ≡ name))
unfolding svc_name
svc_name_iff sc name = ground arith

module _ (vdb : VerticaDb) (pod_sc : Subcluster) (routed : Bool)
    (no_instance : lookup vdb_instance_label vdb.spec.labels ≡ none)
    (no_svc : lookup subcluster_svc_name_label vdb.spec.labels ≡ none)
    (no_name : lookup subcluster_name_label vdb.spec.labels ≡ none)
    (no_routing : lookup client_routing_label vdb.spec.labels ≡ none) where
  abbrev labels : Labels
  labels = pod_labels vdb pod_sc routed

  own : Labels
  own = copy_labels (make_subcluster_labels pod_sc) (make_operator_labels vdb)

  routing_of :
      lookup client_routing_label labels ≡ (if routed then some client_routing_val else none)
  routing_of = routing routed
    where
      base : lookup client_routing_label (make_labels_for_pod_object vdb pod_sc) ≡ none
      base =
          lookup-make_labels_for_pod_object client_routing_label vdb pod_sc no_routing
          ∙ lookup-own_routing vdb pod_sc

      routing :
          (b : Bool)
          → lookup client_routing_label (pod_labels vdb pod_sc b)
            ≡ (if b then some client_routing_val else none)
      routing true =
          lookup-insert client_routing_label client_routing_label client_routing_val
            (make_labels_for_pod_object vdb pod_sc)
      routing false = base

  instance_of : lookup vdb_instance_label labels ≡ some vdb.meta.name
  instance_of =
      lookup-pod_labels vdb_instance_label vdb pod_sc routed (differ _ _ refl) no_instance
      ∙ (lookup-labels vdb pod_sc).0

  name_of : lookup subcluster_name_label labels ≡ some pod_sc.name
  name_of =
      lookup-pod_labels subcluster_name_label vdb pod_sc routed (differ _ _ refl) no_name
      ∙ (lookup-labels vdb pod_sc).1

  svc_of : lookup subcluster_svc_name_label labels ≡ svc_name pod_sc
  svc_of =
      lookup-pod_labels subcluster_svc_name_label vdb pod_sc routed (differ _ _ refl) no_svc
      ∙ (lookup-labels vdb pod_sc).2

  -- The Service of a subcluster that routes by the service's name selects the pods of a subcluster of
  -- the same VerticaDB, where the VerticaDB's own labels leave the operator's four keys alone, exactly
  -- when the pod has the routing label, its subcluster is not the transient one, and the service
  -- names of the two subclusters agree; so subclusters that share a service name share its pods.
  pub service_name_routing_iff :
      (sc : Subcluster)
      → Selects (make_svc_selector_labels_for_service_name_routing vdb sc) labels ↔ (
          (routed ≡ true)
          × (pod_sc.is_transient ≡ false)
          × (get_service_name pod_sc ≡ get_service_name sc))
  unfolding make_svc_selector_labels_for_service_name_routing make_base_svc_selector_labels insert
  service_name_routing_iff sc =
      ground (arith, instance_of, svc_of, routing_of, svc_name_iff pod_sc (get_service_name sc))

  -- The Service of a subcluster that routes by the subcluster's name selects the pods of a subcluster
  -- of the same VerticaDB, where the VerticaDB's own labels leave the operator's four keys alone,
  -- exactly when the pod has the routing label and its subcluster has that name; the transient
  -- subcluster's pods are among them.
  pub subcluster_name_routing_iff :
      (sc : Subcluster)
      → Selects (make_svc_selector_labels_for_subcluster_name_routing vdb sc) labels
        ↔ ((routed ≡ true) × (pod_sc.name ≡ sc.name))
  unfolding make_svc_selector_labels_for_subcluster_name_routing make_base_svc_selector_labels
      insert
  subcluster_name_routing_iff sc = ground (arith, instance_of, name_of, routing_of)
