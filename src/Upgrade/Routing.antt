-- ===== src/Upgrade/Routing.antt =====
-- Where an online upgrade sends the clients of a subcluster that it takes down
-- (pkg/controllers/vdb/onlineupgrade_reconciler.go).
pub mod Laws
use Prim.Native.String.{◌++◌}
use text.Mathlib.Text.{◌==◌}
use vertica_kubernetes.Prelude.{
  String, List, [], ◌∷◌, Option, none, some, Bool, true, false, not, ◌&&◌, if◌then◌else◌, any,
}
use vertica_kubernetes.Prelude.Maps.{lookup}
use vertica_kubernetes.Api.Types.{Subcluster, VerticaDb}
use vertica_kubernetes.Api.Methods.{gen_subcluster_map}
use vertica_kubernetes.Finder.{Labels}
use vertica_kubernetes.Labels.{
  make_svc_selector_labels_for_subcluster_name_routing,
  make_svc_selector_labels_for_service_name_routing,
}
use vertica_kubernetes.Upgrade.World.{StatefulSet, client_call}
use vertica_kubernetes.Upgrade.Transient.{Online, set_world}

-- The first subcluster that passes a test.
abbrev pub find_subcluster : (Subcluster → Bool) → List Subcluster → Option Subcluster
find_subcluster test [] = none
find_subcluster test (sc ∷ scs) = if test sc then some sc else find_subcluster test scs

abbrev pub or_first : Option Subcluster → List Subcluster → Option Subcluster
or_first (some sc) scs = some sc
or_first none [] = none
or_first none (sc ∷ scs) = some sc

-- `none` is nil, and for a primary the panic on a VerticaDB with no subcluster.
unfoldable pub pick_default_subcluster_for_temporary_routing :
    Subcluster → List Subcluster → Option Subcluster
pick_default_subcluster_for_temporary_routing offline_sc scs =
    if offline_sc.is_primary
    then or_first (find_subcluster (λ sc. not sc.is_primary) scs) scs
    else find_subcluster (λ sc. not (sc.name == offline_sc.name)) scs

-- The loop over the names that the VerticaDB lists, with the subcluster found last.
unfoldable pub pick_named :
    Subcluster → List (String × Subcluster) → List String → Option Subcluster → Option Subcluster
unfolding lookup
pick_named offline_sc sc_map [] routing_sc = routing_sc
pick_named offline_sc sc_map (route_name ∷ names) routing_sc = elim (lookup route_name sc_map) [
  | none ↦ pick_named offline_sc sc_map names routing_sc
  | some sc ↦
      let rest = pick_named offline_sc sc_map names (some sc) in
      if not (route_name == offline_sc.name) then some sc else rest
]

abbrev pub listed : Option (List String) → List String
listed none = []
listed (some names) = names

unfoldable pub pick_lasting : Subcluster → VerticaDb → Option Subcluster
unfolding pick_default_subcluster_for_temporary_routing pick_named gen_subcluster_map
pick_lasting offline_sc vdb = elim (listed vdb.spec.temporary_subcluster_routing.names) [
  | [] ↦ pick_default_subcluster_for_temporary_routing offline_sc vdb.spec.subclusters
  | name ∷ names ↦
      pick_named offline_sc (gen_subcluster_map vdb.spec.subclusters) (name ∷ names) none
]

-- Whether the statefulset of a subcluster exists, by the name that GenStsName gives.
unfoldable pub gen_sts_name : VerticaDb → Subcluster → String
gen_sts_name vdb sc = vdb.meta.name ++ "-" ++ sc.name

unfoldable pub has_stateful_set : String → List StatefulSet → Bool
has_stateful_set name stss = any (λ (s : StatefulSet). s.name == name) stss

unfoldable pub get_subcluster_for_temporary_routing :
    Subcluster → Online → Option Subcluster × Online
unfolding pick_lasting client_call gen_sts_name has_stateful_set
get_subcluster_for_temporary_routing offline_sc o =
    let (ok, w) = client_call o.world in
    elim o.transient_sc [
      | some transient_sc ↦ (
        if ok && has_stateful_set (gen_sts_name o.world.vdb transient_sc) w.statefulsets
            then some transient_sc
            else none,
        set_world w o,
      )
      | none ↦ (pick_lasting offline_sc o.world.vdb, o)
    ]

-- The selector that routeClientTraffic gives the Service object, which had `selector`.
unfoldable pub route_selector : Subcluster → Bool → Labels → Online → Labels × Online
unfolding get_subcluster_for_temporary_routing make_svc_selector_labels_for_subcluster_name_routing
    make_svc_selector_labels_for_service_name_routing
route_selector sc set_temporary_routing selector o =
    let (routing_sc, o') = get_subcluster_for_temporary_routing sc o in
    if set_temporary_routing
    then elim routing_sc [
      | none ↦ (selector, o')
      | some to ↦ (make_svc_selector_labels_for_subcluster_name_routing o.world.vdb to, o')
    ]
    else (make_svc_selector_labels_for_service_name_routing o.world.vdb sc, o)
