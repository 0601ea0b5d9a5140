-- ===== src/Upgrade/Online.antt =====
-- pkg/controllers/vdb/onlineupgrade_reconciler.go: the restart of the subclusters one after another,
-- and Reconcile.
pub mod Laws
pub mod Reconcile
pub mod Recreate
pub mod Wait
use Prim.Native.String.{◌++◌ as concat}
use text.Mathlib.Text.{◌==◌}
use vertica_kubernetes.Prelude.{
  ℕ, zero, suc, ◌≡◌, String, List, [], ◌∷◌, ◌++◌, Option, none, some, Bool, true, false, not, ◌&&◌,
  ◌||◌, if◌then◌else◌, ltb, ◌==◌ as nat_eq,
}
use vertica_kubernetes.Prelude.Maps.{lookup}
use vertica_kubernetes.Prelude.Text.{codes}
use vertica_kubernetes.Api.Types.{Subcluster, VerticaDb}
use vertica_kubernetes.Api.Methods.{gen_subcluster_map}
use vertica_kubernetes.PodFacts.{
  PodFact, find_pod_to_run_vsql, count_up_primary_nodes, count_not_read_only_with_old_image,
}
use vertica_kubernetes.Finder.{Labels, find_existing, label_text, subcluster_name_label}
use vertica_kubernetes.Upgrade.World.{
  StatefulSet, World, Outcome, proceed, fail_with, try_again, Step, is_reconcile_aborted,
}
use vertica_kubernetes.Upgrade.Manager.{post_next_status_msg, add_event}
use vertica_kubernetes.Upgrade.Images.{
  find_stateful_sets, update_image_in_stateful_set, delete_pods_running_old_image,
}
use vertica_kubernetes.Upgrade.Offline.{invalidate_if, check_version}
use vertica_kubernetes.Upgrade.Transient.{
  Online, OnlineStep, set_world, primary_subcluster_type, is_matching_subcluster_type,
}
use vertica_kubernetes.Upgrade.Routing.{route_selector}

-- What the reconciler calls of other reconcilers, of vsql and of the Service objects. Where a name is
-- taken it is that of the subcluster. The selector of its Service is none where there is no such
-- object, and the outer none is an error.
pub record OnlineActors : Type 0 where
  pub exec_vsql : PodFact → String → World → Option String × World
  pub service_selector : Subcluster → World → Option (Option Labels)
  pub reconcile_ext_svc : Subcluster → Labels → Step
  pub version : String → Step
  pub annotate_and_label_pod : Step
  pub install : Step
  pub restart : Step
  pub client_routing_label : String → Step

abbrev pub secondary_subcluster_type : String
secondary_subcluster_type = "secondary"

abbrev pub SetStep : Type 0
SetStep = StatefulSet → OnlineStep

abbrev pub on_world : Step → OnlineStep
on_world step o = let (res, w) = step o.world in (res, set_world w o)

-- `sts.Labels[builder.SubclusterNameLabel]`.
unfoldable pub name_label : StatefulSet → String
unfolding lookup
name_label sts = label_text (lookup subcluster_name_label sts.labels)

-- The loop of iterateSubclusterType.
unfoldable pub process_all : String → SetStep → List StatefulSet → OnlineStep
unfolding is_matching_subcluster_type is_reconcile_aborted
process_all sc_type process_func [] o = (proceed, o)
process_all sc_type process_func (sts ∷ stss) o = elim (is_matching_subcluster_type sts sc_type) [
  | none ↦ (fail_with "the transient label is no truth value", o)
  | some false ↦ process_all sc_type process_func stss o
  | some true ↦
      let (res, o') = process_func sts o in
      let rest = process_all sc_type process_func stss o' in
      if is_reconcile_aborted res then (res, o') else rest
]

-- The order by name that the finder is asked for is left to the list of statefulsets.
unfoldable pub iterate_subcluster_type : String → SetStep → OnlineStep
unfolding process_all find_stateful_sets
iterate_subcluster_type sc_type process_func o =
    let (found, w) = find_stateful_sets find_existing o.world in
    elim found [
      | none ↦ (fail_with "list of the statefulsets failed", set_world w o)
      | some stss ↦ process_all sc_type process_func stss (set_world w o)
    ]

abbrev pub primary_msgs : List String
primary_msgs =
    "Creating transient secondary subcluster" ∷ "Draining primary subclusters"
    ∷ "Recreating pods for primary subclusters" ∷ "Checking if new version is compatible"
    ∷ "Adding annotations to pods" ∷ "Running installer"
    ∷ "Waiting for secondary nodes to become read-only"
    ∷ "Restarting vertica in primary subclusters" ∷ []

abbrev pub quoted : String → String → String
quoted text name = concat text (concat "'" (concat name "'"))

unfoldable pub secondary_msgs : SetStep
unfolding name_label
secondary_msgs sts o =
    let name = name_label sts in
    (
      proceed,
      record o {
        status_msgs =
            o.status_msgs
            ++ (quoted "Draining secondary subcluster " name
                ∷ quoted "Recreating pods for secondary subcluster " name
                ∷ quoted "Restarting vertica in secondary subcluster " name
                ∷ []);
      },
    )

unfoldable pub precompute_status_msgs : OnlineStep
unfolding iterate_subcluster_type secondary_msgs is_reconcile_aborted
precompute_status_msgs o =
    let (res, o') =
      iterate_subcluster_type secondary_subcluster_type secondary_msgs
        (record o { status_msgs = primary_msgs }) in
    if is_reconcile_aborted res then (res, o') else (
      proceed,
      record o' {
        status_msgs = o'.status_msgs ++ "Destroying transient secondary subcluster" ∷ [];
        posted = 0;
      },
    )

unfoldable pub post_online_msg : OnlineStep
unfolding post_next_status_msg
post_online_msg o =
    let (res, w) = post_next_status_msg o.status_msgs o.posted o.world in
    (res, record o { world = w; posted = suc o.posted })

-- `strings.Trim(lines[0], " ")`, on code points.
abbrev pub first_line : List ℕ → List ℕ
first_line [] = []
first_line (c ∷ cs) = if nat_eq c 10 then [] else c ∷ first_line cs

abbrev pub trim_left : List ℕ → List ℕ
trim_left [] = []
trim_left (c ∷ cs) = if nat_eq c 32 then trim_left cs else c ∷ cs

abbrev pub trim_after : ℕ → List ℕ → List ℕ
trim_after c [] = if nat_eq c 32 then [] else c ∷ []
trim_after c (d ∷ cs) = c ∷ d ∷ cs

abbrev pub trim_right : List ℕ → List ℕ
trim_right [] = []
trim_right (c ∷ cs) = trim_after c (trim_right cs)

-- `res != "" && res != "0"`.
abbrev pub is_count : List ℕ → Bool
is_count [] = false
is_count (c ∷ []) = not (nat_eq c 48)
is_count (c ∷ d ∷ cs) = true

unfoldable pub any_active_connections : String → Bool
any_active_connections stdout = is_count (trim_right (trim_left (first_line (codes stdout))))

unfoldable pub is_subcluster_idle : OnlineActors → String → OnlineStep
unfolding any_active_connections find_pod_to_run_vsql
is_subcluster_idle actors sc_name o = elim (find_pod_to_run_vsql true sc_name o.world.pfacts) [
  | none ↦ (proceed, o)
  | some pf ↦
      let (stdout, w) = actors.exec_vsql pf sc_name o.world in
      elim stdout [
        | none ↦ (fail_with "vsql failed", set_world w o)
        | some out ↦
            if any_active_connections out
            then (try_again, set_world (add_event "DrainSubclusterRetry" w) o)
            else (proceed, set_world w o)
      ]
]

unfoldable pub route_client_traffic : OnlineActors → String → Bool → OnlineStep
unfolding lookup gen_subcluster_map route_selector
route_client_traffic actors sc_name set_temporary_routing o =
    elim (lookup sc_name (gen_subcluster_map o.world.vdb.spec.subclusters)) [
      | none ↦ (fail_with "we are routing for a subcluster that isn't in the vdb", o)
      | some sc ↦ elim (actors.service_selector sc o.world) [
        | none ↦ (fail_with "fetch of the service failed", o)
        | some none ↦ (proceed, o)
        | some (some selector) ↦
            let (to, o') = route_selector sc set_temporary_routing selector o in
            on_world (actors.reconcile_ext_svc sc to) o'
      ]
    ]

-- The second step, if the first does not return an error.
abbrev pub online_then : Outcome × Online → OnlineStep → Outcome × Online
online_then (res, o) next = elim res.err [ some e ↦ (res, o) | none ↦ next o ]

-- The second step, if the first is not aborted.
abbrev pub unless_aborted : Outcome × Online → OnlineStep → Outcome × Online
unless_aborted (res, o) next = if is_reconcile_aborted res then (res, o) else next o

unfoldable pub drain_subcluster : OnlineActors → SetStep
unfolding route_client_traffic is_subcluster_idle name_label
drain_subcluster actors sts o =
    if not (sts.image == o.world.vdb.spec.image)
    then online_then (route_client_traffic actors (name_label sts) true o)
        (is_subcluster_idle actors (name_label sts))
    else (proceed, o)

unfoldable pub delete_old_pods : String → Step
unfolding delete_pods_running_old_image
delete_old_pods sc_name w =
    let (pods_deleted, err, w') = delete_pods_running_old_image sc_name w in
    elim err [
      | some e ↦ (fail_with e, w')
      | none ↦ (proceed, invalidate_if (ltb 0 pods_deleted) w')
    ]

unfoldable pub recreate_subcluster_with_new_image : SetStep
unfolding update_image_in_stateful_set delete_old_pods name_label
recreate_subcluster_with_new_image sts o =
    let (updated, w) = update_image_in_stateful_set sts o.world in
    elim updated [
      | none ↦ (fail_with "update of the statefulset failed", set_world w o)
      | some sts_changed ↦
          on_world (delete_old_pods (name_label sts)) (set_world (invalidate_if sts_changed w) o)
    ]

unfoldable pub wait_for_read_only : SetStep
unfolding count_up_primary_nodes count_not_read_only_with_old_image
wait_for_read_only sts o =
    if not (nat_eq (count_up_primary_nodes o.world.pfacts) 0)
    then (proceed, o)
    else if nat_eq (count_not_read_only_with_old_image sts.image o.world.pfacts) 0
    then (proceed, o)
    else (try_again, o)

unfoldable pub bring_subcluster_online : OnlineActors → SetStep
unfolding is_reconcile_aborted route_client_traffic name_label
bring_subcluster_online actors sts o = unless_aborted (on_world actors.restart o) (λ o1.
    unless_aborted (on_world (actors.client_routing_label (name_label sts)) o1)
      (route_client_traffic actors (name_label sts) false))
