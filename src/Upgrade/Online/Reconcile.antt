-- ===== src/Upgrade/Online/Reconcile.antt =====
-- The order of the steps of an online upgrade: the functions of OnlineUpgradeReconciler that call
-- the others, up to Reconcile.
use vertica_kubernetes.Prelude.{
  String, List, [], ◌∷◌, Option, none, some, true, false, not, if◌then◌else◌,
}
use vertica_kubernetes.Api.Types.{Subcluster}
use vertica_kubernetes.Api.Methods.{requires_transient_subcluster}
use vertica_kubernetes.Upgrade.World.{
  proceed, fail_with, Step, is_reconcile_aborted, with_requeue_time,
}
use vertica_kubernetes.Upgrade.Manager.{start_upgrade, finish_upgrade}
use vertica_kubernetes.Upgrade.Policy.{online_upgrade_allowed, is_upgrade_needed}
use vertica_kubernetes.Upgrade.Offline.{check_version, get_upgrade_requeue_time}
use vertica_kubernetes.Upgrade.Transient.{
  OnlineStep, set_world, primary_subcluster_type, load_subcluster_state, skip_transient_setup,
  add_transient_to_vdb, remove_transient_from_vdb,
}
use vertica_kubernetes.Upgrade.Online.{
  OnlineActors, SetStep, on_world, name_label, secondary_subcluster_type, iterate_subcluster_type,
  precompute_status_msgs, post_online_msg, drain_subcluster, recreate_subcluster_with_new_image,
  wait_for_read_only, bring_subcluster_online, online_then, unless_aborted,
}

abbrev pub online_upgrade_in_progress : String
online_upgrade_in_progress = "OnlineUpgradeInProgress"

-- What the steps for the transient subcluster call, which for some is a function of the subcluster
-- that is cached, and the collection of facts.
pub record TransientActors : Type 0 where
  pub collect : Step
  pub reconcile_sts : Option Subcluster → Step
  pub add_missing_subclusters : Option Subcluster → Step
  pub reconcile_subcluster : Option Subcluster → Step
  pub rebalance_shards : Option Subcluster → Step
  pub add_routing_label : Option Subcluster → Step
  pub del_routing_label : Step
  pub remove_subcluster : Step
  pub uninstall : Step
  pub reconcile_objects : Step

-- The loop over functions, where the first that aborts ends it.
unfoldable pub run_online : List OnlineStep → OnlineStep
unfolding is_reconcile_aborted
run_online [] o = (proceed, o)
run_online (fn ∷ fns) o =
    let (res, o') = fn o in
    let rest = run_online fns o' in if is_reconcile_aborted res then (res, o') else rest

abbrev pub unless_skipped : OnlineStep → OnlineStep
unless_skipped step o = if skip_transient_setup o then (proceed, o) else step o

abbrev pub if_required : OnlineStep → OnlineStep
if_required step o =
    if not (requires_transient_subcluster o.world.vdb) then (proceed, o) else step o

-- A step that needs the facts and is about the cached subcluster.
abbrev pub with_facts : Step → (Option Subcluster → Step) → OnlineStep
with_facts collect step o =
    online_then (on_world collect o) (λ o'. on_world (step o'.transient_sc) o')

abbrev pub on_transient : (Option Subcluster → Step) → OnlineStep
on_transient step o = on_world (step o.transient_sc) o

abbrev pub check_set_version : OnlineActors → SetStep
check_set_version actors sts = on_world (check_version (actors.version (name_label sts)))

unfoldable pub primary_funcs : OnlineActors → List SetStep
unfolding drain_subcluster recreate_subcluster_with_new_image check_version name_label
    wait_for_read_only bring_subcluster_online
primary_funcs actors =
    drain_subcluster actors
    ∷ recreate_subcluster_with_new_image
    ∷ check_set_version actors
    ∷ (λ sts. on_world actors.annotate_and_label_pod)
    ∷ (λ sts. on_world actors.install)
    ∷ wait_for_read_only
    ∷ bring_subcluster_online actors
    ∷ []

-- The loop of restartPrimaries: a message, and then the function for each primary.
unfoldable pub restart_with : List SetStep → OnlineStep
unfolding is_reconcile_aborted post_online_msg iterate_subcluster_type
restart_with [] o = (proceed, o)
restart_with (fn ∷ fns) o = unless_aborted (post_online_msg o) (λ o1.
    unless_aborted (iterate_subcluster_type primary_subcluster_type fn o1) (restart_with fns))

unfoldable pub restart_primaries : OnlineActors → OnlineStep
unfolding primary_funcs restart_with
restart_primaries actors = restart_with (primary_funcs actors)

unfoldable pub process_secondary : OnlineActors → SetStep
unfolding run_online post_online_msg drain_subcluster recreate_subcluster_with_new_image
    bring_subcluster_online
process_secondary actors sts = run_online (
    post_online_msg
    ∷ drain_subcluster actors sts
    ∷ post_online_msg
    ∷ recreate_subcluster_with_new_image sts
    ∷ post_online_msg
    ∷ on_world actors.annotate_and_label_pod
    ∷ on_world actors.install
    ∷ bring_subcluster_online actors sts
    ∷ [])

unfoldable pub restart_secondaries : OnlineActors → OnlineStep
unfolding iterate_subcluster_type process_secondary
restart_secondaries actors =
    iterate_subcluster_type secondary_subcluster_type (process_secondary actors)

-- The functions of Reconcile, in their order; `zero_value` is that of the fields of the transient
-- subcluster whose type is a library's.
unfoldable pub online_funcs : OnlineActors → TransientActors → String → List OnlineStep
unfolding start_upgrade load_subcluster_state precompute_status_msgs post_online_msg
    add_transient_to_vdb skip_transient_setup requires_transient_subcluster restart_primaries
    restart_secondaries remove_transient_from_vdb finish_upgrade
online_funcs actors transient zero_value =
    on_world (start_upgrade online_upgrade_in_progress)
    ∷ (λ o. online_then (on_world transient.collect o) load_subcluster_state)
    ∷ precompute_status_msgs
    ∷ post_online_msg
    ∷ add_transient_to_vdb zero_value
    ∷ unless_skipped (on_transient transient.reconcile_sts)
    ∷ unless_skipped (on_world actors.install)
    ∷ unless_skipped (with_facts transient.collect transient.add_missing_subclusters)
    ∷ unless_skipped (with_facts transient.collect transient.reconcile_subcluster)
    ∷ unless_skipped (on_transient transient.rebalance_shards)
    ∷ unless_skipped (on_transient transient.add_routing_label)
    ∷ restart_primaries actors
    ∷ restart_secondaries actors
    ∷ post_online_msg
    ∷ remove_transient_from_vdb
    ∷ if_required (on_world transient.del_routing_label)
    ∷ if_required (on_world transient.remove_subcluster)
    ∷ if_required (on_world transient.uninstall)
    ∷ if_required (on_world transient.reconcile_objects)
    ∷ on_world (finish_upgrade online_upgrade_in_progress)
    ∷ []

-- Reconcile.
unfoldable pub online_reconcile : OnlineActors → TransientActors → String → OnlineStep
unfolding is_upgrade_needed online_upgrade_allowed run_online online_funcs with_requeue_time
    get_upgrade_requeue_time
online_reconcile actors transient zero_value o =
    let (needed, w) = is_upgrade_needed online_upgrade_in_progress online_upgrade_allowed o.world in
    let (res, o') = run_online (online_funcs actors transient zero_value) (set_world w o) in
    elim needed [
      | none ↦ (fail_with "the test for an upgrade failed", set_world w o)
      | some false ↦ (proceed, set_world w o)
      | some true ↦ (with_requeue_time (get_upgrade_requeue_time o'.world.vdb) res, o')
    ]
