-- ===== src/Upgrade/Offline.antt =====
-- pkg/controllers/vdb/offlineupgrade_reconcile.go: the upgrade that stops the cluster.
pub mod Runs
pub mod Laws
use text.Mathlib.Text.{◌==◌}
use vertica_kubernetes.Prelude.{
  ℕ, zero, suc, ◌≡◌, String, List, [], ◌∷◌, ◌++◌, Option, none, some, Bool, true, false, not, ◌&&◌,
  ◌||◌, if◌then◌else◌, ltb, any, ◌==◌ as nat_eq,
}
use vertica_kubernetes.Prelude.Int.{ℤ, pos, eqb_ℤ}
use vertica_kubernetes.Api.Types.{VerticaDb}
use vertica_kubernetes.PodFacts.{PodFact, find_running_pod, get_up_node_count}
use vertica_kubernetes.Finder.{find_existing}
use vertica_kubernetes.Upgrade.World.{
  Pod, World, Outcome, proceed, fail_with, try_again, Step, client_call, run_all, with_requeue_time,
}
use vertica_kubernetes.Upgrade.Manager.{
  start_upgrade, finish_upgrade, post_next_status_msg, add_event,
}
use vertica_kubernetes.Upgrade.Policy.{online_upgrade, offline_upgrade_allowed, is_upgrade_needed}
use vertica_kubernetes.Upgrade.Images.{
  update_image_in_stateful_sets, delete_pods_running_old_image, find_pods,
}

abbrev pub offline_upgrade_in_progress : String
offline_upgrade_in_progress = "OfflineUpgradeInProgress"

abbrev pub offline_upgrade_status_msgs : List String
offline_upgrade_status_msgs =
    "Shutting down cluster" ∷ "Rescheduling pods with new image"
    ∷ "Restarting cluster with new image" ∷ []

abbrev pub cluster_shutdown_offline_msg_index : ℕ
cluster_shutdown_offline_msg_index = 0

abbrev pub reschedule_pods_offline_msg_index : ℕ
reschedule_pods_offline_msg_index = 1

abbrev pub cluster_restart_offline_msg_index : ℕ
cluster_restart_offline_msg_index = 2

-- What the reconciler calls that acts on the pods: Collect of the facts, `admintools -t stop_db`, and
-- the Reconcile of other reconcilers.
pub record OfflineActors : Type 0 where
  pub collect : Step
  pub stop_db : Step
  pub version : Step
  pub annotate_and_label_pod : Step
  pub install : Step
  pub restart : Step
  pub client_routing_label : Step

-- GetUpgradeRequeueTime; the default, URTime, is 30 seconds.
unfoldable pub get_upgrade_requeue_time : VerticaDb → ℤ
get_upgrade_requeue_time v =
    if eqb_ℤ v.spec.upgrade_requeue_time (pos 0) then pos 30 else v.spec.upgrade_requeue_time

unfoldable pub log_event_if_online_upgrade_requested : Step
log_event_if_online_upgrade_requested w =
    if not w.continuing_upgrade && w.vdb.spec.upgrade_policy == online_upgrade
    then (proceed, add_event "IncompatibleOnlineUpgrade" w)
    else (proceed, w)

abbrev pub find_named : String → List Pod → Option Pod
find_named name [] = none
find_named name (p ∷ ps) = if p.name == name then some p else find_named name ps

-- The loop of anyPodsRunningWithOldImage; a pod that is not found is passed over.
unfoldable pub any_pods_running_with_old_image : List PodFact → World → Option Bool × World
unfolding client_call
any_pods_running_with_old_image [] w = (some false, w)
any_pods_running_with_old_image (pf ∷ pfs) w =
    let (ok, w') = client_call w in
    let skip = any_pods_running_with_old_image pfs w in
    let next = any_pods_running_with_old_image pfs w' in
    if not pf.up_node
    then skip
    else if not ok
    then (none, w')
    else elim (find_named pf.name.1 w.pods) [
      | none ↦ next
      | some pod ↦ if not (pod.image == w.vdb.spec.image) then (some true, w') else next
    ]

-- The call of admintools, with the events around it.
unfoldable pub call_stop_db : Step → Step
call_stop_db stop_db w =
    let (res, w') = stop_db (add_event "ClusterShutdownStarted" w) in
    elim res.err [
      | some e ↦ (fail_with e, add_event "ClusterShutdownFailed" w')
      | none ↦ (proceed, add_event "ClusterShutdownSucceeded" w')
    ]

unfoldable pub stop_cluster : Step → Step
unfolding any_pods_running_with_old_image call_stop_db find_running_pod get_up_node_count
stop_cluster stop_db w =
    let (old, w') = any_pods_running_with_old_image w.pfacts w in
    elim (find_running_pod w.pfacts) [
      | none ↦ (proceed, w)
      | some pf ↦ if nat_eq (get_up_node_count w.pfacts) 0 then (proceed, w) else elim old [
        | none ↦ (fail_with "error getting pod info", w')
        | some false ↦ (proceed, w')
        | some true ↦ call_stop_db stop_db w'
      ]
    ]

abbrev pub invalidate_if : Bool → World → World
invalidate_if changed w = if changed then record w { facts_valid = false } else w

-- The step around the manager's loop, here and for the pods.
unfoldable pub update_images_step : Step
unfolding update_image_in_stateful_sets
update_images_step w =
    let (num_sts_changed, res, w') = update_image_in_stateful_sets w in
    (res, invalidate_if (ltb 0 num_sts_changed) w')

abbrev of_error : Option String → Outcome
of_error err = record { requeue = false; requeue_after = pos 0; err = err }

unfoldable pub delete_pods_step : Step
unfolding delete_pods_running_old_image
delete_pods_step w =
    let (num_pods_deleted, err, w') = delete_pods_running_old_image "" w in
    (of_error err, invalidate_if (ltb 0 num_pods_deleted) w')

unfoldable pub check_for_new_pods : Step
unfolding find_pods
check_for_new_pods w =
    let (found, w') = find_pods find_existing w in
    elim found [
      | none ↦ (fail_with "list of the pods failed", w')
      | some pods ↦
          if any (λ (p : Pod). p.image == w.vdb.spec.image) pods
          then (proceed, w')
          else (try_again, w')
    ]

unfoldable pub check_version : Step → Step
check_version version w = if w.vdb.spec.ignore_upgrade_path then (proceed, w) else version w

unfoldable pub post_offline_msg : ℕ → Step
unfolding post_next_status_msg
post_offline_msg msg_index = post_next_status_msg offline_upgrade_status_msgs msg_index

-- The functions of Reconcile that bring the new image to the pods.
unfoldable pub reschedule_funcs : List Step
unfolding post_offline_msg update_images_step delete_pods_step check_for_new_pods
reschedule_funcs =
    post_offline_msg reschedule_pods_offline_msg_index
    ∷ update_images_step
    ∷ delete_pods_step
    ∷ check_for_new_pods
    ∷ []

unfoldable pub offline_funcs : OfflineActors → List Step
unfolding start_upgrade log_event_if_online_upgrade_requested post_offline_msg stop_cluster
    reschedule_funcs check_version finish_upgrade
offline_funcs actors =
    (start_upgrade offline_upgrade_in_progress
      ∷ log_event_if_online_upgrade_requested
      ∷ post_offline_msg cluster_shutdown_offline_msg_index
      ∷ stop_cluster actors.stop_db
      ∷ [])
    ++ (reschedule_funcs
        ++ (check_version actors.version
            ∷ post_offline_msg cluster_restart_offline_msg_index
            ∷ actors.annotate_and_label_pod
            ∷ actors.install
            ∷ actors.restart
            ∷ actors.client_routing_label
            ∷ finish_upgrade offline_upgrade_in_progress
            ∷ []))

-- Reconcile.
unfoldable pub offline_reconcile : OfflineActors → Step
unfolding is_upgrade_needed offline_upgrade_allowed run_all offline_funcs with_requeue_time
    get_upgrade_requeue_time
offline_reconcile actors w =
    let (needed, w') = is_upgrade_needed offline_upgrade_in_progress offline_upgrade_allowed w in
    let (collected, v) = actors.collect w' in
    let (res, u) = run_all (offline_funcs actors) v in
    elim needed [
      | none ↦ (fail_with "the test for an upgrade failed", w')
      | some false ↦ (proceed, w')
      | some true ↦ elim collected.err [
        | some e ↦ (fail_with e, v)
        | none ↦ (with_requeue_time (get_upgrade_requeue_time u.vdb) res, u)
      ]
    ]
