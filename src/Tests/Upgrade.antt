-- ===== src/Tests/Upgrade.antt =====
-- The theorems on upgrades, labels and the status, at concrete inputs.
use text.Mathlib.Text.{◌==◌}
use vertica_kubernetes.Prelude.{
  ◌≡◌, refl, ◌↔◌, ◌⊎◌, String, [], ◌∷◌, none, some, Bool, true, false, arith, All,
}
use vertica_kubernetes.Prelude.Int.{pos}
use vertica_kubernetes.Prelude.Maps.{lookup}
use vertica_kubernetes.Api.Constants.{k_safety0}
use vertica_kubernetes.Api.Types.{Subcluster, SubclusterStatus}
use vertica_kubernetes.Api.Methods.{
  get_service_name, gen_subcluster_map, requires_transient_subcluster,
}
use vertica_kubernetes.Version.{make_info_from_vdb}
use vertica_kubernetes.Labels.{
  make_svc_selector_labels_for_service_name_routing,
  make_svc_selector_labels_for_subcluster_name_routing, subcluster_transient_label,
}
use vertica_kubernetes.Labels.Laws.{
  Selects, pod_labels, service_name_routing_iff, subcluster_name_routing_iff,
}
use vertica_kubernetes.Finder.{subcluster_name_label}
use vertica_kubernetes.Upgrade.World.{StatefulSet, Pod, World, run_all}
use vertica_kubernetes.Upgrade.Manager.{start_upgrade, finish_upgrade}
use vertica_kubernetes.Upgrade.Manager.Conditions.{Toggles}
use vertica_kubernetes.Upgrade.Manager.Goals.{with_start_event, without_message, with_end_event}
use vertica_kubernetes.Upgrade.Manager.Lifecycle.{start_upgrade-Toggles, finish_upgrade-Toggles}
use vertica_kubernetes.Upgrade.Policy.{offline_upgrade, auto_upgrade, online_upgrade_allowed}
use vertica_kubernetes.Upgrade.Policy.Laws.{IsSupportedVersion, online_upgrade_allowed_iff}
use vertica_kubernetes.Upgrade.Images.{
  update_image_in_stateful_sets, delete_pods_running_old_image, transient_label,
}
use vertica_kubernetes.Upgrade.Images.Handles.{set_images}
use vertica_kubernetes.Upgrade.Images.Laws.{
  existing_sets, needs_image, update_image_in_stateful_sets-done,
}
use vertica_kubernetes.Upgrade.Images.Progress.{update_image_in_stateful_sets-succeeds}
use vertica_kubernetes.Upgrade.Images.Pods.{is_left, delete_pods_running_old_image-none_left}
use vertica_kubernetes.Upgrade.Offline.{reschedule_funcs}
use vertica_kubernetes.Upgrade.Offline.Laws.{IsRescheduled, reschedule_funcs-IsRescheduled}
use vertica_kubernetes.Upgrade.Routing.{pick_default_subcluster_for_temporary_routing}
use vertica_kubernetes.Upgrade.Routing.Laws.{
  PicksUp, pick_default_subcluster_for_temporary_routing-PicksUp,
}
use vertica_kubernetes.Report.{calculate_subcluster_status, get_subcluster_size, no_status}
use vertica_kubernetes.Report.Laws.{IsReport, calculate_subcluster_status-IsReport}
use vertica_kubernetes.Tests.{database, subcluster, three}

abbrev main : Subcluster
main = subcluster "main" "" 3 true

abbrev as1 : Subcluster
as1 = subcluster "as1" "as" 2 false

abbrev pub stateful_set : String → String → StatefulSet
stateful_set name image = record {
  name = name;
  labels = (subcluster_name_label, name) ∷ (subcluster_transient_label, "false") ∷ [];
  image = image;
  on_delete = false;
  replicas = pos 2;
}

abbrev pub pod : String → String → String → Pod
pod name sc image = record { name = name; labels = (subcluster_name_label, sc) ∷ []; image = image }

-- A cluster in the middle of an upgrade.
abbrev pub upgrading : World
upgrading = record {
  vdb = database "1";
  statefulsets = stateful_set "main" "vertica:old" ∷ stateful_set "as1" "vertica:latest" ∷ [];
  pods = pod "main-0" "main" "vertica:old" ∷ pod "as1-0" "as1" "vertica:latest" ∷ [];
  pfacts = [];
  facts_valid = true;
  continuing_upgrade = false;
  events = [];
  now = pos 100;
  faults = [];
}

service_name_routing_iff_example :
    Selects
      (make_svc_selector_labels_for_service_name_routing (database "1") as1)
      (pod_labels (database "1") main true)
    ↔ ((◌≡◌ {A = Bool} true true)
        × (main.is_transient ≡ false)
        × (get_service_name main ≡ get_service_name as1))
unfolding lookup
service_name_routing_iff_example =
    service_name_routing_iff (database "1") main true refl refl refl refl as1

subcluster_name_routing_iff_example :
    Selects
      (make_svc_selector_labels_for_subcluster_name_routing (database "1") as1)
      (pod_labels (database "1") as1 false)
    ↔ ((◌≡◌ {A = Bool} false true) × (as1.name ≡ as1.name))
unfolding lookup
subcluster_name_routing_iff_example =
    subcluster_name_routing_iff (database "1") as1 false refl refl refl refl as1

start_upgrade-Toggles_example :
    Toggles 3 true upgrading upgrading
      (with_start_event upgrading)
      (start_upgrade "OfflineUpgradeInProgress" upgrading)
start_upgrade-Toggles_example =
    start_upgrade-Toggles "OfflineUpgradeInProgress" 3 upgrading refl (λ e. ground arith) tt

finish_upgrade-Toggles_example :
    Toggles 4 false upgrading
      (without_message upgrading)
      (with_end_event (without_message upgrading))
      (finish_upgrade "OnlineUpgradeInProgress" upgrading)
finish_upgrade-Toggles_example =
    finish_upgrade-Toggles "OnlineUpgradeInProgress" 4 upgrading refl (λ e. ground arith) tt

online_upgrade_allowed_iff_example : online_upgrade_allowed (database "1") ≡ true ↔ (
    ("Auto" == offline_upgrade ≡ false)
    × ((("Auto" == auto_upgrade ≡ false) × ("Auto" == "" ≡ false))
        ⊎ (((requires_transient_subcluster (database "1") ≡ false) ⊎ ("" == "" ≡ false))
            × ("1" == k_safety0 ≡ false)))
    × IsSupportedVersion (make_info_from_vdb (database "1")))
online_upgrade_allowed_iff_example = online_upgrade_allowed_iff (database "1")

update_image_in_stateful_sets-done_example :
    ((update_image_in_stateful_sets upgrading).2.vdb ≡ upgrading.vdb)
    × All
        (λ s. needs_image (gen_subcluster_map three) "vertica:latest" s ≡ false)
        (update_image_in_stateful_sets upgrading).2.statefulsets
unfolding update_image_in_stateful_sets
update_image_in_stateful_sets-done_example = update_image_in_stateful_sets-done upgrading refl

update_image_in_stateful_sets-succeeds_example :
    ((update_image_in_stateful_sets upgrading).1.err ≡ none)
    × ((update_image_in_stateful_sets upgrading).2.statefulsets
        ≡ set_images (existing_sets upgrading) "vertica:latest" upgrading.statefulsets)
    × All
        (λ s. needs_image (gen_subcluster_map three) "vertica:latest" s ≡ false)
        (update_image_in_stateful_sets upgrading).2.statefulsets
unfolding transient_label
update_image_in_stateful_sets-succeeds_example =
    update_image_in_stateful_sets-succeeds upgrading refl
      ((λ e. ground arith), ((λ e. ground arith), tt))

delete_pods_running_old_image-none_left_example :
    ((delete_pods_running_old_image "main" upgrading).2.vdb ≡ upgrading.vdb)
    × All
        (λ p. is_left (gen_subcluster_map three) "main" "vertica:latest" p ≡ false)
        (delete_pods_running_old_image "main" upgrading).2.pods
    × ((delete_pods_running_old_image "main" upgrading).2.statefulsets ≡ upgrading.statefulsets)
unfolding delete_pods_running_old_image
delete_pods_running_old_image-none_left_example =
    delete_pods_running_old_image-none_left "main" upgrading refl

reschedule_funcs-IsRescheduled_example :
    IsRescheduled upgrading.vdb.spec (run_all reschedule_funcs upgrading).1
unfolding reschedule_funcs run_all
reschedule_funcs-IsRescheduled_example = reschedule_funcs-IsRescheduled upgrading refl

pick_default_subcluster_for_temporary_routing-PicksUp_example :
    PicksUp main three (pick_default_subcluster_for_temporary_routing main three)
pick_default_subcluster_for_temporary_routing-PicksUp_example =
    pick_default_subcluster_for_temporary_routing-PicksUp main three

calculate_subcluster_status-IsReport_example :
    (stat : SubclusterStatus) × ((calculate_subcluster_status main no_status upgrading).0
      ≡ some stat)
    × IsReport main 3 stat
unfolding get_subcluster_size
calculate_subcluster_status-IsReport_example =
    calculate_subcluster_status-IsReport main no_status upgrading 3 refl (omega arith)
