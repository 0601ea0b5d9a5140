-- ===== src/Tests/Online.antt =====
-- The theorems on an online upgrade and on the status of the cluster, at concrete inputs.
use vertica_kubernetes.Prelude.{
  ◌↔◌, ◌⊎◌, ◌&&◌, any, ◌≡◌, ◌+◌, ◌*◌, refl, zero, suc, some, List, [], ◌∷◌, true, false, arith, All,
  length,
}
use vertica_kubernetes.Prelude.Int.{pos}
use vertica_kubernetes.Api.Types.{VerticaDbStatus, VerticaDb}
use vertica_kubernetes.Api.Methods.{gen_subcluster_map}
use vertica_kubernetes.Finder.{find_existing, build_obj_list}
use vertica_kubernetes.Upgrade.World.{StatefulSet, proceed, try_again}
use vertica_kubernetes.Upgrade.Images.Pods.{is_left}
use vertica_kubernetes.Upgrade.Online.Wait.{writes_with_old_image, wait_for_read_only_iff}
use vertica_kubernetes.Upgrade.Online.{
  wait_for_read_only, precompute_status_msgs, recreate_subcluster_with_new_image,
  secondary_subcluster_type, name_label,
}
use vertica_kubernetes.Upgrade.Online.Laws.{number_of_type, precompute_status_msgs-length}
use vertica_kubernetes.Upgrade.Online.Recreate.{
  with_image, recreate_subcluster_with_new_image-none_left,
}
use vertica_kubernetes.Report.{calculate_cluster_status, no_status, find_fact, gen_pod_name}
use vertica_kubernetes.Report.Sums.{calculate_cluster_status-total}
use vertica_kubernetes.Revive.{get_pod_list, pods_left}
use vertica_kubernetes.Revive.Laws.{sum}
use vertica_kubernetes.Revive.Total.{HasFacts, get_pod_list-some}
use vertica_kubernetes.PodFacts.{PodFact}
use vertica_kubernetes.Tests.{database, three, subcluster}
use vertica_kubernetes.Tests.Admission.{pod}
use vertica_kubernetes.Tests.Upgrade.{stateful_set}
use vertica_kubernetes.Tests.Transient.{started}

precompute_status_msgs-length_example :
    (length (precompute_status_msgs started).1.status_msgs
      ≡ 9
        + 3
          * number_of_type secondary_subcluster_type (
              build_obj_list
                (λ (s : StatefulSet). s.labels)
                find_existing
                (gen_subcluster_map three)
                started.world.statefulsets))
    × ((precompute_status_msgs started).1.posted ≡ 0)
unfolding precompute_status_msgs
precompute_status_msgs-length_example = precompute_status_msgs-length started refl

recreate_subcluster_with_new_image-none_left_example :
    ((recreate_subcluster_with_new_image
        (stateful_set "main" "vertica:old")
        started).1.world.statefulsets
      ≡ with_image "main" "vertica:latest" started.world.statefulsets)
    × All
        (λ p.
          is_left
            (gen_subcluster_map three)
            (name_label (stateful_set "main" "vertica:old"))
            "vertica:latest"
            p
          ≡ false)
        (recreate_subcluster_with_new_image
          (stateful_set "main" "vertica:old")
          started).1.world.pods
unfolding recreate_subcluster_with_new_image
recreate_subcluster_with_new_image-none_left_example =
    recreate_subcluster_with_new_image-none_left (stateful_set "main" "vertica:old") started refl

-- Two subclusters, with five nodes up.
abbrev two_up : VerticaDbStatus
two_up = record ((database "1").status) {
  subclusters =
      record no_status { name = "main"; install_count = pos 3; up_node_count = pos 3 }
      ∷ record no_status { name = "as1"; install_count = pos 2; up_node_count = pos 2 }
      ∷ [];
}

calculate_cluster_status-total_example : calculate_cluster_status two_up ≡ record two_up {
  subcluster_count = pos 2;
  install_count = pos 5;
  added_to_db_count = pos 0;
  up_node_count = pos 5;
}
calculate_cluster_status-total_example =
    calculate_cluster_status-total two_up ((refl, refl, refl), ((refl, refl, refl), tt))
      (omega arith) (omega arith) (omega arith) (omega arith)

-- One pod, which the revive order asks for twice.
abbrev one_pod : VerticaDb
one_pod = record (database "1") {
  spec = record ((database "1").spec) {
    subclusters = subcluster "main" "" 1 true ∷ [];
    revive_order =
        record { subcluster_index = pos 0; pod_count = pos 1 }
        ∷ record { subcluster_index = pos 0; pod_count = pos 5 }
        ∷ [];
  };
}

one_pod-HasFacts : HasFacts one_pod (pod "new" true false ∷ []) (subcluster "main" "" 1 true)
unfolding find_fact gen_pod_name
one_pod-HasFacts zero h = (pod "new" true false, refl)
one_pod-HasFacts (suc k) h = absurd (omega arith)

get_pod_list-some_example :
    (pod_list : List PodFact) × (get_pod_list one_pod (pod "new" true false ∷ []) ≡ some pod_list)
    × (length pod_list ≡ sum (pods_left one_pod.spec.subclusters))
get_pod_list-some_example =
    get_pod_list-some one_pod (pod "new" true false ∷ []) (one_pod-HasFacts, tt) (refl, (refl, tt))

wait_for_read_only_iff_example :
    ((wait_for_read_only (stateful_set "main" "new") started ≡ (proceed, started)) ↔ (
      (any (λ (v : PodFact). v.up_node && v.is_primary) started.world.pfacts ≡ true)
      ⊎ (any (writes_with_old_image (stateful_set "main" "new")) started.world.pfacts ≡ false)))
    × ((wait_for_read_only (stateful_set "main" "new") started ≡ (proceed, started))
        ⊎ (wait_for_read_only (stateful_set "main" "new") started ≡ (try_again, started)))
wait_for_read_only_iff_example = wait_for_read_only_iff (stateful_set "main" "new") started
