-- ===== src/Vas/Scale.antt =====
-- pkg/controllers/vas/subclusterscale_reconcile.go: the closure of scaleSubcluster, from the
-- subclusters of the VerticaDB that it fetched to those that it writes.
pub mod Moves
pub mod Laws
use vertica_kubernetes.Prelude.{ℕ, String, List, Bool, true, false, if◌then◌else◌}
use vertica_kubernetes.Prelude.Int.{ℤ, pos, ltb_ℤ}
use vertica_kubernetes.Prelude.Int32.{sub32}
use vertica_kubernetes.Api.Types.{Subcluster, VerticaAutoscaler}
use vertica_kubernetes.Api.Methods.{find_subcluster_for_service_name}
use vertica_kubernetes.Vas.Remove.{consider_removing_subclusters}
use vertica_kubernetes.Vas.Add.{
  AddResult, added, nil_dereference, still_running, consider_adding_subclusters,
}

-- `crash` and `no_end` are the two ways in which considerAddingSubclusters returns nothing.
pub data Scaled : Type 0 where
  no_change crash no_end : Scaled
  write : List Subcluster → Scaled

abbrev of_changed : List Subcluster → Bool → Scaled
of_changed subclusters true = write subclusters
of_changed subclusters false = no_change

abbrev of_added : AddResult → Scaled
of_added (added subclusters changed) = of_changed subclusters changed
of_added nil_dereference = crash
of_added still_running = no_end

-- The switch on the sign of delta; `delta * -1` is 0 - delta in int32.
unfoldable pub scale_by : VerticaAutoscaler → ℕ → ℤ → List Subcluster → Scaled
scale_by vas fuel delta subclusters =
    let removed =
      consider_removing_subclusters vas.spec.service_name (sub32 (pos 0) delta) subclusters in
    if ltb_ℤ delta (pos 0)
    then of_changed removed.0 removed.1
    else if ltb_ℤ (pos 0) delta
    then of_added (consider_adding_subclusters vas fuel delta subclusters)
    else no_change

unfoldable pub scale_subclusters : VerticaAutoscaler → ℕ → List Subcluster → Scaled
unfolding find_subcluster_for_service_name
scale_subclusters vas fuel subclusters =
    let tot_size = (find_subcluster_for_service_name vas.spec.service_name subclusters).1 in
    scale_by vas fuel (sub32 vas.spec.target_size tot_size) subclusters
