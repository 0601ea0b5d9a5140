-- ===== src/Vas/Resize.antt =====
-- pkg/controllers/vas/subclusterresize_reconcile.go: the closure of resizeSubcluster, from the
-- VerticaDB that it fetched to the one that it writes.
pub mod Steps
pub mod Loops
pub mod Laws
use vertica_kubernetes.Prelude.{String, List, [], ◌∷◌, Bool, true, false, not, ◌||◌, if◌then◌else◌}
use vertica_kubernetes.Prelude.Int.{ℤ, pos, ltb_ℤ, eqb_ℤ}
use vertica_kubernetes.Prelude.Int32.{add32, sub32}
use vertica_kubernetes.Api.Types.{Subcluster}
use vertica_kubernetes.Api.Methods.{serves, find_subcluster_for_service_name}

-- The loop over the subclusters of the service, after those from some index on. They are changed
-- in place, among the subclusters of the VerticaDB.
pub record ResizeLoop : Type 0 where
  pub delta : ℤ
  pub subclusters : List Subcluster

-- One round; a delta of 0 is the `break` of an earlier round.
unfoldable pub resize_step : String → Subcluster → ResizeLoop → ResizeLoop
resize_step svc_name sc s =
    let grown = add32 sc.size s.delta in
    if eqb_ℤ s.delta (pos 0) || not (serves svc_name sc)
    then record s { subclusters = sc ∷ s.subclusters }
    else if ltb_ℤ (pos 0) s.delta
    then record { delta = pos 0; subclusters = (record sc { size = grown }) ∷ s.subclusters }
    else if ltb_ℤ sc.size (sub32 (pos 0) s.delta)
    then record {
      delta = add32 s.delta sc.size;
      subclusters = (record sc { size = pos 0 }) ∷ s.subclusters;
    }
    else record { delta = pos 0; subclusters = (record sc { size = grown }) ∷ s.subclusters }

-- From the last subcluster of the service to the first.
unfoldable pub resize_loop : String → ℤ → List Subcluster → ResizeLoop
resize_loop svc_name delta [] = record { delta = delta; subclusters = [] }
resize_loop svc_name delta (sc ∷ scs) = resize_step svc_name sc (resize_loop svc_name delta scs)

-- `requeue` is the case with no subcluster of the service, `unchanged` that with a delta of 0.
pub data Resized : Type 0 where
  requeue unchanged : Resized
  update : List Subcluster → Resized

-- `scs` are the subclusters of the service.
unfoldable pub resize_found : String → List Subcluster → List Subcluster → ℤ → Resized
unfolding resize_loop
resize_found svc_name [] subclusters delta = requeue
resize_found svc_name (_ ∷ _) subclusters delta =
    if eqb_ℤ delta (pos 0)
    then unchanged
    else update (resize_loop svc_name delta subclusters).subclusters

unfoldable pub resize_subclusters : String → ℤ → List Subcluster → Resized
unfolding find_subcluster_for_service_name resize_found
resize_subclusters svc_name target_size subclusters =
    let (scs, tot_size) = find_subcluster_for_service_name svc_name subclusters in
    resize_found svc_name scs subclusters (sub32 target_size tot_size)
