-- ===== src/Vas/Remove.antt =====
-- pkg/controllers/vas/subclusterscale_reconcile.go: considerRemovingSubclusters.
pub mod Laws
use vertica_kubernetes.Prelude.{
  String, List, [], ◌∷◌, Bool, true, false, not, ◌&&◌, if◌then◌else◌, length, ◌==◌,
}
use vertica_kubernetes.Prelude.Int.{ℤ, pos, ltb_ℤ, leb_ℤ}
use vertica_kubernetes.Prelude.Int32.{sub32}
use vertica_kubernetes.Api.Types.{Subcluster}
use vertica_kubernetes.Api.Methods.{serves}

-- The state of the loop over `j`, after the subclusters from index `j` on: those that are kept,
-- and whether the loop has returned.
pub record RemoveLoop : Type 0 where
  pub pods_to_remove : ℤ
  pub returned : Bool
  pub kept : List Subcluster

-- One round, for the subcluster at index `j`.
unfoldable pub remove_step : String → Subcluster → RemoveLoop → RemoveLoop
remove_step svc_name sc s =
    let keeping = record s { kept = sc ∷ s.kept } in
    if s.returned
    then keeping
    else if serves svc_name sc
    then (if ltb_ℤ (pos 0) s.pods_to_remove && leb_ℤ sc.size s.pods_to_remove
        then record s { pods_to_remove = sub32 s.pods_to_remove sc.size }
        else record keeping { returned = true })
    else keeping

-- The loop runs from the last index down to the first.
unfoldable pub remove_loop : String → ℤ → List Subcluster → RemoveLoop
remove_loop svc_name pods_to_remove [] = record {
  pods_to_remove = pods_to_remove;
  returned = false;
  kept = [];
}
remove_loop svc_name pods_to_remove (sc ∷ scs) =
    remove_step svc_name sc (remove_loop svc_name pods_to_remove scs)

-- The subclusters that stay, and whether their number has changed.
unfoldable pub consider_removing_subclusters : String → ℤ → List Subcluster → List Subcluster × Bool
unfolding remove_loop
consider_removing_subclusters svc_name pods_to_remove subclusters =
    let s = remove_loop svc_name pods_to_remove subclusters in
    (s.kept, not (length subclusters == length s.kept))
