-- ===== src/Upgrade/Online/Wait.antt =====
-- The wait for the pods with an old image, before the primaries are started again.
use text.Mathlib.Text.{◌==◌}
use vertica_kubernetes.Prelude.{◌≡◌, ◌↔◌, ◌⊎◌, Bool, true, false, not, ◌&&◌, any, arith}
use vertica_kubernetes.PodFacts.{
  PodFact, count_up_primary_nodes, count_not_read_only_with_old_image,
}
use vertica_kubernetes.PodFacts.Laws.{count_pods-zero}
use vertica_kubernetes.Upgrade.World.{StatefulSet, proceed, try_again}
use vertica_kubernetes.Upgrade.Transient.{Online}
use vertica_kubernetes.Upgrade.Online.{wait_for_read_only}

-- A node that is up and writable in a running pod of another image.
abbrev pub writes_with_old_image : StatefulSet → PodFact → Bool
writes_with_old_image sts v =
    v.is_pod_running && v.up_node && not v.read_only && not (v.image == sts.image)

-- The wait changes nothing. It ends exactly if a primary node is up, or no node is up and writable in
-- a running pod whose image is not that of the statefulset; else it asks to be tried again.
pub wait_for_read_only_iff :
    (sts : StatefulSet) (o : Online)
    → ((wait_for_read_only sts o ≡ (proceed, o)) ↔ (
        (any (λ (v : PodFact). v.up_node && v.is_primary) o.world.pfacts ≡ true)
        ⊎ (any (writes_with_old_image sts) o.world.pfacts ≡ false)))
      × ((wait_for_read_only sts o ≡ (proceed, o)) ⊎ (wait_for_read_only sts o ≡ (try_again, o)))
unfolding wait_for_read_only count_up_primary_nodes count_not_read_only_with_old_image
wait_for_read_only_iff sts o =
    let pfacts = o.world.pfacts in
    let primaries = count_pods-zero (λ v. v.up_node && v.is_primary) pfacts in
    let old = count_pods-zero (writes_with_old_image sts) pfacts in ground (arith, primaries, old)
