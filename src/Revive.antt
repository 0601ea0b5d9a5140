-- ===== src/Revive.antt =====
-- pkg/controllers/vdb/revivedb_reconcile.go: the order in which the pods are given to revive_db.
pub mod Laws
pub mod Total
use vertica_kubernetes.Prelude.{
  ℕ, zero, suc, ◌-◌, List, [], ◌∷◌, ◌++◌, map, Option, none, some, Bool, true, false, ◌||◌,
  if◌then◌else◌, length, get_elem?, ◌>>=◌,
}
use vertica_kubernetes.Prelude.Int.{ℤ, pos, pos_part, ltb_ℤ, leb_ℤ}
use vertica_kubernetes.Prelude.Int32.{int32}
use vertica_kubernetes.Api.Types.{Subcluster, SubclusterPodCount, VerticaDb}
use vertica_kubernetes.PodFacts.{PodFact}
use vertica_kubernetes.Report.{find_fact, gen_pod_name}

-- `scPodCounts`, by the index of the subcluster: how many pods are still to be added. A negative size
-- reads as none, as no round of a loop is made for it.
abbrev pub pods_left : List Subcluster → List ℕ
pods_left scs = map (λ (sc : Subcluster). pos_part sc.size) scs

abbrev pub set_left : List ℕ → ℕ → ℕ → List ℕ
set_left [] i n = []
set_left (c ∷ cs) zero n = n ∷ cs
set_left (c ∷ cs) (suc i) n = c ∷ set_left cs i n

-- The loop of addPodsFromSubcluster, with the count of its subcluster; `none` is a pod that has no
-- facts.
unfoldable pub add_pods :
    VerticaDb → List PodFact → Subcluster → ℕ → ℕ → List PodFact → Option (ℕ × List PodFact)
unfolding find_fact gen_pod_name
add_pods vdb pfacts sc zero left pod_list = some (left, pod_list)
add_pods vdb pfacts sc (suc n) left pod_list =
    elim (find_fact (gen_pod_name vdb sc (pos_part sc.size - left)) pfacts) [
      | none ↦ none
      | some pf ↦ add_pods vdb pfacts sc n (left - 1) (pod_list ++ pf ∷ [])
    ]

-- addPodsFromSubcluster, for as many pods as `pods_to_add` says of those that are left; `none` is
-- also an index out of range.
unfoldable pub add_pods_from_subcluster :
    VerticaDb → List PodFact → ℕ → (ℕ → ℕ) → List ℕ × List PodFact → Option (List ℕ × List PodFact)
unfolding add_pods
add_pods_from_subcluster vdb pfacts i pods_to_add (counts, pod_list) = do
  sc ← get_elem? vdb.spec.subclusters i
  left ← get_elem? counts i
  (left', pod_list') ← add_pods vdb pfacts sc (pods_to_add left) left pod_list
  some (set_left counts i left', pod_list')

-- The number of pods that an entry of the revive order adds: what is left, unless it asks for less.
unfoldable pub clip : ℤ → ℕ → ℕ
unfolding int32
clip pod_count left =
    if ltb_ℤ (pos left) (int32 pod_count) || leb_ℤ (int32 pod_count) (pos 0)
    then left
    else pos_part (int32 pod_count)

unfoldable pub add_in_order :
    VerticaDb
    → List PodFact
    → List SubclusterPodCount
    → List ℕ × List PodFact
    → Option (List ℕ × List PodFact)
unfolding add_pods_from_subcluster clip
add_in_order vdb pfacts [] s = some s
add_in_order vdb pfacts (cur ∷ order) s =
    if ltb_ℤ cur.subcluster_index (pos 0)
      || leb_ℤ (pos (length vdb.spec.subclusters)) cur.subcluster_index
    then none
    else (add_pods_from_subcluster vdb pfacts (pos_part cur.subcluster_index) (clip cur.pod_count) s
        >>= add_in_order vdb pfacts order)

-- The last loop, over the `n` subclusters from index `i` on.
unfoldable pub add_rest :
    VerticaDb → List PodFact → ℕ → ℕ → List ℕ × List PodFact → Option (List ℕ × List PodFact)
unfolding add_pods_from_subcluster
add_rest vdb pfacts zero i s = some s
add_rest vdb pfacts (suc n) i s =
    (add_pods_from_subcluster vdb pfacts i (λ left. left) s >>= add_rest vdb pfacts n (suc i))

-- getPodList.
unfoldable pub get_pod_list : VerticaDb → List PodFact → Option (List PodFact)
unfolding add_in_order add_rest
get_pod_list vdb pfacts =
    (add_in_order vdb pfacts vdb.spec.revive_order (pods_left vdb.spec.subclusters, []) >>= λ s.
    add_rest vdb pfacts (length vdb.spec.subclusters) 0 s >>= λ (counts, pod_list). some pod_list)
