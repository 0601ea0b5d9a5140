-- ===== src/Report.antt =====
-- pkg/controllers/vdb/status_reconcile.go: the status of the subclusters and of the cluster, from the
-- facts on the pods. The reconciler works on the same objects as an upgrade.
pub mod Laws
pub mod Sums
pub mod Reconcile
use Prim.Native.String.{◌++◌ as concat}
use text.Mathlib.Text.{◌==◌}
use vertica_kubernetes.Prelude.{
  ℕ, zero, suc, ◌-◌, String, List, [], ◌∷◌, ◌++◌, map, Option, none, some, Bool, true, false, not,
  ◌&&◌, if◌then◌else◌, length,
}
use vertica_kubernetes.Prelude.Maps.{lookup}
use vertica_kubernetes.Prelude.Int.{ℤ, pos, negsuc, ltb_ℤ}
use vertica_kubernetes.Prelude.Int32.{add32}
use vertica_kubernetes.Prelude.Text.{itoa}
use vertica_kubernetes.Api.Types.{
  Subcluster, VerticaDb, VerticaDbStatus, VerticaDbPodStatus, SubclusterStatus,
}
use vertica_kubernetes.PodFacts.{PodFact}
use vertica_kubernetes.Finder.{find_not_in_vdb, label_text, subcluster_name_label}
use vertica_kubernetes.Upgrade.World.{
  StatefulSet, World, Outcome, proceed, fail_with, Step, client_call,
}
use vertica_kubernetes.Upgrade.Manager.{update}
use vertica_kubernetes.Upgrade.Images.{find_stateful_sets}
use vertica_kubernetes.Upgrade.Routing.{gen_sts_name}

-- A pod's name; its namespace is the VerticaDB's.
unfoldable pub gen_pod_name : VerticaDb → Subcluster → ℕ → String × String
unfolding itoa
gen_pod_name vdb sc i =
    (vdb.meta.namespace, concat vdb.meta.name (concat "-" (concat sc.name (concat "-" (itoa i)))))

-- `PFacts.Detail[podName]`.
unfoldable pub find_fact : String × String → List PodFact → Option PodFact
find_fact name [] = none
find_fact name (pf ∷ pfs) =
    if pf.name.0 == name.0 && pf.name.1 == name.1 then some pf else find_fact name pfs

abbrev pub find_set : String → List StatefulSet → Option StatefulSet
find_set name [] = none
find_set name (s ∷ ss) = if s.name == name then some s else find_set name ss

-- The size, unless the statefulset cannot be fetched.
unfoldable pub get_subcluster_size : Subcluster → World → Option ℤ × World
unfolding client_call gen_sts_name
get_subcluster_size sc w =
    let (ok, w') = client_call w in
    (
      if ok
          then elim (find_set (gen_sts_name w.vdb sc) w.statefulsets) [
            | none ↦ some sc.size
            | some sts ↦ some (if ltb_ℤ sc.size sts.replicas then sts.replicas else sc.size)
          ]
          else none,
      w',
    )

abbrev pub no_pod_status : VerticaDbPodStatus
no_pod_status = record {
  installed = false;
  added_to_db = false;
  vnode_name = "";
  up_node = false;
  read_only = false;
}

-- `count` rounds of the loop that grows the detail.
unfoldable pub grow : ℕ → List VerticaDbPodStatus → List VerticaDbPodStatus
grow zero detail = detail
grow (suc count) detail = grow count (detail ++ no_pod_status ∷ [])

abbrev pub take : ℕ → List VerticaDbPodStatus → List VerticaDbPodStatus
take zero detail = []
take (suc n) [] = []
take (suc n) (d ∷ detail) = d ∷ take n detail

-- The loop appends once before it tests, and then until the size is reached; a negative size is a
-- panic where the detail is cut.
unfoldable pub resize_detail : ℤ → List VerticaDbPodStatus → Option (List VerticaDbPodStatus)
unfolding grow
resize_detail (negsuc n) detail = none
resize_detail (pos size) detail = some (take size (grow (suc (size - suc (length detail))) detail))

-- What the facts on a pod say; a name of the node is kept where the facts have none.
unfoldable pub pod_status : Option PodFact → VerticaDbPodStatus → VerticaDbPodStatus
pod_status none old = old
pod_status (some pf) old = record {
  installed = pf.is_installed;
  added_to_db = pf.db_exists;
  vnode_name = if not (pf.vnode_name == "") then pf.vnode_name else old.vnode_name;
  up_node = pf.up_node;
  read_only = pf.read_only;
}

-- The loop over the detail from index `i` on.
unfoldable pub fill_detail :
    VerticaDb → List PodFact → Subcluster → ℕ → List VerticaDbPodStatus → List VerticaDbPodStatus
unfolding find_fact gen_pod_name pod_status
fill_detail vdb pfacts sc i [] = []
fill_detail vdb pfacts sc i (d ∷ detail) =
    pod_status (find_fact (gen_pod_name vdb sc i) pfacts) d
    ∷ fill_detail vdb pfacts sc (suc i) detail

abbrev pub bump : Bool → ℤ → ℤ
bump b n = if b then add32 n (pos 1) else n

-- The loop that counts.
unfoldable pub count_detail : List VerticaDbPodStatus → SubclusterStatus → SubclusterStatus
unfolding add32
count_detail [] stat = stat
count_detail (d ∷ detail) stat = count_detail detail (record stat {
  install_count = bump d.installed stat.install_count;
  added_to_db_count = bump d.added_to_db stat.added_to_db_count;
  up_node_count = bump d.up_node stat.up_node_count;
  read_only_count = bump d.read_only stat.read_only_count;
})

-- The counts refreshed.
unfoldable pub refresh_counts : String → List VerticaDbPodStatus → SubclusterStatus
unfolding count_detail
refresh_counts name detail = count_detail detail (record {
  name = name;
  install_count = pos 0;
  added_to_db_count = pos 0;
  up_node_count = pos 0;
  read_only_count = pos 0;
  detail = detail;
})

unfoldable pub calculate_subcluster_status :
    Subcluster → SubclusterStatus → World → Option SubclusterStatus × World
unfolding get_subcluster_size resize_detail fill_detail refresh_counts
calculate_subcluster_status sc cur_stat w =
    let (size, w') = get_subcluster_size sc w in
    (
      elim size [
        | none ↦ none
        | some n ↦ elim (resize_detail n cur_stat.detail) [
          | none ↦ none
          | some detail ↦ some (refresh_counts sc.name (fill_detail w.vdb w.pfacts sc 0 detail))
        ]
      ],
      w',
    )

-- The loop that rolls the counts up.
unfoldable pub roll_up : List SubclusterStatus → VerticaDbStatus → VerticaDbStatus
unfolding add32
roll_up [] stat = stat
roll_up (sc ∷ scs) stat = roll_up scs (record stat {
  subcluster_count = add32 stat.subcluster_count (pos 1);
  install_count = add32 stat.install_count sc.install_count;
  added_to_db_count = add32 stat.added_to_db_count sc.added_to_db_count;
  up_node_count = add32 stat.up_node_count sc.up_node_count;
})

unfoldable pub calculate_cluster_status : VerticaDbStatus → VerticaDbStatus
unfolding roll_up
calculate_cluster_status stat = roll_up stat.subclusters (record stat {
  subcluster_count = pos 0;
  install_count = pos 0;
  added_to_db_count = pos 0;
  up_node_count = pos 0;
})

-- The new SubclusterStatus of Go, to which each round of refreshStatus applies.
abbrev pub no_status : SubclusterStatus
no_status = record {
  name = "";
  install_count = pos 0;
  added_to_db_count = pos 0;
  up_node_count = pos 0;
  read_only_count = pos 0;
  detail = [];
}

unfoldable pub calculate_all : List Subcluster → World → Option (List SubclusterStatus) × World
unfolding calculate_subcluster_status
calculate_all [] w = (some [], w)
calculate_all (sc ∷ scs) w =
    let (stat, w') = calculate_subcluster_status sc no_status w in
    let (stats, w'') = calculate_all scs w' in
    elim stat [
      | none ↦ (none, w')
      | some s ↦ elim stats [ none ↦ (none, w'') | some ss ↦ (some (s ∷ ss), w'') ]
    ]
