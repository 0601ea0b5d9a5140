-- ===== src/Report/Reconcile.antt =====
-- Which subclusters the status is about, and Reconcile of the status reconciler.
use vertica_kubernetes.Prelude.{
  List, [], ◌++◌, map, Option, none, some, String, false, not, ◌||◌, if◌then◌else◌,
}
use vertica_kubernetes.Prelude.Maps.{lookup}
use vertica_kubernetes.Prelude.Int.{pos}
use vertica_kubernetes.Api.Types.{Subcluster}
use vertica_kubernetes.Finder.{FindFlags, find_all, label_text, subcluster_name_label}
use vertica_kubernetes.Upgrade.World.{StatefulSet, World, fail_with, Step, client_call}
use vertica_kubernetes.Upgrade.Manager.{write_status}
use vertica_kubernetes.Upgrade.Images.{find_stateful_sets}
use vertica_kubernetes.Report.{calculate_all, calculate_cluster_status}

-- The stub of a subcluster, of which only the name is known.
abbrev pub stub : String → Subcluster
stub name = record {
  name = name;
  size = pos 0;
  is_primary = false;
  is_transient = false;
  image_override = "";
  node_selector = "";
  affinity = record { node_affinity = ""; pod_affinity = ""; pod_anti_affinity = "" };
  priority_class_name = "";
  tolerations = "";
  resources = "";
  service_type = "";
  service_name = "";
  node_port = pos 0;
  external_ips = none;
  load_balancer_ip = "";
  service_annotations = "";
}

abbrev pub stub_of : StatefulSet → Subcluster
stub_of s = stub (label_text (lookup subcluster_name_label s.labels))

-- FindSubclusters, without the order by name that a flag may ask for.
unfoldable pub find_subclusters : FindFlags → World → Option (List Subcluster) × World
unfolding find_stateful_sets lookup
find_subclusters flags w =
    let in_vdb = if flags.in_vdb then w.vdb.spec.subclusters else [] in
    let (found, w') = find_stateful_sets (record flags { in_vdb = false }) w in
    if flags.not_in_vdb || flags.existing
    then elim found [ none ↦ (none, w') | some stss ↦ (some (in_vdb ++ map stub_of stss), w') ]
    else (some in_vdb, w)

-- The function that is retried: fetch, calculate with further calls, write.
unfoldable pub refresh_status : List Subcluster → Step
unfolding client_call calculate_all calculate_cluster_status write_status
refresh_status subclusters w =
    let (fetched, w1) = client_call w in
    let (stats, w2) = calculate_all subclusters w1 in
    if not fetched then (fail_with "fetch of the vdb failed", w1) else elim stats [
      | none ↦ (fail_with "failed to calculate subcluster status", w2)
      | some ss ↦
          write_status (calculate_cluster_status (record (w1.vdb.status) { subclusters = ss })) w2
    ]

-- Reconcile; the collection of facts is a parameter.
unfoldable pub report_reconcile : Step → Step
unfolding find_subclusters refresh_status
report_reconcile collect w =
    let (res, w1) = collect w in
    let (found, w2) = find_subclusters find_all w1 in
    elim res.err [
      | some e ↦ (fail_with e, w1)
      | none ↦ elim found [
        | none ↦ (fail_with "list of the subclusters failed", w2)
        | some subclusters ↦ refresh_status subclusters w2
      ]
    ]
