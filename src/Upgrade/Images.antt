-- ===== src/Upgrade/Images.antt =====
-- The two loops of UpgradeManager that bring the new image to the objects of a cluster. Finder
-- lists the objects that exist, and each change is a call of the client, which may fail.
pub mod Handles
pub mod Laws
pub mod Progress
pub mod Pods
use text.Mathlib.Text.{◌==◌}
use vertica_kubernetes.Prelude.{
  ℕ, suc, ◌≡◌, String, List, [], ◌∷◌, map, Option, none, some, Bool, true, false, not, ◌&&◌,
  if◌then◌else◌, keep, is_some, any,
}
use vertica_kubernetes.Prelude.Maps.{lookup}
use vertica_kubernetes.Api.Methods.{gen_subcluster_map}
use vertica_kubernetes.Finder.{
  FindFlags, build_obj_list, find_existing, find_in_vdb, label_text, subcluster_name_label,
}
use vertica_kubernetes.Labels.{parse_bool, subcluster_transient_label}
use vertica_kubernetes.Upgrade.World.{
  StatefulSet, Pod, World, Outcome, proceed, fail_with, client_call,
}

-- FindStatefulSets and FindPods: the objects, unless the call fails. The source's finder keeps the map
-- of the subclusters that it was made with; here it is that of the VerticaDB at the call.
unfoldable pub find_stateful_sets : FindFlags → World → Option (List StatefulSet) × World
unfolding client_call build_obj_list gen_subcluster_map
find_stateful_sets flags w =
    let (ok, w') = client_call w in
    (
      if ok
          then some (
              build_obj_list (λ (s : StatefulSet). s.labels) flags
                (gen_subcluster_map w.vdb.spec.subclusters) w.statefulsets)
          else none,
      w',
    )

unfoldable pub find_pods : FindFlags → World → Option (List Pod) × World
unfolding client_call build_obj_list gen_subcluster_map
find_pods flags w =
    let (ok, w') = client_call w in
    (
      if ok
          then some (
              build_obj_list (λ (p : Pod). p.labels) flags
                (gen_subcluster_map w.vdb.spec.subclusters) w.pods)
          else none,
      w',
    )

-- Client.Update of a statefulset that was just fetched: the two fields that the code sets.
unfoldable pub set_image : String → String → StatefulSet → StatefulSet
set_image name image s = if s.name == name then record s { image = image; on_delete = true } else s

-- Whether the image was changed, unless the call fails.
unfoldable pub update_image_in_stateful_set : StatefulSet → World → Option Bool × World
unfolding client_call set_image
update_image_in_stateful_set sts w =
    let (ok, w') = client_call w in
    if sts.image == w.vdb.spec.image
    then (some false, w)
    else if ok
    then (
      some true,
      record w' { statefulsets = map (set_image sts.name w.vdb.spec.image) w'.statefulsets },
    )
    else (none, w')

-- strconv.ParseBool of the label that marks the transient subcluster.
unfoldable pub transient_label : StatefulSet → Option Bool
unfolding lookup parse_bool
transient_label sts = parse_bool (label_text (lookup subcluster_transient_label sts.labels))

abbrev pub counted : ℕ → Bool → ℕ
counted n changed = if changed then suc n else n

-- The loop over the statefulsets, with the number that it has changed.
unfoldable pub update_images : List StatefulSet → ℕ → World → ℕ × Outcome × World
unfolding transient_label update_image_in_stateful_set
update_images [] n w = (n, proceed, w)
update_images (sts ∷ stss) n w = elim (transient_label sts) [
  | none ↦ (n, fail_with "the transient label is no truth value", w)
  | some true ↦ update_images stss n w
  | some false ↦
      let (updated, w') = update_image_in_stateful_set sts w in
      elim updated [
        | none ↦ (n, fail_with "update of the statefulset failed", w')
        | some changed ↦ update_images stss (counted n changed) w'
      ]
]

unfoldable pub update_image_in_stateful_sets : World → ℕ × Outcome × World
unfolding update_images find_stateful_sets
update_image_in_stateful_sets w =
    let (found, w') = find_stateful_sets find_existing w in
    elim found [
      | none ↦ (0, fail_with "list of the statefulsets failed", w')
      | some stss ↦ update_images stss 0 w'
    ]

-- The two tests of the loop over the pods: `sc_name` limits it to a subcluster, if not empty.
unfoldable pub is_in_scope : String → Pod → Bool
unfolding lookup
is_in_scope sc_name pod =
    if sc_name == "" then true else elim (lookup subcluster_name_label pod.labels) [
      | none ↦ true
      | some label ↦ label == sc_name
    ]

abbrev pub delete_pod : String → List Pod → List Pod
delete_pod name pods = keep (λ p. not (p.name == name)) pods

unfoldable pub delete_pods : String → List Pod → ℕ → World → ℕ × Option String × World
unfolding is_in_scope client_call
delete_pods sc_name [] n w = (n, none, w)
delete_pods sc_name (pod ∷ pods) n w =
    let (ok, w') = client_call w in
    let skip = delete_pods sc_name pods n w in
    let next =
      delete_pods sc_name pods (suc n) (record w' { pods = delete_pod pod.name w'.pods }) in
    if is_in_scope sc_name pod && not (pod.image == w.vdb.spec.image)
    then if ok then next else (n, some "delete of the pod failed", w')
    else skip

unfoldable pub delete_pods_running_old_image : String → World → ℕ × Option String × World
unfolding delete_pods find_pods
delete_pods_running_old_image sc_name w =
    let (found, w') = find_pods find_existing w in
    elim found [
      | none ↦ (0, some "list of the pods failed", w')
      | some pods ↦ delete_pods sc_name pods 0 w'
    ]

-- isVDBImageDifferent; no answer where the list fails.
unfoldable pub is_vdb_image_different : World → Option Bool × World
unfolding find_stateful_sets
is_vdb_image_different w =
    let (found, w') = find_stateful_sets find_in_vdb w in
    elim found [
      | none ↦ (none, w')
      | some stss ↦ (some (any (λ (s : StatefulSet). not (s.image == w.vdb.spec.image)) stss), w')
    ]
