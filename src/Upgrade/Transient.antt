-- ===== src/Upgrade/Transient.antt =====
-- The transient subcluster of an online upgrade (pkg/controllers/vdb/onlineupgrade_reconciler.go):
-- the state of the reconciler, whether the subcluster is needed, and its way into the VerticaDB and
-- out of it.
pub mod Laws
use text.Mathlib.Text.{◌==◌}
use vertica_kubernetes.Prelude.{
  ℕ, zero, suc, ◌≡◌, String, List, [], ◌∷◌, ◌++◌, Option, none, some, Bool, true, false, not, ◌&&◌,
  ◌||◌, if◌then◌else◌, any, length, get_elem?, is_some,
}
use vertica_kubernetes.Prelude.Maps.{lookup}
use vertica_kubernetes.Api.Types.{Subcluster, VerticaDb}
use vertica_kubernetes.Api.Methods.{
  requires_transient_subcluster, find_transient_subcluster, build_transient_subcluster,
}
use vertica_kubernetes.PodFacts.{find_pod_to_run_vsql}
use vertica_kubernetes.Finder.{find_existing, label_text}
use vertica_kubernetes.Labels.{subcluster_type_label}
use vertica_kubernetes.Upgrade.World.{StatefulSet, World, Outcome, proceed, fail_with, client_call}
use vertica_kubernetes.Upgrade.Images.{find_stateful_sets, transient_label}

abbrev pub primary_subcluster_type : String
primary_subcluster_type = "primary"

-- OnlineUpgradeReconciler, with what it works on.
pub record Online : Type 0 where
  pub world : World
  pub transient_sc : Option Subcluster
  pub primary_images : List String
  pub status_msgs : List String
  pub posted : ℕ  -- MsgIndex + 1

abbrev pub OnlineStep : Type 0
OnlineStep = Online → Outcome × Online

abbrev pub set_world : World → Online → Online
set_world w o = record o { world = w }

abbrev pub set_subclusters : List Subcluster → World → World
set_subclusters scs w = record w {
  vdb = record (w.vdb) { spec = record (w.vdb.spec) { subclusters = scs } };
}

-- `sts.Labels[builder.SubclusterTypeLabel]`.
unfoldable pub type_label : StatefulSet → String
unfolding lookup
type_label sts = label_text (lookup subcluster_type_label sts.labels)

-- Matching the type of a subcluster, which the transient one never does; no answer where the label
-- is no truth value.
unfoldable pub is_matching_subcluster_type : StatefulSet → String → Option Bool
unfolding transient_label type_label
is_matching_subcluster_type sts sc_type = elim (transient_label sts) [
  | none ↦ none
  | some is_transient ↦ some (type_label sts == sc_type && not is_transient)
]

-- The loop over the statefulsets that collects the images of the primaries, each once.
unfoldable pub cache_images : List StatefulSet → List String → List String
unfolding type_label
cache_images [] images = images
cache_images (sts ∷ stss) images = cache_images stss (
    if type_label sts == primary_subcluster_type
      && not (any (λ (img : String). img == sts.image) images)
    then images ++ sts.image ∷ []
    else images)

unfoldable pub cache_primary_images : OnlineStep
unfolding find_stateful_sets cache_images
cache_primary_images o =
    let (found, w) = find_stateful_sets find_existing o.world in
    elim found [
      | none ↦ (fail_with "list of the statefulsets failed", set_world w o)
      | some stss ↦
          (proceed, record o { world = w; primary_images = cache_images stss o.primary_images })
    ]

-- loadSubclusterState, after the facts are collected.
unfoldable pub load_subcluster_state : OnlineStep
unfolding cache_primary_images find_transient_subcluster
load_subcluster_state o =
    cache_primary_images
      (record o { transient_sc = find_transient_subcluster o.world.vdb.spec.subclusters })

unfoldable pub fetch_old_image : String → List String → Option String
fetch_old_image image [] = none
fetch_old_image image (img ∷ imgs) =
    if not (img == image) then some img else fetch_old_image image imgs

-- The primaries have just the new image.
abbrev pub only_image : String → List String → Bool
only_image image [] = false
only_image image (img ∷ []) = img == image
only_image image (img ∷ other ∷ imgs) = false

unfoldable pub skip_transient_setup : Online → Bool
unfolding requires_transient_subcluster find_pod_to_run_vsql
skip_transient_setup o =
    let vdb = o.world.vdb in
    if not (requires_transient_subcluster vdb) || only_image vdb.spec.image o.primary_images
    then true
    else not (is_some (find_pod_to_run_vsql false "" o.world.pfacts))

-- The function that is retried on a conflict: fetch the VerticaDB, add the subcluster unless there
-- is a transient one, and write. A write that fails leaves the subcluster cached; the source keeps it
-- in its own copy of the VerticaDB as well, which the next call fetches anew.
unfoldable pub put_transient : Subcluster → OnlineStep
unfolding client_call find_transient_subcluster
put_transient sc o =
    let (fetched, w) = client_call o.world in
    let (written, w') = client_call w in
    let scs = w.vdb.spec.subclusters in
    if not fetched
    then (fail_with "fetch of the vdb failed", set_world w o)
    else elim (find_transient_subcluster scs) [
      | some other ↦ (proceed, record o { world = w; transient_sc = some other })
      | none ↦
          if written
          then (
            proceed,
            record o {
              world = record (set_subclusters (scs ++ sc ∷ []) w') { facts_valid = false };
              transient_sc = some sc;
            },
          )
          else (
            fail_with "update of the vdb failed",
            record o { world = w'; transient_sc = some sc },
          )
    ]

-- `zero_value` is that of the fields whose type is a library's.
unfoldable pub add_transient_to_vdb : String → OnlineStep
unfolding skip_transient_setup fetch_old_image build_transient_subcluster put_transient
add_transient_to_vdb zero_value o =
    if is_some o.transient_sc
    then (proceed, o)
    else if skip_transient_setup o
    then (proceed, o)
    else elim (fetch_old_image o.world.vdb.spec.image o.primary_images) [
      | none ↦ (fail_with "could not determine the old image name", o)
      | some old_image ↦
          put_transient (build_transient_subcluster o.world.vdb old_image zero_value) o
    ]

-- `append(scs[:i], scs[i+1:]...)`.
abbrev pub remove_at : ℕ → List Subcluster → List Subcluster
remove_at i [] = []
remove_at zero (sc ∷ scs) = scs
remove_at (suc i) (sc ∷ scs) = sc ∷ remove_at i scs

abbrev pub is_transient_at : Option Subcluster → Bool
is_transient_at none = false
is_transient_at (some sc) = sc.is_transient

-- The loop over the indexes below `n`, the last first; with it, whether one was removed.
unfoldable pub remove_transients : ℕ → Bool → List Subcluster → Bool × List Subcluster
remove_transients zero removed_transient scs = (removed_transient, scs)
remove_transients (suc i) removed_transient scs =
    let found = is_transient_at (get_elem? scs i) in
    remove_transients i (removed_transient || found) (if found then remove_at i scs else scs)

unfoldable pub remove_transient_from_vdb : OnlineStep
unfolding requires_transient_subcluster client_call remove_transients
remove_transient_from_vdb o =
    let (fetched, w) = client_call o.world in
    let (written, w') = client_call w in
    let (removed_transient, scs) =
      remove_transients (length w.vdb.spec.subclusters) false w.vdb.spec.subclusters in
    let forgotten = record o { transient_sc = none } in
    if not (requires_transient_subcluster o.world.vdb)
    then (proceed, o)
    else if not fetched
    then (fail_with "fetch of the vdb failed", set_world w o)
    else if not removed_transient
    then (proceed, set_world w o)
    else if written
    then (proceed, set_world (record (set_subclusters scs w') { facts_valid = false }) forgotten)
    else (
      fail_with "update of the vdb failed",
      set_world (record w' { facts_valid = false }) forgotten,
    )
