-- ===== src/Finder.antt =====
-- pkg/iter/sc_finder.go: the objects of the operator, by the subcluster that their labels name.
use vertica_kubernetes.Prelude.{
  String, List, Option, none, some, Bool, true, false, not, ◌&&◌, ◌||◌, if◌then◌else◌, keep,
  is_some,
}
use vertica_kubernetes.Prelude.Maps.{lookup}
use vertica_kubernetes.Api.Types.{Subcluster}

abbrev pub Labels : Type 0
Labels = List (String × String)

abbrev pub subcluster_name_label : String
subcluster_name_label = "vertica.com/subcluster-name"

abbrev pub subcluster_legacy_name_label : String
subcluster_legacy_name_label = "vertica.com/subcluster"

-- The bits of the flags; FindAll is the first two.
pub record FindFlags : Type 0 where
  pub in_vdb : Bool
  pub not_in_vdb : Bool
  pub existing : Bool
  pub sorted : Bool

abbrev pub find_in_vdb : FindFlags
find_in_vdb = record { in_vdb = true; not_in_vdb = false; existing = false; sorted = false }

abbrev pub find_not_in_vdb : FindFlags
find_not_in_vdb = record { in_vdb = false; not_in_vdb = true; existing = false; sorted = false }

abbrev pub find_existing : FindFlags
find_existing = record { in_vdb = false; not_in_vdb = false; existing = true; sorted = false }

abbrev pub find_all : FindFlags
find_all = record { in_vdb = true; not_in_vdb = true; existing = false; sorted = false }

-- A missing label reads as the empty text.
abbrev pub label_text : Option String → String
label_text none = ""
label_text (some t) = t

unfoldable pub has_subcluster_name_label : Labels → Bool
has_subcluster_name_label l =
    is_some (lookup subcluster_name_label l) || is_some (lookup subcluster_legacy_name_label l)

unfoldable pub has_subcluster_label_from_vdb : List (String × Subcluster) → Labels → Bool
has_subcluster_label_from_vdb subclusters l =
    is_some (lookup (label_text (lookup subcluster_name_label l)) subclusters)

-- The test that buildObjList makes of the labels of an object.
unfoldable pub is_selected : FindFlags → List (String × Subcluster) → Labels → Bool
unfolding has_subcluster_name_label has_subcluster_label_from_vdb
is_selected flags subclusters l =
    let is_sc_from_vdb = has_subcluster_label_from_vdb subclusters l in
    if flags.in_vdb && flags.not_in_vdb
    then true
    else if not (has_subcluster_name_label l)
    then false
    else if flags.existing
    then true
    else (flags.in_vdb && is_sc_from_vdb) || (flags.not_in_vdb && not is_sc_from_vdb)

-- The objects of the operator that the flags select; `labels_of` is getLabelsFromObject for the
-- objects of the list's type. The order by name, which the flags may ask for, is left to the list.
unfoldable pub build_obj_list :
    {A : Type 0} → (A → Labels) → FindFlags → List (String × Subcluster) → List A → List A
unfolding is_selected
build_obj_list labels_of flags subclusters list =
    keep (λ obj. is_selected flags subclusters (labels_of obj)) list
