-- ===== src/PodFacts.antt =====
-- pkg/controllers/vdb/podfacts.go: the facts on the pods of a database, and the functions that find
-- pods and count them. `Detail` is a map, whose order Go leaves open: the facts are a list, in any
-- order.
pub mod Laws
use text.Mathlib.Text.{◌==◌}
use vertica_kubernetes.Prelude.{
  ℕ, ◌+◌, String, List, [], ◌∷◌, Option, none, some, Bool, true, false, not, ◌&&◌, ◌||◌,
  if◌then◌else◌, keep, any,
}
use vertica_kubernetes.Prelude.Int.{ℤ}
use vertica_kubernetes.Api.Types.{Opaque}

pub record PodFact : Type 0 where
  pub name : String × String  -- types.NamespacedName: namespace and name
  pub pod_index : ℤ
  pub dns_name : String
  pub pod_ip : String
  pub subcluster : String
  pub is_primary : Bool
  pub image : String
  pub exists : Bool
  pub is_pod_running : Bool
  pub managed_by_parent : Bool
  pub pending_delete : Bool
  pub is_installed : Bool
  pub has_stale_admintools_conf : Bool
  pub db_exists : Bool
  pub up_node : Bool
  pub read_only : Bool
  pub vnode_name : String
  pub compat21_node_name : String
  pub eula_accepted : Opaque  -- tristate.TriState, another package's
  pub config_logrotate_exists : Bool
  pub config_logrotate_writable : Bool
  pub config_share_exists : Bool
  pub is_transient : Bool
  pub shard_subscriptions : ℤ
  pub has_dc_table_annotations : Bool

unfoldable pub does_db_exist : List PodFact → Bool
does_db_exist detail = any (λ v. v.db_exists) detail

-- The loop that returns the first fact that passes a test.
unfoldable pub find_pod : (PodFact → Bool) → List PodFact → Option PodFact
find_pod test [] = none
find_pod test (v ∷ vs) = if test v then some v else find_pod test vs

unfoldable pub find_pod_to_run_vsql : Bool → String → List PodFact → Option PodFact
unfolding find_pod
find_pod_to_run_vsql allow_read_only sc_name detail =
    find_pod
      (λ v.
        if not (sc_name == "") && not (v.subcluster == sc_name)
        then false
        else v.up_node && (allow_read_only || not v.read_only))
      detail

-- The second search is made where the first found nothing.
abbrev pub or_else : Option PodFact → Option PodFact → Option PodFact
or_else none o = o
or_else (some v) o = some v

unfoldable pub find_pod_to_run_admintools_any : List PodFact → Option PodFact
unfolding find_pod
find_pod_to_run_admintools_any detail =
    or_else (find_pod (λ v. v.up_node && not v.read_only) detail) (
      or_else (find_pod (λ v. v.up_node) detail)
        (find_pod (λ v. v.is_installed && v.is_pod_running) detail))

unfoldable pub find_pod_to_run_admintools_offline : List PodFact → Option PodFact
unfolding find_pod
find_pod_to_run_admintools_offline detail =
    find_pod (λ v. v.is_installed && v.is_pod_running && not v.up_node) detail

unfoldable pub find_running_pod : List PodFact → Option PodFact
unfolding find_pod
find_running_pod detail = find_pod (λ v. v.is_pod_running) detail

abbrev pub filter_pods : (PodFact → Bool) → List PodFact → List PodFact
filter_pods = keep

unfoldable pub find_restartable_pods : Bool → Bool → List PodFact → List PodFact
find_restartable_pods restart_read_only restart_transient detail =
    filter_pods
      (λ v.
        if not restart_transient && v.is_transient
        then false
        else (not v.up_node || (restart_read_only && v.read_only))
          && v.db_exists
          && v.is_pod_running
          && v.has_dc_table_annotations)
      detail

unfoldable pub find_installed_pods : List PodFact → List PodFact
find_installed_pods detail = filter_pods (λ v. v.is_installed && v.is_pod_running) detail

unfoldable pub find_re_ip_pods : Bool → List PodFact → List PodFact
find_re_ip_pods only_pods_without_dbs detail =
    filter_pods
      (λ pod.
        if not pod.exists || not pod.is_pod_running || not pod.is_installed
        then false
        else if only_pods_without_dbs && pod.db_exists
        then false
        else true)
      detail

unfoldable pub are_all_pods_running_and_zero_installed : List PodFact → Bool
are_all_pods_running_and_zero_installed [] = true
are_all_pods_running_and_zero_installed (v ∷ vs) =
    if ((not v.exists || not v.is_pod_running) && v.managed_by_parent) || v.is_installed
    then false
    else are_all_pods_running_and_zero_installed vs

-- The loop adds up from the front.
unfoldable pub count_pods_from : ℕ → (PodFact → ℕ) → List PodFact → ℕ
count_pods_from count count_func [] = count
count_pods_from count count_func (v ∷ vs) = count_pods_from (count + count_func v) count_func vs

unfoldable pub count_pods : (PodFact → ℕ) → List PodFact → ℕ
unfolding count_pods_from
count_pods count_func detail = count_pods_from 0 count_func detail

unfoldable pub count_running_and_installed : List PodFact → ℕ
unfolding count_pods
count_running_and_installed detail =
    count_pods (λ v. if v.is_pod_running && v.is_installed then 1 else 0) detail

unfoldable pub count_installed_and_not_restartable : List PodFact → ℕ
unfolding count_pods
count_installed_and_not_restartable detail =
    count_pods
      (λ v.
        if v.is_installed
          && v.managed_by_parent
          && (not v.is_pod_running || not v.has_dc_table_annotations)
        then 1
        else 0)
      detail

unfoldable pub count_up_primary_nodes : List PodFact → ℕ
unfolding count_pods
count_up_primary_nodes detail = count_pods (λ v. if v.up_node && v.is_primary then 1 else 0) detail

unfoldable pub count_not_read_only_with_old_image : String → List PodFact → ℕ
unfolding count_pods
count_not_read_only_with_old_image new_image detail =
    count_pods
      (λ v.
        if v.is_pod_running && v.up_node && not v.read_only && not (v.image == new_image)
        then 1
        else 0)
      detail

unfoldable pub get_up_node_count : List PodFact → ℕ
unfolding count_pods
get_up_node_count detail = count_pods (λ v. if v.up_node then 1 else 0) detail

unfoldable pub get_up_node_and_not_read_only_count : List PodFact → ℕ
unfolding count_pods
get_up_node_and_not_read_only_count detail =
    count_pods (λ v. if v.up_node && not v.read_only then 1 else 0) detail

-- The name of the first fact that passes a test.
abbrev pub name_of : Option PodFact → Option (String × String)
name_of none = none
name_of (some v) = some v.name

unfoldable pub any_installed_pods_not_running : List PodFact → Option (String × String)
unfolding find_pod
any_installed_pods_not_running detail =
    name_of (find_pod (λ v. not v.is_pod_running && v.is_installed) detail)

unfoldable pub any_uninstalled_transient_pods_not_running : List PodFact → Option (String × String)
unfolding find_pod
any_uninstalled_transient_pods_not_running detail =
    name_of (find_pod (λ v. v.is_transient && not v.is_pod_running && not v.is_installed) detail)
