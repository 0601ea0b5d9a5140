-- ===== src/Status.antt =====
-- pkg/vdbstatus/status.go: the condition array of a VerticaDB, with the tables of its conditions
-- from api/v1beta1/verticadb_types.go.
pub mod Laws
pub mod Others
use text.Mathlib.Text.{◌==◌}
use vertica_kubernetes.Prelude.{
  ℕ, zero, suc, ◌-◌, String, List, [], ◌∷◌, ◌++◌, Option, none, some, Bool, true, false,
  if◌then◌else◌, length, get_elem?, set,
}
use vertica_kubernetes.Prelude.Int.{pos}
use vertica_kubernetes.Api.Types.{VerticaDbCondition, VerticaDb}
use vertica_kubernetes.Api.Methods.{is_condition_index_set}
use vertica_kubernetes.Api.Constants.{condition_false}

-- VerticaDBConditionNameMap, by its index: a Go map has the empty name for an index it lacks.
abbrev condition_names : List String
condition_names =
    "AutoRestartVertica" ∷ "DBInitialized" ∷ "ImageChangeInProgress" ∷ "OfflineUpgradeInProgress"
    ∷ "OnlineUpgradeInProgress" ∷ "VerticaRestartNeeded" ∷ []

abbrev or_empty : Option String → String
or_empty none = ""
or_empty (some name) = name

abbrev pub condition_name : ℕ → String
condition_name i = or_empty (get_elem? condition_names i)

-- VerticaDBConditionIndexMap.
abbrev pub condition_index : String → Option ℕ
condition_index name =
    if name == "AutoRestartVertica"
    then some 0
    else if name == "DBInitialized"
    then some 1
    else if name == "ImageChangeInProgress"
    then some 2
    else if name == "OfflineUpgradeInProgress"
    then some 3
    else if name == "OnlineUpgradeInProgress"
    then some 4
    else if name == "VerticaRestartNeeded"
    then some 5
    else none

-- The condition that the array has at index `i` before it is set; its time is the epoch.
abbrev pub unset_condition : ℕ → VerticaDbCondition
unset_condition i = record {
  type_name = condition_name i;
  status = condition_false;
  last_transition_time = pos 0;
}

-- `count` rounds of the loop that makes the array big enough.
unfoldable pub extend : ℕ → List VerticaDbCondition → List VerticaDbCondition
extend zero conditions = conditions
extend (suc count) conditions =
    extend count (conditions ++ unset_condition (length conditions) ∷ [])

-- The write at an index, where the status differs.
abbrev pub write_condition :
    VerticaDbCondition
    → ℕ
    → List VerticaDbCondition
    → Option VerticaDbCondition
    → List VerticaDbCondition
write_condition condition inx conditions none = conditions
write_condition condition inx conditions (some old) =
    if old.status == condition.status then conditions else set conditions inx condition

-- refreshConditionInPlace; `none` is the error that the condition's type is missing.
unfoldable pub refresh_condition_at :
    VerticaDbCondition → List VerticaDbCondition → Option ℕ → Option (List VerticaDbCondition)
unfolding extend
refresh_condition_at condition conditions none = none
refresh_condition_at condition conditions (some inx) =
    let extended = extend (suc inx - length conditions) conditions in
    some (write_condition condition inx extended (get_elem? extended inx))

unfoldable pub refresh_condition_in_place :
    VerticaDbCondition → List VerticaDbCondition → Option (List VerticaDbCondition)
unfolding refresh_condition_at
refresh_condition_in_place condition conditions =
    refresh_condition_at condition conditions (condition_index condition.type_name)

-- The answer for an index, if the condition has one.
unfoldable pub is_condition_set_at : VerticaDb → Option ℕ → Option Bool
unfolding is_condition_index_set
is_condition_set_at v none = none
is_condition_set_at v (some inx) = some (is_condition_index_set v inx)

-- IsConditionSet; `none` is the error that the condition is missing.
unfoldable pub is_condition_set : VerticaDb → String → Option Bool
unfolding is_condition_set_at
is_condition_set v status_condition = is_condition_set_at v (condition_index status_condition)

-- The object with another condition array.
abbrev pub set_conditions : VerticaDb → List VerticaDbCondition → VerticaDb
set_conditions v conditions = record v { status = record (v.status) { conditions = conditions } }
