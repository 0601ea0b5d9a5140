-- ===== src/Upgrade/Manager.antt =====
-- The state of an upgrade in the VerticaDB's status: Update of pkg/vdbstatus/status.go, and the
-- functions of UpgradeManager that start, report on and finish an upgrade.
pub mod Status
pub mod Conditions
pub mod Goals
pub mod Lifecycle
pub mod Progress
use mathlib.Core.Bool.{decide}
use mathlib.Core.List.{List-discrete}
use native.Mathlib.Decide.{ℕ_discrete}
use text.Mathlib.Text.{◌==◌}
use vertica_kubernetes.Prelude.{
  ℕ, zero, suc, ◌≡◌, String, List, [], ◌∷◌, ◌++◌, Option, none, some, Bool, true, false, not,
  if◌then◌else◌, any, length, leb, get_elem?, ltb,
}
use vertica_kubernetes.Prelude.Int.{ℤ, pos, eqb_ℤ, ltb_ℤ}
use vertica_kubernetes.Prelude.Text.{String-discrete}
use vertica_kubernetes.Api.Types.{VerticaDb, VerticaDbStatus, VerticaDbCondition}
use vertica_kubernetes.Api.Constants.{condition_true, condition_false}
use vertica_kubernetes.Status.{refresh_condition_in_place, set_conditions, is_condition_set}
use vertica_kubernetes.Upgrade.World.{World, Outcome, proceed, fail_with, Step, client_call}

pub VerticaDbStatus-discrete : Discrete VerticaDbStatus
VerticaDbStatus-discrete = hlevel (String-discrete, ℕ_discrete)

-- reflect.DeepEqual on two statuses.
unfoldable pub same_status : VerticaDbStatus → VerticaDbStatus → Bool
unfolding decide
same_status a b = decide (VerticaDbStatus-discrete a b)

-- The write at the end of Update, which is left out where nothing differs.
unfoldable pub write_status : VerticaDbStatus → Step
unfolding same_status client_call
write_status status w =
    let (ok, w') = client_call w in
    if same_status w.vdb.status status
    then (proceed, w)
    else if ok
    then (proceed, record w' { vdb = record (w'.vdb) { status = status } })
    else (fail_with "update of the status failed", w')

-- vdbstatus.Update: fetch the object, let `update_func` change a copy, write the status back. A
-- retry on a conflict does the same again, and is part of the call here. Where the write fails the
-- source leaves the new status in its own copy, which the next iteration fetches anew.
unfoldable pub update : (VerticaDb → Option VerticaDb) → Step
unfolding write_status client_call
update update_func w =
    let (ok, w') = client_call w in
    if ok
    then (elim (update_func w'.vdb) [
      | none ↦ (fail_with "refresh of the status failed", w')
      | some vdb_chg ↦ write_status vdb_chg.status w'
    ])
    else (fail_with "fetch of the vdb failed", w')

abbrev with_conditions : VerticaDb → Option (List VerticaDbCondition) → Option VerticaDb
with_conditions vdb none = none
with_conditions vdb (some conditions) = some (set_conditions vdb conditions)

-- The function that UpdateCondition hands to Update.
unfoldable pub refresh_vdb : VerticaDbCondition → VerticaDb → Option VerticaDb
unfolding refresh_condition_in_place
refresh_vdb condition vdb =
    with_conditions vdb (refresh_condition_in_place condition vdb.status.conditions)

-- UpdateCondition; the callers here leave the time out, so that it is now.
unfoldable pub update_condition : String → String → Step
unfolding update
update_condition type_name status w =
    update
      (refresh_vdb
        (record { type_name = type_name; status = status; last_transition_time = w.now }))
      w

-- The second function, if the first does not return an error.
abbrev pub and_then : Outcome × World → Step → Outcome × World
and_then (res, w) next = elim res.err [ some e ↦ (res, w) | none ↦ next w ]

unfoldable pub toggle_image_change_in_progress : String → String → Step
unfolding update_condition
toggle_image_change_in_progress status_condition new_val w =
    and_then (update_condition "ImageChangeInProgress" new_val w)
      (update_condition status_condition new_val)

-- UpdateUpgradeStatus.
abbrev pub set_message : String → VerticaDb → Option VerticaDb
set_message msg vdb = some (record vdb { status = record (vdb.status) { upgrade_status = msg } })

unfoldable pub set_upgrade_status : String → Step
unfolding update
set_upgrade_status msg = update (set_message msg)

abbrev pub add_event : String → World → World
add_event e w = record w { events = w.events ++ e ∷ [] }

-- The metric that is counted with the event is left out.
unfoldable pub start_upgrade : String → Step
unfolding toggle_image_change_in_progress
start_upgrade status_condition w =
    and_then (toggle_image_change_in_progress status_condition condition_true w)
      (λ w'. (proceed, if w'.continuing_upgrade then w' else add_event "UpgradeStart" w'))

unfoldable pub finish_upgrade : String → Step
unfolding set_upgrade_status toggle_image_change_in_progress
finish_upgrade status_condition w =
    and_then
      (and_then (set_upgrade_status "" w)
        (toggle_image_change_in_progress status_condition condition_false))
      (λ w'. (proceed, add_event "UpgradeSucceeded" w'))

-- Whether the condition is set, which is noted; or an error, where there is none of its type.
unfoldable pub is_upgrade_in_progress : String → World → Option Bool × World
unfolding is_condition_set
is_upgrade_in_progress status_condition w = elim (is_condition_set w.vdb status_condition) [
  | some true ↦ (some true, record w { continuing_upgrade = true })
  | some false ↦ (some false, w)
  | none ↦ (none, w)
]

-- `statusMsgs[j] == UpgradeStatus` for an index below `n`.
unfoldable pub is_earlier : ℕ → String → List String → Bool
is_earlier zero current msgs = false
is_earlier (suc n) current [] = false
is_earlier (suc n) current (msg ∷ msgs) = if msg == current then true else is_earlier n current msgs

-- `statusMsgs[msgIndex]`, behind the test of the index.
abbrev pub message_at : List String → ℕ → String
message_at [] i = ""
message_at (msg ∷ msgs) zero = msg
message_at (msg ∷ msgs) (suc i) = message_at msgs i

unfoldable pub post_next_status_msg : List String → ℕ → Step
unfolding set_upgrade_status is_earlier
post_next_status_msg status_msgs msg_index w =
    let post = set_upgrade_status (message_at status_msgs msg_index) w in
    let current = w.vdb.status.upgrade_status in
    elim (ltb msg_index (length status_msgs)) [
      | false ↦ (fail_with "msgIndex out of bounds", w)
      | true ↦ elim msg_index [
        | zero ↦ if current == "" then post else (proceed, w)
        | suc n ↦ if is_earlier (suc n) current status_msgs then post else (proceed, w)
      ]
    ]
