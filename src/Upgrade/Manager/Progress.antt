-- ===== src/Upgrade/Manager/Progress.antt =====
-- The start of an upgrade gets to its end, and has done its work.
use vertica_kubernetes.Prelude.{
  ℕ, ◌≡◌, ◌≢◌, refl, sym, ◌∙◌, ap, inl, inr, String, [], Option, none, some, true, subst,
  if◌then◌else◌, Bool-cases,
}
use vertica_kubernetes.Api.Types.{VerticaDb, VerticaDbStatus, VerticaDbCondition}
use vertica_kubernetes.Api.Constants.{condition_true, image_change_in_progress_index}
use vertica_kubernetes.Status.{condition_index, set_conditions}
use vertica_kubernetes.Status.Laws.{IsIndexed, refresh_condition_in_place-IsRefreshed}
use vertica_kubernetes.Upgrade.World.{World, Outcome, Step, client_call, proceed}
use vertica_kubernetes.Upgrade.Manager.{
  write_status, update, same_status, refresh_vdb, update_condition, toggle_image_change_in_progress,
  start_upgrade, and_then, add_event,
}
use vertica_kubernetes.Upgrade.Manager.Status.{client_call-IsFrame}
use vertica_kubernetes.Upgrade.Manager.Conditions.{
  HasConditions, IsToggled, Toggles, update_condition-IsWritten,
}
use vertica_kubernetes.Upgrade.Manager.Goals.{with_start_event}
use vertica_kubernetes.Upgrade.Manager.Lifecycle.{start_upgrade-Toggles}

pub client_call-calm :
    (w : World) → w.faults ≡ [] → ((client_call w).0 ≡ true) × ((client_call w).1.faults ≡ [])
unfolding client_call
client_call-calm w e = rw e (refl, refl)

write_status-calm :
    (status : VerticaDbStatus) (w : World)
    → w.faults ≡ []
    → ((write_status status w).0.err ≡ none) × ((write_status status w).1.faults ≡ [])
unfolding write_status
write_status-calm status w e =
    let (fine, calm) = client_call-calm w e in
    elim (Bool-cases (same_status w.vdb.status status)) [
      | inl k ↦ rw k (refl, e)
      | inr k ↦ rw (k, fine) (refl, calm)
    ]

update-calm :
    (update_func : VerticaDb → Option VerticaDb) (w : World) (vdb_chg : VerticaDb)
    → w.faults ≡ []
    → update_func (client_call w).1.vdb ≡ some vdb_chg
    → ((update update_func w).0.err ≡ none) × ((update update_func w).1.faults ≡ [])
unfolding update
update-calm update_func w vdb_chg e k =
    let (fine, calm) = client_call-calm w e in
    rw (fine, k) (write_status-calm vdb_chg.status (client_call w).1 calm)

refresh_vdb-some :
    (c : VerticaDbCondition) (inx : ℕ) (vdb : VerticaDb)
    → condition_index c.type_name ≡ some inx
    → IsIndexed 0 vdb.status.conditions
    → (vdb_chg : VerticaDb) × (refresh_vdb c vdb ≡ some vdb_chg)
unfolding refresh_vdb
refresh_vdb-some c inx vdb known h =
    let (conditions, k, _) =
      refresh_condition_in_place-IsRefreshed c inx vdb.status.conditions known h in
    (set_conditions vdb conditions, rw k refl)

update_condition-calm :
    (type_name status : String) (inx : ℕ) (w : World)
    → condition_index type_name ≡ some inx
    → HasConditions w
    → w.faults ≡ []
    → ((update_condition type_name status w).0.err ≡ none)
      × ((update_condition type_name status w).1.faults ≡ [])
      × HasConditions (update_condition type_name status w).1
unfolding update_condition
update_condition-calm type_name status inx w known h e =
    let c : VerticaDbCondition = record {
      type_name = type_name;
      status = status;
      last_transition_time = w.now;
    } in
    let (_, same) = client_call-IsFrame w in
    let (vdb_chg, k) =
      refresh_vdb-some c inx (client_call w).1.vdb known
        (subst (λ (d : VerticaDb). IsIndexed 0 d.status.conditions) (sym same) h) in
    let (fine, calm) = update-calm (refresh_vdb c) w vdb_chg e k in
    let (_, set) = update_condition-IsWritten type_name status inx w known h in
    (fine, calm, elim set [ inl (_, s) ↦ s.indexed | inr (bad, _) ↦ absurd (bad fine) ])

and_then-none :
    (run : Outcome × World) (next : Step) → run.0.err ≡ none → and_then run next ≡ next run.1
and_then-none (res, w) next e = rw e refl

ends_without_error :
    (status_condition : String) (inx : ℕ) (w : World)
    → condition_index status_condition ≡ some inx
    → HasConditions w
    → w.faults ≡ []
    → (start_upgrade status_condition w).0.err ≡ none
unfolding start_upgrade toggle_image_change_in_progress
ends_without_error status_condition inx w known h e =
    let first = update_condition "ImageChangeInProgress" condition_true w in
    let (fine, calm, indexed) =
      update_condition-calm "ImageChangeInProgress" condition_true image_change_in_progress_index w
        refl h e in
    let (fine', _, _) =
      update_condition-calm status_condition condition_true inx first.1 known indexed calm in
    let second = update_condition status_condition condition_true in
    let both : (and_then first second).0.err ≡ none =
      ap (λ (run : Outcome × World). run.0.err) (and_then-none first second fine) ∙ fine' in
    ap (λ (run : Outcome × World). run.0.err)
      (and_then-none (and_then first second)
        (λ v. (proceed, if v.continuing_upgrade then v else add_event "UpgradeStart" v)) both)

-- If all calls of the client succeed, the start of an upgrade, for a type of condition other than
-- ImageChangeInProgress and with a well-formed condition array, ends without an error and has set
-- its two conditions, and added its event unless the upgrade goes on from an earlier one. All other
-- conditions, the rest of the VerticaDB, the objects and the facts are as before.
pub start_upgrade-succeeds :
    (status_condition : String) (inx : ℕ) (w : World)
    → condition_index status_condition ≡ some inx
    → image_change_in_progress_index ≢ inx
    → HasConditions w
    → w.faults ≡ []
    → ((start_upgrade status_condition w).0.err ≡ none)
      × IsToggled inx true (with_start_event w) (start_upgrade status_condition w).1
start_upgrade-succeeds status_condition inx w known differ h e =
    let fine = ends_without_error status_condition inx w known h e in
    (fine, without_error (start_upgrade-Toggles status_condition inx w known differ h) fine)
  where
    without_error :
        Toggles inx true w w (with_start_event w) (start_upgrade status_condition w)
        → (start_upgrade status_condition w).0.err ≡ none
        → IsToggled inx true (with_start_event w) (start_upgrade status_condition w).1
    without_error (inl (a, t)) fine = t
    without_error (inr (a, f, u)) fine = absurd (a fine)
