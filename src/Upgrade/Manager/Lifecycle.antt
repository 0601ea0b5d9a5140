-- ===== src/Upgrade/Manager/Lifecycle.antt =====
-- The start and the end of an upgrade, as a whole.
use vertica_kubernetes.Prelude.{
  ℕ, ◌≡◌, ◌≢◌, refl, sym, ◌∙◌, ap, subst, inl, inr, String, [], ◌∷◌, ◌++◌, some, Bool, true, false,
  arith, if◌then◌else◌, Option-cases,
}
use vertica_kubernetes.Api.Types.{VerticaDb, VerticaDbStatus}
use vertica_kubernetes.Api.Constants.{
  condition_true, condition_false, image_change_in_progress_index,
}
use vertica_kubernetes.Status.{condition_index}
use vertica_kubernetes.Status.Laws.{IsIndexed}
use vertica_kubernetes.Upgrade.World.{World, Outcome, proceed}
use vertica_kubernetes.Upgrade.Manager.{
  and_then, add_event, set_upgrade_status, set_message, toggle_image_change_in_progress,
  start_upgrade, finish_upgrade,
}
use vertica_kubernetes.Upgrade.Manager.Status.{IsUpdate, update-IsUpdate}
use vertica_kubernetes.Upgrade.Manager.Conditions.{
  HasConditions, IsToggled, Toggles, toggle_image_change_in_progress-Toggles,
}
use vertica_kubernetes.Upgrade.Manager.Goals.{
  with_start_event, without_message, with_end_event, announced, after_message,
}

-- A start of an upgrade without an error sets its two conditions, and adds an event unless the
-- upgrade goes on from an earlier one. All other conditions, the rest of the VerticaDB, the objects
-- and the facts are as before. With an error at most the condition ImageChangeInProgress has been
-- set. This holds whichever calls fail.
pub start_upgrade-Toggles :
    (status_condition : String) (inx : ℕ) (w : World)
    → condition_index status_condition ≡ some inx
    → image_change_in_progress_index ≢ inx
    → HasConditions w
    → Toggles inx true w w (with_start_event w) (start_upgrade status_condition w)
unfolding start_upgrade
start_upgrade-Toggles status_condition inx w known differ h =
    started (toggle_image_change_in_progress status_condition condition_true w)
      (toggle_image_change_in_progress-Toggles status_condition condition_true inx w known differ h)
  where
    quiet_start :
        (v : World)
        → IsToggled inx true w v
        → v.continuing_upgrade ≡ true
        → IsToggled inx true (with_start_event w) v
    quiet_start v t q =
        let going : w.continuing_upgrade ≡ true = sym t.frame.continuing_upgrade ∙ q in
        subst (λ es. IsToggled inx true (record w { events = es }) v)
          (sym (ap (λ b. if b then w.events else w.events ++ "UpgradeStart" ∷ []) going)) t

    loud_start :
        (v : World)
        → IsToggled inx true w v
        → v.continuing_upgrade ≡ false
        → IsToggled inx true (with_start_event w) (add_event "UpgradeStart" v)
    loud_start v t q =
        let going : w.continuing_upgrade ≡ false = sym t.frame.continuing_upgrade ∙ q in
        subst (λ es. IsToggled inx true (record w { events = es }) (add_event "UpgradeStart" v))
          (ap (λ es. es ++ "UpgradeStart" ∷ []) t.frame.events
            ∙ sym (ap (λ b. if b then w.events else w.events ++ "UpgradeStart" ∷ []) going))
          (announced w v t (v.events ++ "UpgradeStart" ∷ []))

    by_start :
        (v : World)
        → IsToggled inx true w v
        → (going : Bool) → v.continuing_upgrade ≡ going
        → IsToggled inx true (with_start_event w) (if going then v else add_event "UpgradeStart" v)
    by_start v t true q = quiet_start v t q
    by_start v t false q = loud_start v t q

    started :
        (run : Outcome × World)
        → Toggles inx true w w w run
        → Toggles inx true w w (with_start_event w) (
            and_then run
              (λ w'. (proceed, if w'.continuing_upgrade then w' else add_event "UpgradeStart" w')))
    started (res, v) (inl (a, t)) = rw a (inl (refl, by_start v t v.continuing_upgrade refl))
    started (res, v) (inr (a, f, u)) = elim (Option-cases res.err) [
      | inl n ↦ absurd (a n)
      | inr (m, k) ↦ rw k (inr ((λ q. ground arith), f, u))
    ]

-- A finish of an upgrade without an error clears its message and its two conditions, and adds an
-- event. All other conditions, the rest of the VerticaDB, the objects and the facts are as before.
-- With an error nothing, or the message alone, or the message and the condition
-- ImageChangeInProgress have been cleared. This holds whichever calls fail.
pub finish_upgrade-Toggles :
    (status_condition : String) (inx : ℕ) (w : World)
    → condition_index status_condition ≡ some inx
    → image_change_in_progress_index ≢ inx
    → HasConditions w
    → Toggles inx false w
        (without_message w)
        (with_end_event (without_message w))
        (finish_upgrade status_condition w)
unfolding finish_upgrade set_upgrade_status
finish_upgrade-Toggles status_condition inx w known differ h =
    finished _ (cleared (set_upgrade_status "" w) (update-IsUpdate (set_message "") w))
  where
    without :
        (chg : VerticaDb)
        → set_message "" w.vdb ≡ some chg
        → chg.status ≡ (without_message w).vdb.status
    without chg e = ground arith

    cleared :
        (run : Outcome × World)
        → IsUpdate (set_message "") w run
        → Toggles inx false w
            (without_message w)
            (without_message w)
            (and_then run (toggle_image_change_in_progress status_condition condition_false))
    cleared (res, v) (f, inl (a, (chg, e, same))) =
        let st : v.vdb.status ≡ (without_message w).vdb.status = same ∙ without chg e in
        rw a (
          after_message w v (toggle_image_change_in_progress status_condition condition_false v) f
            st
            (toggle_image_change_in_progress-Toggles status_condition condition_false inx v known
              differ (subst (λ (t : VerticaDbStatus). IsIndexed 0 t.conditions) (sym st) h)))
    cleared (res, v) (f, inr (a, b)) = elim (Option-cases res.err) [
      | inl n ↦ absurd (a n)
      | inr (m, k) ↦ rw k (inr ((λ q. ground arith), f, inl b))
    ]

    finished :
        (run : Outcome × World)
        → Toggles inx false w (without_message w) (without_message w) run
        → Toggles inx false w
            (without_message w)
            (with_end_event (without_message w))
            (and_then run (λ w'. (proceed, add_event "UpgradeSucceeded" w')))
    finished (res, v) (inl (a, t)) =
        rw (a, sym t.frame.events)
          (inl (refl, announced (without_message w) v t (v.events ++ "UpgradeSucceeded" ∷ [])))
    finished (res, v) (inr (a, f, u)) = elim (Option-cases res.err) [
      | inl n ↦ absurd (a n)
      | inr (m, k) ↦ rw k (inr ((λ q. ground arith), f, u))
    ]
