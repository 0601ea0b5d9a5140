-- ===== src/Upgrade/Manager/Conditions.antt =====
-- What the start and the end of an upgrade do to its two conditions.
use native.Mathlib.Decide.{ℕ_discrete}
use text.Mathlib.Text.{◌==◌}
use vertica_kubernetes.Prelude.{
  ℕ, ◌≡◌, ◌≢◌, refl, sym, ◌∙◌, ap, ◌⊎◌, inl, inr, String, none, some, Bool, arith, Option-cases,
}
use vertica_kubernetes.Api.Types.{VerticaDb, VerticaDbStatus, VerticaDbCondition}
use vertica_kubernetes.Api.Constants.{condition_true, image_change_in_progress_index}
use vertica_kubernetes.Api.Methods.{is_condition_index_set}
use vertica_kubernetes.Status.{condition_index, set_conditions}
use vertica_kubernetes.Status.Laws.{IsIndexed, refresh_condition_in_place-IsRefreshed}
use vertica_kubernetes.Status.Others.{is_condition_index_set-refresh}
use vertica_kubernetes.Upgrade.World.{World, Outcome}
use vertica_kubernetes.Upgrade.Manager.{
  refresh_vdb, update_condition, and_then, toggle_image_change_in_progress,
}
use vertica_kubernetes.Upgrade.Manager.Status.{
  IsFrame, IsFrame-trans, Fails, IsUpdate, update-IsUpdate,
}

-- The VerticaDB's condition array is well-formed.
abbrev pub HasConditions : World → Type 0
HasConditions w = IsIndexed 0 w.vdb.status.conditions

-- The condition at an index is as given, all others and the rest of the status are as before.
pub record IsWritten (inx : ℕ) (value : Bool) (before after : World) : Type 0 where
  pub indexed : HasConditions after
  pub value_at : is_condition_index_set after.vdb inx ≡ value
  pub others :
      (j : ℕ)
      → (inx ≡ j) ⊎ (is_condition_index_set after.vdb j ≡ is_condition_index_set before.vdb j)
  pub status_kept :
      after.vdb.status ≡ record (before.vdb.status) { conditions = after.vdb.status.conditions }

other_at :
    {inx : ℕ} {value : Bool} {before after : World} (j : ℕ)
    → IsWritten inx value before after
    → inx ≢ j
    → is_condition_index_set after.vdb j ≡ is_condition_index_set before.vdb j
other_at j s ne = elim (s.others j) [ inl e ↦ absurd (ne e) | inr e ↦ e ]

of_refresh :
    (c : VerticaDbCondition) (inx : ℕ) (w after : World) (vdb_chg : VerticaDb)
    → condition_index c.type_name ≡ some inx
    → HasConditions w
    → refresh_vdb c w.vdb ≡ some vdb_chg
    → after.vdb.status ≡ vdb_chg.status
    → IsWritten inx (c.status == condition_true) w after
unfolding refresh_vdb is_condition_index_set
of_refresh c inx w after vdb_chg known h e same =
    let (conditions, k, r) =
      refresh_condition_in_place-IsRefreshed c inx w.vdb.status.conditions known h in
    let chg : some (set_conditions w.vdb conditions) ≡ some vdb_chg = sym (rw k refl) ∙ e in
    let same_vdb : set_conditions w.vdb conditions ≡ vdb_chg = cc in
    let the_same : after.vdb.status.conditions ≡ conditions =
      ap (λ (s : VerticaDbStatus). s.conditions) same
      ∙ sym (ap (λ (v : VerticaDb). v.status.conditions) same_vdb) in
    record {
      indexed = rw the_same (r.indexed);
      value_at = rw (the_same, r.at_index) (ap (λ s. s == condition_true) r.has_status);
      others = λ j. elim (ℕ_discrete inx j) [
        | yes p ↦ inl p
        | no p ↦
            inr (rw the_same (is_condition_index_set-refresh w.vdb c inx j conditions known p k))
      ];
      status_kept =
          same
          ∙ sym (ap (λ (v : VerticaDb). v.status) same_vdb)
          ∙ ap (λ cs. record (w.vdb.status) { conditions = cs }) (sym the_same);
    }

pub update_condition-IsWritten :
    (type_name status : String) (inx : ℕ) (w : World)
    → condition_index type_name ≡ some inx
    → HasConditions w
    → IsFrame w (update_condition type_name status w).1
      × ((((update_condition type_name status w).0.err ≡ none)
            × IsWritten inx (status == condition_true) w (update_condition type_name status w).1)
          ⊎ Fails w (update_condition type_name status w))
unfolding update_condition
update_condition-IsWritten type_name status inx w known h =
    let c : VerticaDbCondition = record {
      type_name = type_name;
      status = status;
      last_transition_time = w.now;
    } in
    of_update (update-IsUpdate (refresh_vdb c) w)
  where
    of_update :
        IsUpdate
          (refresh_vdb
            (record { type_name = type_name; status = status; last_transition_time = w.now }))
          w
          (update_condition type_name status w)
        → IsFrame w (update_condition type_name status w).1
          × ((((update_condition type_name status w).0.err ≡ none)
                × IsWritten inx
                    (status == condition_true)
                    w
                    (update_condition type_name status w).1)
              ⊎ Fails w (update_condition type_name status w))
    of_update (f, inl (a, (vdb_chg, e, same))) =
        (f, inl (a, of_refresh _ inx w _ vdb_chg known h e same))
    of_update (f, inr b) = (f, inr b)

-- Both conditions of an upgrade have a value. All other conditions, the rest of the VerticaDB, the
-- objects, the facts and the events are as before.
pub record IsToggled (inx : ℕ) (value : Bool) (before after : World) : Type 0 where
  pub frame : IsFrame before after
  pub status_kept :
      after.vdb.status ≡ record (before.vdb.status) { conditions = after.vdb.status.conditions }
  pub indexed : HasConditions after
  pub image_change : is_condition_index_set after.vdb image_change_in_progress_index ≡ value
  pub own : is_condition_index_set after.vdb inx ≡ value
  pub others :
      (j : ℕ)
      → (image_change_in_progress_index ≡ j)
        ⊎ (inx ≡ j)
        ⊎ (is_condition_index_set after.vdb j ≡ is_condition_index_set before.vdb j)

-- All is done, and but for the two conditions the world is `goal`. Or a call failed: the status is as
-- before, or but for the condition ImageChangeInProgress, which may have been written, that of
-- `half`; and all else is as before.
abbrev pub Toggles : ℕ → Bool → World → World → World → Outcome × World → Type 0
Toggles inx value before half goal (res, after) =
    ((res.err ≡ none) × IsToggled inx value goal after)
    ⊎ ((res.err ≢ none)
        × IsFrame before after
        × ((after.vdb.status ≡ before.vdb.status)
            ⊎ ((after.vdb.status ≡ half.vdb.status)
                ⊎ IsWritten image_change_in_progress_index value half after)))

stays :
    {inx : ℕ} {value : Bool} {w : World} (v after : World)
    → IsWritten inx value w v
    → after.vdb.status ≡ v.vdb.status
    → IsWritten inx value w after
unfolding is_condition_index_set
stays {w = w} v after s b =
    let e = ap (λ (t : VerticaDbStatus). t.conditions) b in
    record {
      indexed = rw e (s.indexed);
      value_at = rw e (s.value_at);
      others = λ j. rw e (s.others j);
      status_kept =
          b ∙ s.status_kept ∙ ap (λ cs. record (w.vdb.status) { conditions = cs }) (sym e);
    }

pub toggle_image_change_in_progress-Toggles :
    (status_condition new_val : String) (inx : ℕ) (w : World)
    → condition_index status_condition ≡ some inx
    → image_change_in_progress_index ≢ inx
    → HasConditions w
    → Toggles inx
        (new_val == condition_true)
        w
        w
        w
        (toggle_image_change_in_progress status_condition new_val w)
unfolding toggle_image_change_in_progress
toggle_image_change_in_progress-Toggles status_condition new_val inx w known differ h =
    first (update_condition "ImageChangeInProgress" new_val w) (
      update_condition-IsWritten "ImageChangeInProgress" new_val image_change_in_progress_index w
        refl h)
  where
    second :
        (v : World) (run : Outcome × World)
        → IsFrame w v
        → IsWritten image_change_in_progress_index (new_val == condition_true) w v
        → IsFrame v run.1
          × (((run.0.err ≡ none) × IsWritten inx (new_val == condition_true) v run.1) ⊎ Fails v run)
        → Toggles inx (new_val == condition_true) w w w run
    second v run f s (g, inl (a, t)) = inl (
      a,
      record {
        frame = IsFrame-trans w v run.1 f g;
        status_kept =
            t.status_kept
            ∙ ap (λ (u : VerticaDbStatus). record u { conditions = run.1.vdb.status.conditions })
                s.status_kept;
        indexed = t.indexed;
        image_change = other_at image_change_in_progress_index t (ground arith) ∙ s.value_at;
        own = t.value_at;
        others = λ j. ground (arith, t.others j, s.others j);
      },
    )
    second v run f s (g, inr (a, b)) =
        inr (a, IsFrame-trans w v run.1 f g, inr (inr (stays v run.1 s b)))

    first :
        (run : Outcome × World)
        → IsFrame w run.1
          × (((run.0.err ≡ none)
                × IsWritten image_change_in_progress_index (new_val == condition_true) w run.1)
              ⊎ Fails w run)
        → Toggles inx
            (new_val == condition_true)
            w
            w
            w
            (and_then run (update_condition status_condition new_val))
    first (res, v) (f, inl (a, s)) = rw a (
        second v (update_condition status_condition new_val v) f s
          (update_condition-IsWritten status_condition new_val inx v known s.indexed))
    first (res, v) (f, inr (a, b)) = elim (Option-cases res.err) [
      | inl n ↦ absurd (a n)
      | inr (e, k) ↦ rw k (inr ((λ q. ground arith), f, inl b))
    ]
