-- ===== src/Upgrade/Manager/Goals.antt =====
-- What the start and the end of an upgrade are to make of the world, besides its two conditions.
use vertica_kubernetes.Prelude.{
  ℕ, ◌≡◌, refl, ◌∙◌, ap, inl, inr, String, List, [], ◌∷◌, ◌++◌, Bool, false, arith, if◌then◌else◌,
  get_elem?,
}
use vertica_kubernetes.Api.Types.{VerticaDbStatus}
use vertica_kubernetes.Api.Methods.{is_condition_index_set, status_is_true}
use vertica_kubernetes.Upgrade.World.{World, Outcome}
use vertica_kubernetes.Upgrade.Manager.Status.{IsFrame, IsFrame-trans}
use vertica_kubernetes.Upgrade.Manager.Conditions.{IsToggled, Toggles}

-- The event that the start adds to a world, unless the upgrade goes on from an earlier one.
abbrev pub with_start_event : World → World
with_start_event w = record w {
  events = (if w.continuing_upgrade then w.events else w.events ++ "UpgradeStart" ∷ []);
}

-- The status without the message of the upgrade.
abbrev pub without_message : World → World
without_message w = record w {
  vdb = record (w.vdb) { status = record (w.vdb.status) { upgrade_status = "" } };
}

abbrev pub with_end_event : World → World
with_end_event w = record w { events = w.events ++ "UpgradeSucceeded" ∷ [] }

pub announced :
    {inx : ℕ} {value : Bool} (goal after : World)
    → IsToggled inx value goal after
    → (new : List String)
    → IsToggled inx value (record goal { events = new }) (record after { events = new })
unfolding is_condition_index_set
announced goal after t new = record {
  frame = record {
    meta = t.frame.meta;
    spec = t.frame.spec;
    statefulsets = t.frame.statefulsets;
    pods = t.frame.pods;
    events = refl;
    continuing_upgrade = t.frame.continuing_upgrade;
    pfacts = t.frame.pfacts;
    facts_valid = t.frame.facts_valid;
    now = t.frame.now;
  };
  status_kept = t.status_kept;
  indexed = t.indexed;
  image_change = t.image_change;
  own = t.own;
  others = t.others;
}

without_message-IsFrame : (w after : World) → IsFrame w after → IsFrame (without_message w) after
without_message-IsFrame w after f = record {
  meta = f.meta;
  spec = f.spec;
  statefulsets = f.statefulsets;
  pods = f.pods;
  events = f.events;
  continuing_upgrade = f.continuing_upgrade;
  pfacts = f.pfacts;
  facts_valid = f.facts_valid;
  now = f.now;
}

-- A condition reads the same in two worlds of the same status.
same_conditions :
    (v half : World) (j : ℕ)
    → v.vdb.status ≡ half.vdb.status
    → is_condition_index_set v.vdb j ≡ is_condition_index_set half.vdb j
unfolding is_condition_index_set
same_conditions v half j e =
    ap (λ (t : VerticaDbStatus). status_is_true (get_elem? t.conditions j)) e

-- What the conditions are toggled from: the status without the message.
pub after_message :
    {inx : ℕ} (w v : World) (run : Outcome × World)
    → IsFrame w v
    → v.vdb.status ≡ (without_message w).vdb.status
    → Toggles inx false v v v run
    → Toggles inx false w (without_message w) (without_message w) run
after_message w v run f e (inl (a, t)) = inl (
  a,
  record {
    frame = without_message-IsFrame w run.1 (IsFrame-trans w v run.1 f t.frame);
    status_kept =
        t.status_kept
        ∙ ap (λ (u : VerticaDbStatus). record u { conditions = run.1.vdb.status.conditions }) e;
    indexed = t.indexed;
    image_change = t.image_change;
    own = t.own;
    others = λ j. ground (arith, t.others j, same_conditions v (without_message w) j e);
  },
)
after_message w v run f e (inr (a, g, inl same)) =
    inr (a, IsFrame-trans w v run.1 f g, inr (inl (same ∙ e)))
after_message w v run f e (inr (a, g, inr (inl same))) =
    inr (a, IsFrame-trans w v run.1 f g, inr (inl (same ∙ e)))
after_message w v run f e (inr (a, g, inr (inr s))) = inr (
  a,
  IsFrame-trans w v run.1 f g,
  inr (
      inr (record {
        indexed = s.indexed;
        value_at = s.value_at;
        others = λ j. ground (arith, s.others j, same_conditions v (without_message w) j e);
        status_kept =
            s.status_kept
            ∙ ap (λ (u : VerticaDbStatus). record u { conditions = run.1.vdb.status.conditions }) e;
      })),
)
