-- ===== src/Upgrade/Manager/Status.antt =====
-- What the writes of an upgrade's status do, whatever calls fail.
use mathlib.Core.Bool.{decide_iff}
use vertica_kubernetes.Prelude.{
  ◌≡◌, ◌≢◌, refl, sym, ◌∙◌, ap, ◌⊎◌, inl, inr, List, [], ◌∷◌, Option, none, some, Bool, true, arith,
  Bool-cases, Option-cases,
}
use vertica_kubernetes.Api.Types.{VerticaDb, VerticaDbStatus}
use vertica_kubernetes.Upgrade.World.{World, Outcome, client_call}
use vertica_kubernetes.Upgrade.Manager.{write_status, update, same_status, VerticaDbStatus-discrete}

-- Nothing but the VerticaDB's status and the pending faults differs.
pub record IsFrame (before after : World) : Type 0 where
  pub meta : after.vdb.meta ≡ before.vdb.meta
  pub spec : after.vdb.spec ≡ before.vdb.spec
  pub statefulsets : after.statefulsets ≡ before.statefulsets
  pub pods : after.pods ≡ before.pods
  pub events : after.events ≡ before.events
  pub continuing_upgrade : after.continuing_upgrade ≡ before.continuing_upgrade
  pub pfacts : after.pfacts ≡ before.pfacts
  pub facts_valid : after.facts_valid ≡ before.facts_valid
  pub now : after.now ≡ before.now

pub IsFrame-trans : (w v u : World) → IsFrame w v → IsFrame v u → IsFrame w u
IsFrame-trans w v u f g = record {
  meta = g.meta ∙ f.meta;
  spec = g.spec ∙ f.spec;
  statefulsets = g.statefulsets ∙ f.statefulsets;
  pods = g.pods ∙ f.pods;
  events = g.events ∙ f.events;
  continuing_upgrade = g.continuing_upgrade ∙ f.continuing_upgrade;
  pfacts = g.pfacts ∙ f.pfacts;
  facts_valid = g.facts_valid ∙ f.facts_valid;
  now = g.now ∙ f.now;
}

same_status-eq : (a b : VerticaDbStatus) → same_status a b ≡ true → a ≡ b
unfolding same_status
same_status-eq a b h = (decide_iff (VerticaDbStatus-discrete a b)).0 h

-- A run that writes nothing.
abbrev pub Fails : World → Outcome × World → Type 0
Fails before (res, after) = (res.err ≢ none) × (after.vdb.status ≡ before.vdb.status)

pub client_call-IsFrame :
    (w : World) → IsFrame w (client_call w).1 × ((client_call w).1.vdb ≡ w.vdb)
unfolding client_call
client_call-IsFrame w = by_faults w w.faults refl
  where
    by_faults :
        (v : World) (faults : List Bool)
        → v.faults ≡ faults
        → IsFrame v (client_call v).1 × ((client_call v).1.vdb ≡ v.vdb)
    by_faults v [] e = ground arith
    by_faults v (fault ∷ faults) e = ground arith

write_status-cases :
    (status : VerticaDbStatus) (w : World)
    → IsFrame w (write_status status w).1
      × ((((write_status status w).0.err ≡ none) × ((write_status status w).1.vdb.status ≡ status))
          ⊎ Fails w (write_status status w))
unfolding write_status
write_status-cases status w =
    ground (arith, client_call-IsFrame w, same_status-eq w.vdb.status status)

-- What an Update leaves: the new status and no error, or the old status and an error.
abbrev pub IsUpdate : (VerticaDb → Option VerticaDb) → World → Outcome × World → Type 0
IsUpdate update_func before (res, after) =
    IsFrame before after
    × (((res.err ≡ none)
          × ((vdb_chg : VerticaDb) × (update_func before.vdb ≡ some vdb_chg)
              × (after.vdb.status ≡ vdb_chg.status)))
        ⊎ Fails before (res, after))

pub update-IsUpdate :
    (update_func : VerticaDb → Option VerticaDb) (w : World)
    → IsUpdate update_func w (update update_func w)
unfolding update
update-IsUpdate update_func w =
    let w' = (client_call w).1 in
    elim (Bool-cases (client_call w).0) [
      | inr e ↦
          rw e (ground (arith, client_call-IsFrame w), inr (ground (arith, client_call-IsFrame w)))
      | inl e ↦ elim (Option-cases (update_func w'.vdb)) [
        | inl n ↦
            rw (e, n)
              (ground (arith, client_call-IsFrame w), inr (ground (arith, client_call-IsFrame w)))
        | inr (vdb_chg, k) ↦
            rw (e, k)
              (of_write w' vdb_chg ((client_call-IsFrame w).0) ((client_call-IsFrame w).1) k
                (write_status-cases vdb_chg.status w'))
      ]
    ]
  where
    of_write :
        (v : World) (vdb_chg : VerticaDb)
        → IsFrame w v
        → v.vdb ≡ w.vdb
        → update_func v.vdb ≡ some vdb_chg
        → IsFrame v (write_status vdb_chg.status v).1
          × ((((write_status vdb_chg.status v).0.err ≡ none)
                × ((write_status vdb_chg.status v).1.vdb.status ≡ vdb_chg.status))
              ⊎ Fails v (write_status vdb_chg.status v))
        → IsUpdate update_func w (write_status vdb_chg.status v)
    of_write v vdb_chg f same k (g, inl (a, b)) =
        (ground arith, inl (a, (vdb_chg, ap update_func (sym same) ∙ k, b)))
    of_write v vdb_chg f same k (g, inr b) = (ground arith, inr (ground arith))
