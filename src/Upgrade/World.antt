-- ===== src/Upgrade/World.antt =====
-- What an upgrade works on, and how a reconcile function answers (pkg/errors/errors.go).
use vertica_kubernetes.Prelude.{
  String, List, [], ◌∷◌, Option, none, some, Bool, true, false, not, ◌||◌, ◌&&◌, if◌then◌else◌,
  is_some,
}
use vertica_kubernetes.Prelude.Int.{ℤ, pos, ltb_ℤ}
use vertica_kubernetes.Api.Types.{VerticaDb}
use vertica_kubernetes.PodFacts.{PodFact}

-- appsv1.StatefulSet: what the code reads and writes of one. `image` is the server container's;
-- `on_delete` says that the update strategy is OnDelete.
pub record StatefulSet : Type 0 where
  pub name : String
  pub labels : List (String × String)
  pub image : String
  pub on_delete : Bool
  pub replicas : ℤ  -- of the status

-- corev1.Pod, likewise.
pub record Pod : Type 0 where
  pub name : String
  pub labels : List (String × String)
  pub image : String

-- The objects in the API server, what the reconciler keeps beside them, and the answers that the
-- client's next calls get: `true` is a failure, and after the list's end all calls succeed.
pub record World : Type 0 where
  pub vdb : VerticaDb
  pub statefulsets : List StatefulSet
  pub pods : List Pod
  pub pfacts : List PodFact
  pub facts_valid : Bool
  pub continuing_upgrade : Bool
  pub events : List String
  pub now : ℤ
  pub faults : List Bool

-- ctrl.Result and the error.
pub record Outcome : Type 0 where
  pub requeue : Bool
  pub requeue_after : ℤ
  pub err : Option String

abbrev pub proceed : Outcome
proceed = record { requeue = false; requeue_after = pos 0; err = none }

abbrev pub fail_with : String → Outcome
fail_with e = record { requeue = false; requeue_after = pos 0; err = some e }

abbrev pub try_again : Outcome
try_again = record { requeue = true; requeue_after = pos 0; err = none }

unfoldable pub is_reconcile_aborted : Outcome → Bool
is_reconcile_aborted o = o.requeue || is_some o.err || ltb_ℤ (pos 0) o.requeue_after

abbrev pub Step : Type 0
Step = World → Outcome × World

-- A call of the Kubernetes client: whether it succeeds.
unfoldable pub client_call : World → Bool × World
client_call w = elim w.faults [
  | [] ↦ (true, w)
  | fault ∷ faults ↦ (not fault, record w { faults = faults })
]

-- The loop over the functions of a Reconcile, where the first that aborts ends it.
unfoldable pub run_all : List Step → Step
unfolding is_reconcile_aborted
run_all [] w = (proceed, w)
run_all (fn ∷ fns) w =
    let (res, w') = fn w in
    let rest = run_all fns w' in if is_reconcile_aborted res then (res, w') else rest

-- A requeue of an upgrade gets an interval of its own: `requeue_time` is GetUpgradeRequeueTime.
unfoldable pub with_requeue_time : ℤ → Outcome → Outcome
unfolding is_reconcile_aborted
with_requeue_time requeue_time res =
    if is_reconcile_aborted res && not (is_some res.err)
    then record res { requeue = false; requeue_after = requeue_time }
    else res
