-- ===== src/Upgrade/Offline/Runs.antt =====
-- What a list of functions that runs to its end has done, and what posting a message leaves alone.
use vertica_kubernetes.Prelude.{
  ℕ, zero, suc, ◌≡◌, refl, ◌∙◌, ap, inl, inr, String, List, [], ◌∷◌, none, Bool, true, false,
  if◌then◌else◌, arith, ltb, length, Bool-cases, subst,
}
use vertica_kubernetes.Upgrade.World.{World, Outcome, Step, run_all, is_reconcile_aborted}
use vertica_kubernetes.Upgrade.Manager.{
  post_next_status_msg, set_upgrade_status, set_message, message_at,
}
use vertica_kubernetes.Upgrade.Manager.Status.{IsFrame, update-IsUpdate}

run_all-nil : (w : World) → (run_all [] w).1 ≡ w
unfolding run_all
run_all-nil w = refl

run_all-cons :
    (fn : Step) (fns : List Step) (w : World)
    → is_reconcile_aborted (run_all (fn ∷ fns) w).0 ≡ false
    → (is_reconcile_aborted (fn w).0 ≡ false) × (run_all (fn ∷ fns) w ≡ run_all fns (fn w).1)
unfolding run_all
run_all-cons fn fns w h = elim (Bool-cases (is_reconcile_aborted (fn w).0)) [
  | inl e ↦ absurd (ground (arith, e, h))
  | inr e ↦ (e, rw e refl)
]

pub run_all-four :
    (a b c d : Step) (w : World)
    → is_reconcile_aborted (run_all (a ∷ b ∷ c ∷ d ∷ []) w).0 ≡ false
    → (is_reconcile_aborted (a w).0 ≡ false)
      × (is_reconcile_aborted (b (a w).1).0 ≡ false)
      × (is_reconcile_aborted (c (b (a w).1).1).0 ≡ false)
      × (is_reconcile_aborted (d (c (b (a w).1).1).1).0 ≡ false)
      × ((run_all (a ∷ b ∷ c ∷ d ∷ []) w).1 ≡ (d (c (b (a w).1).1).1).1)
run_all-four a b c d w h =
    let w1 = (a w).1 in
    let w2 = (b w1).1 in
    let w3 = (c w2).1 in
    let not_aborted : Outcome × World → Type 0 = λ run. is_reconcile_aborted run.0 ≡ false in
    let (p, e) = run_all-cons a (b ∷ c ∷ d ∷ []) w h in
    let (q, f) = run_all-cons b (c ∷ d ∷ []) w1 (subst not_aborted e h) in
    let (r, g) = run_all-cons c (d ∷ []) w2 (subst not_aborted (e ∙ f) h) in
    let (s, k) = run_all-cons d [] w3 (subst not_aborted (e ∙ f ∙ g) h) in
    (p, q, r, s, ap (λ (run : Outcome × World). run.1) (e ∙ f ∙ g ∙ k) ∙ run_all-nil (d w3).1)

pub err-none : (res : Outcome) → is_reconcile_aborted res ≡ false → res.err ≡ none
unfolding is_reconcile_aborted
err-none res h = ground arith

pub IsFrame-refl : (w : World) → IsFrame w w
IsFrame-refl w = record {
  meta = refl;
  spec = refl;
  statefulsets = refl;
  pods = refl;
  events = refl;
  continuing_upgrade = refl;
  pfacts = refl;
  facts_valid = refl;
  now = refl;
}

IsFrame-if :
    (test : Bool) (w : World) (run other : Outcome × World)
    → IsFrame w run.1
    → IsFrame w other.1
    → IsFrame w (if test then run else other).1
IsFrame-if true w run other f g = f
IsFrame-if false w run other f g = g

pub post_next_status_msg-IsFrame :
    (msgs : List String) (i : ℕ) (w : World) → IsFrame w (post_next_status_msg msgs i w).1
unfolding post_next_status_msg set_upgrade_status
post_next_status_msg-IsFrame msgs zero w =
    let (frame, _) = update-IsUpdate (set_message (message_at msgs 0)) w in
    elim (Bool-cases (ltb 0 (length msgs))) [
      | inr e ↦ rw (post_next_status_msg, e) (IsFrame-refl w)
      | inl e ↦ rw (post_next_status_msg, e) (IsFrame-if _ w _ _ frame (IsFrame-refl w))
    ]
post_next_status_msg-IsFrame msgs (suc n) w =
    let (frame, _) = update-IsUpdate (set_message (message_at msgs (suc n))) w in
    elim (Bool-cases (ltb (suc n) (length msgs))) [
      | inr e ↦ rw (post_next_status_msg, e) (IsFrame-refl w)
      | inl e ↦ rw (post_next_status_msg, e) (IsFrame-if _ w _ _ frame (IsFrame-refl w))
    ]
