-- ===== src/Vas/Scale/Moves.antt =====
-- What scaling by whole subclusters can do.
use mathlib.Core.List.{append-nil}
use vertica_kubernetes.Prelude.{
  ℕ, ◌+◌, ◌-◌, ◌≤◌, ◌<◌, ◌≡◌, ◌≢◌, ◌∙◌, ap, inl, inr, String, List, ◌++◌, [], ◌∷◌, arith, keep,
  length, length-append, length-keep-add, last?, Bool, some, ◌⊎◌,
}
use vertica_kubernetes.Prelude.Int.{pos_part}
use vertica_kubernetes.Api.Types.{Subcluster}
use vertica_kubernetes.Api.Methods.{serves}
use vertica_kubernetes.Vas.Pods.{pod_count}
use vertica_kubernetes.Vas.Remove.Laws.{IsRemoval}
use vertica_kubernetes.Vas.Resize.Steps.{served}
use vertica_kubernetes.Vas.Scale.{Scaled, no_change, write}

-- The last subcluster of the service is too large for the pods that are to go, or there is none.
abbrev pub CannotShrink : String → ℕ → List Subcluster → Type 0
CannotShrink svc_name t scs =
    (keep (serves svc_name) scs ≡ [])
    ⊎ ((sc : Subcluster) × (last? (keep (serves svc_name) scs) ≡ some sc)
        × (served svc_name scs < t + pos_part sc.size))

-- The number of pods goes from the old one as far towards the target as whole subclusters allow: it
-- stays below the target by less than the `s` pods of another copy, or above it by less than the
-- pods of the last subcluster that is left. Nothing is written only where no step is left to take.
pub data Moves (svc_name : String) (s t : ℕ) (scs : List Subcluster) (result : Scaled)
    : Type 0 where
  is_there : result ≡ no_change → served svc_name scs ≡ t → Moves svc_name s t scs result
  cannot_shrink :
      result ≡ no_change
      → t < served svc_name scs
      → CannotShrink svc_name t scs
      → Moves svc_name s t scs result
  cannot_grow :
      result ≡ no_change
      → served svc_name scs < t
      → t < served svc_name scs + s
      → Moves svc_name s t scs result
  shrinks :
      (new : List Subcluster)
      → result ≡ write new
      → t ≤ served svc_name new
      → served svc_name new ≤ served svc_name scs
      → length new < length scs
      → (served svc_name new ≡ t) ⊎ CannotShrink svc_name t new
      → Moves svc_name s t scs result
  grows :
      (new : List Subcluster)
      → result ≡ write new
      → served svc_name scs < served svc_name new
      → served svc_name new ≤ t
      → t < served svc_name new + s
      → Moves svc_name s t scs result

-- What removing leaves cannot shrink further, or is as wanted.
pub IsRemoval-CannotShrink :
    (svc_name : String) (t : ℕ) (scs : List Subcluster) (result : List Subcluster × Bool)
    → t ≤ served svc_name scs
    → (r : IsRemoval svc_name (served svc_name scs - t) scs result)
    → served svc_name scs ≡ served svc_name result.0 + pod_count r.dropped
    → (served svc_name result.0 ≡ t) ⊎ CannotShrink svc_name t result.0
IsRemoval-CannotShrink svc_name t scs result le r count = elim (r.greedy) [
  | inl none_left ↦ inr (inl none_left)
  | inr (sc, is_last, inl all_gone) ↦ inl (omega arith)
  | inr (sc, is_last, inr too_large) ↦ inr (inr (sc, is_last, omega arith))
]

pub IsRemoval-length :
    (svc_name : String) (p : ℕ) (scs : List Subcluster) (result : List Subcluster × Bool)
    (r : IsRemoval svc_name p scs result)
    → length scs ≡ length result.0 + length r.dropped
IsRemoval-length svc_name p scs result r = omega (
  arith,
  length-keep-add (serves svc_name) scs,
  length-keep-add (serves svc_name) result.0,
  length-append (keep (serves svc_name) result.0) r.dropped,
  ap length r.served,
  ap length r.others,
)

-- Where nothing was removed, the subclusters as they were cannot shrink.
pub unchanged-CannotShrink :
    (svc_name : String) (t : ℕ) (scs kept dropped : List Subcluster)
    → keep (serves svc_name) scs ≡ keep (serves svc_name) kept ++ dropped
    → ¬ (dropped ≢ [])
    → t < served svc_name scs
    → (served svc_name kept ≡ t) ⊎ CannotShrink svc_name t kept
    → CannotShrink svc_name t scs
unchanged-CannotShrink svc_name t scs kept (d ∷ dropped) e no_drop less h =
    absurd (no_drop (λ q. absurd (ground arith)))
unchanged-CannotShrink svc_name t scs kept [] e no_drop less h =
    let same : keep (serves svc_name) scs ≡ keep (serves svc_name) kept =
      e ∙ append-nil (keep (serves svc_name) kept) in
    elim h [
      | inl there ↦ absurd (omega (arith, ap pod_count same))
      | inr (inl none_left) ↦ inl (same ∙ none_left)
      | inr (inr (sc, is_last, too_large)) ↦
          inr (sc, ap last? same ∙ is_last, omega (arith, ap pod_count same))
    ]
