-- ===== src/Vas/Resize/Laws.antt =====
-- After a resize the subclusters of the service have the target number of pods.
use native.Mathlib.Decide.{dec_lt, ℕ_discrete}
use vertica_kubernetes.Prelude.{
  ℕ, ◌-◌, ◌<◌, ◌^◌, ◌≡◌, ◌≢◌, refl, ◌∙◌, ap, inl, inr, String, List, [], ◌∷◌, true, false, arith,
  All, keep, List-cases, if◌then◌else◌,
}
use vertica_kubernetes.Prelude.Int.{ℤ, pos, pos_part, neg_part, eqb_ℤ, eq_of_parts}
use vertica_kubernetes.Prelude.Int32.{sub32, sub32_parts}
use vertica_kubernetes.Api.Types.{Subcluster}
use vertica_kubernetes.Api.Methods.{serves, find_subcluster_for_service_name}
use vertica_kubernetes.Vas.Pods.{IsSized, All-keep, sum_size-eq}
use vertica_kubernetes.Vas.Resize.{
  resize_loop, Resized, requeue, unchanged, update, resize_found, resize_subclusters,
}
use vertica_kubernetes.Vas.Resize.Steps.{served, OnlySizes}
use vertica_kubernetes.Vas.Resize.Loops.{grow, shrink}

-- How resizeSubcluster answers to a target of `t` pods.
pub data Outcome (svc_name : String) (t : ℕ) (scs : List Subcluster) (result : Resized)
    : Type 0 where
  none_served : keep (serves svc_name) scs ≡ [] → result ≡ requeue → Outcome svc_name t scs result
  on_target :
      keep (serves svc_name) scs ≢ []
      → served svc_name scs ≡ t
      → result ≡ unchanged
      → Outcome svc_name t scs result
  changed :
      (new : List Subcluster)
      → served svc_name scs ≢ t
      → result ≡ update new
      → OnlySizes svc_name scs new
      → served svc_name new ≡ t
      → Outcome svc_name t scs result

eqb_ℤ-zero : (z : ℤ) → pos_part z ≢ neg_part z → eqb_ℤ z (pos 0) ≡ false
eqb_ℤ-zero z h = ground arith

eqb_ℤ-zero' : (z : ℤ) → pos_part z ≡ neg_part z → eqb_ℤ z (pos 0) ≡ true
eqb_ℤ-zero' z h = ground arith

resize_found-cons :
    (svc_name : String) (found scs : List Subcluster) (z : ℤ) (x : Subcluster)
    (xs : List Subcluster)
    → found ≡ x ∷ xs
    → resize_found svc_name found scs z
      ≡ (if eqb_ℤ z (pos 0) then unchanged else update (resize_loop svc_name z scs).subclusters)
unfolding resize_found
resize_found-cons svc_name found scs z x xs e = rw e refl

module _ (svc_name : String) (t : ℕ) (scs : List Subcluster) (sized : All IsSized scs)
    (fits : served svc_name scs < 2 ^ 31) (fits' : t < 2 ^ 31) where
  abbrev delta : ℤ
  unfolding find_subcluster_for_service_name
  delta = sub32 (pos t) (find_subcluster_for_service_name svc_name scs).1

  delta_parts :
      (pos_part delta ≡ t - served svc_name scs) × (neg_part delta ≡ served svc_name scs - t)
  unfolding find_subcluster_for_service_name
  delta_parts =
      rw
        (sum_size-eq (keep (serves svc_name) scs) (All-keep IsSized (serves svc_name) scs sized)
          fits)
        (sub32_parts t (served svc_name scs) fits' fits)

  module _ (x : Subcluster) (xs : List Subcluster) (e : keep (serves svc_name) scs ≡ x ∷ xs) where
    updated :
        served svc_name scs ≢ t
        → resize_subclusters svc_name (pos t) scs
          ≡ update (resize_loop svc_name delta scs).subclusters
    unfolding resize_subclusters
    updated off =
        resize_found-cons svc_name _ scs delta x xs e
        ∙ (rw (eqb_ℤ-zero delta (omega (arith, delta_parts))) refl)

    Outcome-changed :
        served svc_name scs ≢ t → Outcome svc_name t scs (resize_subclusters svc_name (pos t) scs)
    Outcome-changed off = elim (dec_lt (served svc_name scs) t) [
      | yes more ↦
          let d = t - served svc_name scs in
          let is_delta : delta ≡ pos d = eq_of_parts delta (pos d) (omega (arith, delta_parts)) in
          let (only, ends) = grow svc_name d scs (omega arith) (omega arith) sized in
          changed (resize_loop svc_name (pos d) scs).subclusters off
            (updated off ∙ ap (λ z. update (resize_loop svc_name z scs).subclusters) is_delta) only
            (elim ends [
              | inl (nothing, _, _) ↦ absurd (ground (arith, e, nothing))
              | inr (_, count) ↦ omega arith
            ])
      | no less ↦
          let (p, n) = delta_parts in
          let (only, _, _, count) =
            shrink svc_name delta (served svc_name scs - t) scs (omega arith) n (omega arith) fits
              sized in
          changed (resize_loop svc_name delta scs).subclusters off (updated off) only (omega arith)
    ]

  -- Where all sizes are at least 0 and the counts fit an int32: with no subcluster of the service
  -- the reconcile is requeued; on the target nothing changes; otherwise only sizes of subclusters
  -- of the service change, none is negative after, and they add up to the target.
  pub resize_subclusters-Outcome : Outcome svc_name t scs (resize_subclusters svc_name (pos t) scs)
  unfolding resize_subclusters
  resize_subclusters-Outcome = elim (List-cases (keep (serves svc_name) scs)) [
    | inl e ↦ none_served e (rw (e, resize_subclusters))
    | inr (x, xs, e) ↦ elim (ℕ_discrete (served svc_name scs) t) [
      | yes same ↦
          on_target (λ f. absurd (ground (arith, e, f))) same
            (resize_found-cons svc_name _ scs delta x xs e
              ∙ (rw (eqb_ℤ-zero' delta (omega (arith, delta_parts, ap (λ (k : ℕ). k) same))) refl))
      | no off ↦ Outcome-changed x xs e off
    ]
  ]
