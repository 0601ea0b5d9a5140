-- ===== src/Vas/Resize/Loops.antt =====
-- The resize loop: growing and shrinking.
use native.Mathlib.Decide.{dec_lt}
use vertica_kubernetes.Prelude.{
  ℕ, ◌+◌, ◌-◌, ◌≤◌, ◌<◌, ◌^◌, ◌≡◌, refl, ◌∙◌, ap, ◌⊎◌, inl, inr, String, List, [], ◌∷◌, true, arith,
  All, keep, Bool-cases,
}
use vertica_kubernetes.Prelude.Int.{ℤ, pos, pos_part, neg_part}
use vertica_kubernetes.Prelude.Int32.{add32, add32_pos, add32_comm, add32_parts}
use vertica_kubernetes.Api.Types.{Subcluster}
use vertica_kubernetes.Api.Methods.{serves}
use vertica_kubernetes.Vas.Pods.{IsSized}
use vertica_kubernetes.Vas.Resize.{ResizeLoop, resize_step, resize_loop}
use vertica_kubernetes.Vas.Resize.Steps.{
  served, OnlySizes, OnlySizes-same, OnlySizes-sized, served-cons_le, served-cons,
  served-cons_sized, served-cons_other, resize_step_kept, resize_step_grown, resize_step_emptied,
  resize_step_shrunk,
}

module _ (svc_name : String) where
  -- Growing by `d` pods: the last subcluster of the service gets them all.
  abbrev pub Grown : ℕ → List Subcluster → ResizeLoop → Type 0
  Grown d scs r =
      OnlySizes svc_name scs r.subclusters
      × ((keep (serves svc_name) scs ≡ [])
            × (r.delta ≡ pos d)
            × (served svc_name r.subclusters ≡ served svc_name scs)
          ⊎ (r.delta ≡ pos 0) × (served svc_name r.subclusters ≡ served svc_name scs + d))

  pub grow :
      (d : ℕ) (scs : List Subcluster)
      → 0 < d
      → served svc_name scs + d < 2 ^ 31
      → All IsSized scs
      → Grown d scs (resize_loop svc_name (pos d) scs)
  unfolding resize_loop
  grow d [] some_pods fits sized =
      (record { same = refl; others = refl; sized = tt }, inl (refl, refl, refl))
  grow d (sc ∷ scs) some_pods fits (h, sized) =
      let s = resize_loop svc_name (pos d) scs in
      let (only, ends) =
        grow d scs some_pods (omega (arith, served-cons_le svc_name sc scs)) sized in
      elim (Bool-cases (serves svc_name sc)) [
        | inr other ↦ rw (resize_step_kept svc_name sc s (ground arith)) (
          OnlySizes-same svc_name sc scs s.subclusters h only,
          ground (
            arith,
            ends,
            served-cons_other svc_name sc scs other,
            served-cons_other svc_name sc s.subclusters other,
          ),
        )
        | inl e ↦ elim ends [
          | inl (none_served, is_delta, count) ↦
              let size : add32 sc.size (pos d) ≡ pos (d + pos_part sc.size) =
                add32_comm sc.size (pos d)
                ∙ add32_pos d sc.size h (omega (arith, served-cons svc_name sc scs e)) in
              rw (resize_step_grown svc_name sc s e (omega (arith, ap pos_part is_delta))) (
                rw (is_delta, size)
                  (
                    OnlySizes-sized svc_name sc (pos (d + pos_part sc.size)) scs s.subclusters refl
                        e only,
                    inr (
                      refl,
                      omega (
                        arith,
                        served-cons svc_name sc scs e,
                        served-cons_sized svc_name sc (pos (d + pos_part sc.size)) s.subclusters e,
                      ),
                    ),
                  ))
          | inr (is_delta, count) ↦ rw (resize_step_kept svc_name sc s (ground (arith, is_delta))) (
            OnlySizes-same svc_name sc scs s.subclusters h only,
            inr (
              is_delta,
              omega (arith, served-cons svc_name sc scs e, served-cons svc_name sc s.subclusters e),
            ),
          )
        ]
      ]

  -- Shrinking by `d` pods: the last subclusters of the service are emptied, and one is cut.
  abbrev pub Shrunk : ℕ → List Subcluster → ResizeLoop → Type 0
  Shrunk d scs r =
      OnlySizes svc_name scs r.subclusters
      × (pos_part r.delta ≡ 0)
      × (neg_part r.delta ≡ d - served svc_name scs)
      × (served svc_name r.subclusters ≡ served svc_name scs - d)

  module _ (d : ℕ) (sc : Subcluster) (scs : List Subcluster) (s : ResizeLoop)
      (fits : served svc_name (sc ∷ scs) < 2 ^ 31) (fits' : d < 2 ^ 31) (h : IsSized sc)
      (e : serves svc_name sc ≡ true) (r : Shrunk d scs s) where
    shrink_kept : neg_part s.delta ≡ 0 → Shrunk d (sc ∷ scs) (resize_step svc_name sc s)
    shrink_kept z =
        let (only, p, n, count) = r in
        rw (resize_step_kept svc_name sc s (ground arith)) (
          OnlySizes-same svc_name sc scs s.subclusters h only,
          p,
          omega (arith, served-cons svc_name sc scs e),
          omega (arith, served-cons svc_name sc scs e, served-cons svc_name sc s.subclusters e),
        )

    shrink_emptied :
        pos_part sc.size < neg_part s.delta → Shrunk d (sc ∷ scs) (resize_step svc_name sc s)
    shrink_emptied more =
        let (only, p, n, count) = r in
        let (p', n') =
          add32_parts s.delta sc.size p h (omega arith)
            (omega (arith, served-cons svc_name sc scs e)) in
        rw (resize_step_emptied svc_name sc s e h p (omega arith) more) (
          OnlySizes-sized svc_name sc (pos 0) scs s.subclusters refl e only,
          omega arith,
          omega (arith, served-cons svc_name sc scs e),
          omega (
            arith,
            served-cons svc_name sc scs e,
            served-cons_sized svc_name sc (pos 0) s.subclusters e,
          ),
        )

    shrink_cut :
        0 < neg_part s.delta
        → neg_part s.delta ≤ pos_part sc.size
        → Shrunk d (sc ∷ scs) (resize_step svc_name sc s)
    shrink_cut some_pods less =
        let (only, p, n, count) = r in
        let (p', n') =
          add32_parts s.delta sc.size p h (omega arith)
            (omega (arith, served-cons svc_name sc scs e)) in
        let comm = add32_comm s.delta sc.size in
        rw (resize_step_shrunk svc_name sc s e h p some_pods (omega arith) less) (
          rw (← comm) (
            OnlySizes-sized svc_name sc (add32 s.delta sc.size) scs s.subclusters (omega arith) e
                only,
            refl,
            omega (arith, served-cons svc_name sc scs e),
            omega (
              arith,
              served-cons svc_name sc scs e,
              served-cons_sized svc_name sc (add32 s.delta sc.size) s.subclusters e,
            ),
          ))

  pub shrink :
      (z : ℤ) (d : ℕ) (scs : List Subcluster)
      → pos_part z ≡ 0
      → neg_part z ≡ d
      → d < 2 ^ 31
      → served svc_name scs < 2 ^ 31
      → All IsSized scs
      → Shrunk d scs (resize_loop svc_name z scs)
  unfolding resize_loop
  shrink z d [] p n fits' fits sized =
      (record { same = refl; others = refl; sized = tt }, p, omega arith, omega arith)
  shrink z d (sc ∷ scs) p n fits' fits (h, sized) =
      let s = resize_loop svc_name z scs in
      let r = shrink z d scs p n fits' (omega (arith, served-cons_le svc_name sc scs)) sized in
      elim (Bool-cases (serves svc_name sc)) [
        | inr other ↦ rw (resize_step_kept svc_name sc s (ground arith)) (
          OnlySizes-same svc_name sc scs s.subclusters h r.0,
          r.1,
          omega (arith, r.2, served-cons_other svc_name sc scs other),
          omega (
            arith,
            r.3,
            served-cons_other svc_name sc scs other,
            served-cons_other svc_name sc s.subclusters other,
          ),
        )
        | inl e ↦ elim (dec_lt 0 (neg_part s.delta)) [
          | no nothing ↦ shrink_kept d sc scs s fits fits' h e r (omega arith)
          | yes some_pods ↦ elim (dec_lt (pos_part sc.size) (neg_part s.delta)) [
            | yes more ↦ shrink_emptied d sc scs s fits fits' h e r more
            | no less ↦ shrink_cut d sc scs s fits fits' h e r some_pods (omega arith)
          ]
        ]
      ]
