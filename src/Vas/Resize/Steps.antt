-- ===== src/Vas/Resize/Steps.antt =====
-- One round of the resize loop, branch by branch, and what all branches keep.
use vertica_kubernetes.Prelude.{
  ℕ, ◌+◌, ◌≤◌, ◌<◌, ◌^◌, ◌≡◌, ap, String, List, ◌∷◌, map, true, false, not, ◌||◌, arith, All, keep,
}
use vertica_kubernetes.Prelude.Int.{ℤ, pos, pos_part, neg_part, eqb_ℤ}
use vertica_kubernetes.Prelude.Int32.{add32, sub32_negate}
use vertica_kubernetes.Api.Types.{Subcluster}
use vertica_kubernetes.Api.Methods.{get_service_name, serves}
use vertica_kubernetes.Vas.Pods.{IsSized, pod_count}
use vertica_kubernetes.Vas.Resize.{ResizeLoop, resize_step}

-- A subcluster without its size.
abbrev pub sizeless : Subcluster → Subcluster
sizeless sc = record sc { size = pos 0 }

abbrev pub served : String → List Subcluster → ℕ
served svc_name scs = pod_count (keep (serves svc_name) scs)

-- Only sizes of subclusters of the service have changed, and none is negative.
pub record OnlySizes (svc_name : String) (scs new : List Subcluster) : Type 0 where
  pub same : map sizeless new ≡ map sizeless scs
  pub others : keep (λ sc. not (serves svc_name sc)) new ≡ keep (λ sc. not (serves svc_name sc)) scs
  pub sized : All IsSized new

module _ (svc_name : String) where
  pub OnlySizes-same :
      (sc : Subcluster) (scs new : List Subcluster)
      → IsSized sc
      → OnlySizes svc_name scs new
      → OnlySizes svc_name (sc ∷ scs) (sc ∷ new)
  OnlySizes-same sc scs new h o = record {
    same = ap (λ t. sizeless sc ∷ t) o.same;
    others = ground (arith, o.others);
    sized = (h, o.sized);
  }

  pub OnlySizes-sized :
      (sc : Subcluster) (n : ℤ) (scs new : List Subcluster)
      → neg_part n ≡ 0
      → serves svc_name sc ≡ true
      → OnlySizes svc_name scs new
      → OnlySizes svc_name (sc ∷ scs) (record sc { size = n } ∷ new)
  unfolding get_service_name serves
  OnlySizes-sized sc n scs new h e o = record {
    same = ap (λ t. sizeless sc ∷ t) o.same;
    others = rw (e) o.others;
    sized = (h, o.sized);
  }

  pub served-cons_le :
      (sc : Subcluster) (scs : List Subcluster) → served svc_name scs ≤ served svc_name (sc ∷ scs)
  served-cons_le sc scs = ground arith

  pub served-cons :
      (sc : Subcluster) (scs : List Subcluster)
      → serves svc_name sc ≡ true
      → served svc_name (sc ∷ scs) ≡ pos_part sc.size + served svc_name scs
  served-cons sc scs e = rw e

  pub served-cons_sized :
      (sc : Subcluster) (n : ℤ) (scs : List Subcluster)
      → serves svc_name sc ≡ true
      → served svc_name (record sc { size = n } ∷ scs) ≡ pos_part n + served svc_name scs
  unfolding get_service_name serves
  served-cons_sized sc n scs e = rw e

  pub served-cons_other :
      (sc : Subcluster) (scs : List Subcluster)
      → serves svc_name sc ≡ false
      → served svc_name (sc ∷ scs) ≡ served svc_name scs
  served-cons_other sc scs e = rw e

  -- The four branches of a round.
  pub resize_step_kept :
      (sc : Subcluster) (s : ResizeLoop)
      → (eqb_ℤ s.delta (pos 0) || not (serves svc_name sc)) ≡ true
      → resize_step svc_name sc s ≡ record s { subclusters = sc ∷ s.subclusters }
  unfolding resize_step
  resize_step_kept sc s e = rw (e, resize_step)

  pub resize_step_grown :
      (sc : Subcluster) (s : ResizeLoop)
      → serves svc_name sc ≡ true
      → 0 < pos_part s.delta
      → resize_step svc_name sc s ≡ record {
        delta = pos 0;
        subclusters = (record sc { size = add32 sc.size s.delta }) ∷ s.subclusters;
      }
  unfolding resize_step
  resize_step_grown sc s e h = ground (arith, e)

  pub resize_step_emptied :
      (sc : Subcluster) (s : ResizeLoop)
      → serves svc_name sc ≡ true
      → IsSized sc
      → pos_part s.delta ≡ 0
      → neg_part s.delta < 2 ^ 31
      → pos_part sc.size < neg_part s.delta
      → resize_step svc_name sc s ≡ record {
        delta = add32 s.delta sc.size;
        subclusters = (record sc { size = pos 0 }) ∷ s.subclusters;
      }
  unfolding resize_step
  resize_step_emptied sc s e h p lt more = ground (arith, e, sub32_negate s.delta p lt)

  pub resize_step_shrunk :
      (sc : Subcluster) (s : ResizeLoop)
      → serves svc_name sc ≡ true
      → IsSized sc
      → pos_part s.delta ≡ 0
      → 0 < neg_part s.delta
      → neg_part s.delta < 2 ^ 31
      → neg_part s.delta ≤ pos_part sc.size
      → resize_step svc_name sc s ≡ record {
        delta = pos 0;
        subclusters = (record sc { size = add32 sc.size s.delta }) ∷ s.subclusters;
      }
  unfolding resize_step
  resize_step_shrunk sc s e h p some_pods lt less = ground (arith, e, sub32_negate s.delta p lt)
