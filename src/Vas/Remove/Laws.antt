-- ===== src/Vas/Remove/Laws.antt =====
-- What considerRemovingSubclusters takes away, and what it leaves.
use vertica_kubernetes.Prelude.{
  ℕ, ◌+◌, ◌-◌, ◌≤◌, ◌<◌, ◌^◌, ◌≡◌, ◌≢◌, refl, ap, ◌⊎◌, inl, inr, ◌↔◌, String, List, [], ◌∷◌, ◌++◌,
  some, Bool, true, false, not, ◌&&◌, arith, All, keep, last?, last?-cons, length, length-append,
  length-keep-add, Bool-cases, ◌==◌,
}
use vertica_kubernetes.Prelude.Int.{pos, pos_part, ltb_ℤ, leb_ℤ}
use vertica_kubernetes.Prelude.Int32.{sub32_pos}
use vertica_kubernetes.Api.Types.{Subcluster}
use vertica_kubernetes.Api.Methods.{serves}
use vertica_kubernetes.Vas.Pods.{IsSized, pod_count}
use vertica_kubernetes.Vas.Remove.{
  RemoveLoop, remove_step, remove_loop, consider_removing_subclusters,
}

-- What has happened to `scs` when `p` pods were to go and `left` of them still are to.
record Removing (svc_name : String) (p : ℕ) (scs : List Subcluster) (s : RemoveLoop) : Type 0 where
  left : ℕ
  dropped : List Subcluster
  is_left : s.pods_to_remove ≡ pos left
  spent : left + pod_count dropped ≡ p
  others : keep (λ sc. not (serves svc_name sc)) s.kept ≡ keep (λ sc. not (serves svc_name sc)) scs
  served : keep (serves svc_name) scs ≡ keep (serves svc_name) s.kept ++ dropped
  going : s.returned ≡ false → keep (serves svc_name) s.kept ≡ []
  greedy :
      s.returned ≡ true
      → (sc : Subcluster) × (last? (keep (serves svc_name) s.kept) ≡ some sc)
        × ((left ≡ 0) ⊎ (left < pos_part sc.size))

module _ (svc_name : String) (p : ℕ) (sc : Subcluster) (scs : List Subcluster) (s : RemoveLoop)
    (r : Removing svc_name p scs s) where
  open r use {left, dropped}

  -- A subcluster of another service is kept.
  remove_step_other :
      serves svc_name sc ≡ false → Removing svc_name p (sc ∷ scs) (remove_step svc_name sc s)
  unfolding remove_step
  remove_step_other e = elim (Bool-cases s.returned) [
    | inl b ↦ rw b (record {
      left = left;
      dropped = dropped;
      is_left = r.is_left;
      spent = r.spent;
      others = ground (arith, r.others);
      served = ground (arith, r.served);
      going = ground (arith, r.going);
      greedy = rw e (λ _. r.greedy b);
    })
    | inr b ↦
        rw (b, e)
          (record {
            left = left;
            dropped = dropped;
            is_left = r.is_left;
            spent = r.spent;
            others = ground (arith, r.others);
            served = ground (arith, r.served);
            going = ground (arith, r.going);
            greedy = ground (arith, r.greedy);
          })
  ]

  -- After the loop has returned, everything is kept.
  remove_step_returned :
      serves svc_name sc ≡ true
      → s.returned ≡ true
      → Removing svc_name p (sc ∷ scs) (remove_step svc_name sc s)
  unfolding remove_step
  remove_step_returned e b =
      let (at, is_last, enough) = r.greedy b in
      rw b (record {
        left = left;
        dropped = dropped;
        is_left = r.is_left;
        spent = r.spent;
        others = ground (arith, r.others);
        served = ground (arith, r.served);
        going = ground (arith, r.going);
        greedy = λ _. (at, rw e (last?-cons sc (keep (serves svc_name) s.kept) is_last), enough);
      })

  remove_step_taken :
      p < 2 ^ 31
      → IsSized sc
      → serves svc_name sc ≡ true
      → s.returned ≡ false
      → (ltb_ℤ (pos 0) (pos left) && leb_ℤ sc.size (pos left)) ≡ true
      → Removing svc_name p (sc ∷ scs) (remove_step svc_name sc s)
  unfolding remove_step
  remove_step_taken fits sized e b fine =
      rw (b, e, r.is_left, fine)
        (record {
          left = left - pos_part sc.size;
          dropped = sc ∷ dropped;
          is_left = sub32_pos left sc.size sized (ground arith) (omega (arith, r.spent));
          spent = ground (arith, r.spent);
          others = ground (arith, r.others);
          served = ground (arith, r.served, r.going b);
          going = λ _. r.going b;
          greedy = λ f. absurd (ground arith);
        })

  remove_step_refused :
      IsSized sc
      → serves svc_name sc ≡ true
      → s.returned ≡ false
      → (ltb_ℤ (pos 0) (pos left) && leb_ℤ sc.size (pos left)) ≡ false
      → Removing svc_name p (sc ∷ scs) (remove_step svc_name sc s)
  unfolding remove_step
  remove_step_refused sized e b fine =
      rw (b, e, r.is_left, fine)
        (record {
          left = left;
          dropped = dropped;
          is_left = refl;
          spent = r.spent;
          others = ground (arith, r.others);
          served = ground (arith, r.served);
          going = λ f. absurd (ground arith);
          greedy = λ _. (sc, ground (arith, r.going b), ground arith);
        })

remove_loop-Removing :
    (svc_name : String) (p : ℕ) (scs : List Subcluster)
    → p < 2 ^ 31
    → All IsSized scs
    → Removing svc_name p scs (remove_loop svc_name (pos p) scs)
unfolding remove_loop
remove_loop-Removing svc_name p [] fits sized = record {
  left = p;
  dropped = [];
  is_left = refl;
  spent = omega arith;
  others = refl;
  served = refl;
  going = λ _. refl;
  greedy = λ f. absurd (ground arith);
}
remove_loop-Removing svc_name p (sc ∷ scs) fits (size, sized) =
    let s = remove_loop svc_name (pos p) scs in
    let r = remove_loop-Removing svc_name p scs fits sized in
    elim (Bool-cases (serves svc_name sc)) [
      | inr other ↦ remove_step_other svc_name p sc scs s r other
      | inl e ↦ elim (Bool-cases s.returned) [
        | inl b ↦ remove_step_returned svc_name p sc scs s r e b
        | inr b ↦ elim (Bool-cases (ltb_ℤ (pos 0) (pos r.left) && leb_ℤ sc.size (pos r.left))) [
          | inl fine ↦ remove_step_taken svc_name p sc scs s r fits size e b fine
          | inr fine ↦ remove_step_refused svc_name p sc scs s r size e b fine
        ]
      ]
    ]

changed_iff :
    (n k : ℕ) (dropped : List Subcluster)
    → n ≡ k + length dropped
    → (not (n == k) ≡ true) ↔ (dropped ≢ [])
changed_iff n k [] h = (λ c. absurd (ground arith), λ c. absurd (c refl))
changed_iff n k (d ∷ ds) h = (λ c e. cc, λ c. ground arith)

-- The subclusters of the service that are removed are the last ones, as many as fit.
pub record IsRemoval (svc_name : String) (p : ℕ) (scs : List Subcluster)
    (result : List Subcluster × Bool) : Type 0 where
  pub dropped : List Subcluster
  pub others :
      keep (λ sc. not (serves svc_name sc)) result.0 ≡ keep (λ sc. not (serves svc_name sc)) scs
  pub served : keep (serves svc_name) scs ≡ keep (serves svc_name) result.0 ++ dropped
  pub bounded : pod_count dropped ≤ p
  pub greedy :
      (keep (serves svc_name) result.0 ≡ [])
      ⊎ ((sc : Subcluster) × (last? (keep (serves svc_name) result.0) ≡ some sc)
          × ((pod_count dropped ≡ p) ⊎ (p < pod_count dropped + pos_part sc.size)))
  pub changed : (result.1 ≡ true) ↔ (dropped ≢ [])

Removing-length :
    (svc_name : String) (p : ℕ) (scs : List Subcluster) (s : RemoveLoop)
    (r : Removing svc_name p scs s)
    → length scs ≡ length s.kept + length r.dropped
Removing-length svc_name p scs s r = omega (
  arith,
  length-keep-add (serves svc_name) scs,
  length-keep-add (serves svc_name) s.kept,
  length-append (keep (serves svc_name) s.kept) r.dropped,
  ap length r.served,
  ap length r.others,
)

-- Where all sizes are at least 0 and `p` fits an int32, the call removes a last part of the
-- subclusters of the service, with at most `p` pods, keeps all subclusters of other services
-- in order, and stops only where no subcluster of the service is left, `p` pods are gone, or
-- the last one left is too large. It reports a change exactly when it removed a subcluster.
pub consider_removing_subclusters-IsRemoval :
    (svc_name : String) (p : ℕ) (scs : List Subcluster)
    → p < 2 ^ 31
    → All IsSized scs
    → IsRemoval svc_name p scs (consider_removing_subclusters svc_name (pos p) scs)
unfolding consider_removing_subclusters
consider_removing_subclusters-IsRemoval svc_name p scs fits sized =
    let s = remove_loop svc_name (pos p) scs in
    let r = remove_loop-Removing svc_name p scs fits sized in
    record {
      dropped = r.dropped;
      others = r.others;
      served = r.served;
      bounded = omega (arith, r.spent);
      greedy = elim (Bool-cases s.returned) [
        | inr b ↦ inl (r.going b)
        | inl b ↦
            let (sc, is_last, enough) = r.greedy b in inr (sc, is_last, ground (arith, r.spent))
      ];
      changed = changed_iff _ _ r.dropped (Removing-length svc_name p scs s r);
    }
