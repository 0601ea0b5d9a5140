-- ===== src/Vas/Pods.antt =====
-- The number of pods of some subclusters, as a plain number, against the int32 sum of the code.
use vertica_kubernetes.Prelude.{
  ℕ, ◌+◌, ◌<◌, ◌^◌, ◌≡◌, ◌∙◌, ap, List, [], ◌∷◌, ◌++◌, Bool, arith, All, keep,
}
use vertica_kubernetes.Prelude.Int.{pos, pos_part, neg_part}
use vertica_kubernetes.Prelude.Int32.{add32_pos}
use vertica_kubernetes.Api.Types.{Subcluster}
use vertica_kubernetes.Api.Methods.{sum_size}

-- The size is not negative.
abbrev pub IsSized : Subcluster → Type 0
IsSized sc = neg_part sc.size ≡ 0

abbrev pub pod_count : List Subcluster → ℕ
pod_count [] = 0
pod_count (sc ∷ scs) = pos_part sc.size + pod_count scs

pub pod_count-append :
    (xs ys : List Subcluster) → pod_count (xs ++ ys) ≡ pod_count xs + pod_count ys
pod_count-append [] ys = omega arith
pod_count-append (x ∷ xs) ys = omega (arith, pod_count-append xs ys)

pub All-keep {ℓ} :
    (P : Subcluster → Type ℓ) (p : Subcluster → Bool) (xs : List Subcluster)
    → All P xs
    → All P (keep p xs)
All-keep P p [] h = tt
All-keep P p (x ∷ xs) h = ground (arith, All-keep P p xs h.1)

-- Where the pods are fewer than 2 ^ 31 the sum does not wrap.
pub sum_size-eq-pod_count :
    (a : ℕ) (scs : List Subcluster)
    → All IsSized scs
    → a + pod_count scs < 2 ^ 31
    → sum_size (pos a) scs ≡ pos (a + pod_count scs)
unfolding sum_size
sum_size-eq-pod_count a [] h lt = ap pos (omega arith)
sum_size-eq-pod_count a (sc ∷ scs) (h, hs) lt =
    rw (add32_pos a sc.size h (omega arith))
      (sum_size-eq-pod_count (a + pos_part sc.size) scs hs (omega arith) ∙ ap pos (omega arith))

pub sum_size-eq :
    (scs : List Subcluster)
    → All IsSized scs
    → pod_count scs < 2 ^ 31
    → sum_size (pos 0) scs ≡ pos (pod_count scs)
sum_size-eq scs sized fits = sum_size-eq-pod_count 0 scs sized (omega arith) ∙ ap pos (omega arith)
