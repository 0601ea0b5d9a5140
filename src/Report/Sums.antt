-- ===== src/Report/Sums.antt =====
-- The counts of the cluster are the sums of those of its subclusters.
use vertica_kubernetes.Prelude.{ℕ, ◌+◌, ◌^◌, ◌<◌, ◌≡◌, refl, ◌∙◌, List, [], ◌∷◌, arith, length, All}
use vertica_kubernetes.Prelude.Int.{ℤ, pos, pos_part, neg_part}
use vertica_kubernetes.Prelude.Int32.{add32_pos}
use vertica_kubernetes.Api.Types.{SubclusterStatus, VerticaDbStatus}
use vertica_kubernetes.Report.{roll_up, calculate_cluster_status}

-- A sum over the subclusters, as a plain number.
abbrev pub total : (SubclusterStatus → ℤ) → List SubclusterStatus → ℕ
total count [] = 0
total count (s ∷ ss) = pos_part (count s) + total count ss

-- The counts are not negative.
abbrev pub IsCounted : SubclusterStatus → Type 0
IsCounted s =
    (neg_part s.install_count ≡ 0)
    × (neg_part s.added_to_db_count ≡ 0)
    × (neg_part s.up_node_count ≡ 0)

abbrev with_counts : VerticaDbStatus → ℕ → ℕ → ℕ → ℕ → VerticaDbStatus
with_counts stat n a b c = record stat {
  subcluster_count = pos n;
  install_count = pos a;
  added_to_db_count = pos b;
  up_node_count = pos c;
}

with_counts-same :
    (stat : VerticaDbStatus) {n n' a a' b b' c c' : ℕ}
    → n ≡ n'
    → a ≡ a'
    → b ≡ b'
    → c ≡ c'
    → with_counts stat n a b c ≡ with_counts stat n' a' b' c'
with_counts-same stat e f g h = rw (e, f, g, h) refl

roll_up-total :
    (ss : List SubclusterStatus) (stat : VerticaDbStatus) (n a b c : ℕ)
    → All IsCounted ss
    → n + length ss < 2 ^ 31
    → a + total (λ s. s.install_count) ss < 2 ^ 31
    → b + total (λ s. s.added_to_db_count) ss < 2 ^ 31
    → c + total (λ s. s.up_node_count) ss < 2 ^ 31
    → roll_up ss (with_counts stat n a b c)
      ≡ with_counts stat
          (n + length ss)
          (a + total (λ s. s.install_count) ss)
          (b + total (λ s. s.added_to_db_count) ss)
          (c + total (λ s. s.up_node_count) ss)
unfolding roll_up
roll_up-total [] stat n a b c h p q r t =
    with_counts-same stat (omega arith) (omega arith) (omega arith) (omega arith)
roll_up-total (s ∷ ss) stat n a b c ((u, v, w), h) p q r t =
    let rest =
      roll_up-total ss stat (n + 1) (a + pos_part s.install_count)
        (b + pos_part s.added_to_db_count) (c + pos_part s.up_node_count) h (omega arith)
        (omega arith) (omega arith) (omega arith) in
    rw
      (
        add32_pos n (pos 1) refl (omega arith),
        add32_pos a s.install_count u (omega arith),
        add32_pos b s.added_to_db_count v (omega arith),
        add32_pos c s.up_node_count w (omega arith),
      )
      (rest ∙ with_counts-same stat (omega arith) (omega arith) (omega arith) (omega arith))

-- Where no count is negative and no sum reaches 2 ^ 31, the counts of the cluster are the number of
-- the subclusters and the sums of their counts, whatever the old counts were; all else in the status
-- is as before.
pub calculate_cluster_status-total :
    (stat : VerticaDbStatus)
    → All IsCounted stat.subclusters
    → length stat.subclusters < 2 ^ 31
    → total (λ s. s.install_count) stat.subclusters < 2 ^ 31
    → total (λ s. s.added_to_db_count) stat.subclusters < 2 ^ 31
    → total (λ s. s.up_node_count) stat.subclusters < 2 ^ 31
    → calculate_cluster_status stat ≡ record stat {
      subcluster_count = pos (length stat.subclusters);
      install_count = pos (total (λ s. s.install_count) stat.subclusters);
      added_to_db_count = pos (total (λ s. s.added_to_db_count) stat.subclusters);
      up_node_count = pos (total (λ s. s.up_node_count) stat.subclusters);
    }
unfolding calculate_cluster_status
calculate_cluster_status-total stat h p q r t =
    roll_up-total stat.subclusters stat 0 0 0 0 h (omega arith) (omega arith) (omega arith)
      (omega arith)
    ∙ with_counts-same stat (omega arith) (omega arith) (omega arith) (omega arith)
