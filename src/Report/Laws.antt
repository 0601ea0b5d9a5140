-- ===== src/Report/Laws.antt =====
-- The counts of a subcluster's status.
use vertica_kubernetes.Prelude.{
  ℕ, zero, suc, ◌+◌, ◌-◌, ◌^◌, ◌≤◌, ◌<◌, ◌≡◌, refl, ◌∙◌, ap, String, List, [], ◌∷◌, ◌++◌, some,
  Bool, true, false, if◌then◌else◌, arith, length, length-append,
}
use vertica_kubernetes.Prelude.Int.{pos}
use vertica_kubernetes.Prelude.Int32.{add32_pos}
use vertica_kubernetes.Api.Types.{Subcluster, VerticaDb, VerticaDbPodStatus, SubclusterStatus}
use vertica_kubernetes.PodFacts.{PodFact}
use vertica_kubernetes.Upgrade.World.{World}
use vertica_kubernetes.Report.{
  grow, take, resize_detail, fill_detail, count_detail, refresh_counts, get_subcluster_size,
  calculate_subcluster_status, no_pod_status, bump,
}

-- The pods of a detail that pass a test, as a plain number.
abbrev pub number : (VerticaDbPodStatus → Bool) → List VerticaDbPodStatus → ℕ
number test [] = 0
number test (d ∷ detail) = (if test d then 1 else 0) + number test detail

number-le :
    (test : VerticaDbPodStatus → Bool) (detail : List VerticaDbPodStatus)
    → number test detail ≤ length detail
number-le test [] = omega arith
number-le test (d ∷ detail) = ground (arith, number-le test detail)

length-grow :
    (k : ℕ) (detail : List VerticaDbPodStatus) → length (grow k detail) ≡ k + length detail
unfolding grow
length-grow zero detail = omega arith
length-grow (suc k) detail =
    omega (
      arith,
      length-grow k (detail ++ no_pod_status ∷ []),
      length-append detail (no_pod_status ∷ []),
    )

length-take :
    (n : ℕ) (detail : List VerticaDbPodStatus) → n ≤ length detail → length (take n detail) ≡ n
length-take zero detail h = refl
length-take (suc n) [] h = absurd (omega arith)
length-take (suc n) (d ∷ detail) h = omega (arith, length-take n detail)

length-fill_detail :
    (vdb : VerticaDb) (pfacts : List PodFact) (sc : Subcluster) (i : ℕ)
    (detail : List VerticaDbPodStatus)
    → length (fill_detail vdb pfacts sc i detail) ≡ length detail
unfolding fill_detail
length-fill_detail vdb pfacts sc i [] = refl
length-fill_detail vdb pfacts sc i (d ∷ detail) =
    omega (arith, length-fill_detail vdb pfacts sc (suc i) detail)

abbrev status_of : String → ℕ → ℕ → ℕ → ℕ → List VerticaDbPodStatus → SubclusterStatus
status_of name a b c d detail = record {
  name = name;
  install_count = pos a;
  added_to_db_count = pos b;
  up_node_count = pos c;
  read_only_count = pos d;
  detail = detail;
}

bump_pos : (b : Bool) (n : ℕ) → suc n < 2 ^ 31 → bump b (pos n) ≡ pos ((if b then 1 else 0) + n)
bump_pos true n h = add32_pos n (pos 1) refl (omega arith) ∙ ap pos (omega arith)
bump_pos false n h = ap pos (omega arith)

status_of-same :
    (name : String) (detail : List VerticaDbPodStatus) {a a' b b' c c' d d' : ℕ}
    → a ≡ a'
    → b ≡ b'
    → c ≡ c'
    → d ≡ d'
    → status_of name a b c d detail ≡ status_of name a' b' c' d' detail
status_of-same name detail e f g h = rw (e, f, g, h) refl

count_detail-number :
    (detail all : List VerticaDbPodStatus) (name : String) (a b c d m : ℕ)
    → a ≤ m
    → b ≤ m
    → c ≤ m
    → d ≤ m
    → m + length detail < 2 ^ 31
    → count_detail detail (status_of name a b c d all)
      ≡ status_of name
          (a + number (λ p. p.installed) detail)
          (b + number (λ p. p.added_to_db) detail)
          (c + number (λ p. p.up_node) detail)
          (d + number (λ p. p.read_only) detail)
          all
unfolding count_detail
count_detail-number [] all name a b c d m p q r s h =
    status_of-same name all (omega arith) (omega arith) (omega arith) (omega arith)
count_detail-number (x ∷ detail) all name a b c d m p q r s h =
    let one : Bool → ℕ = λ t. if t then 1 else 0 in
    let small : (t : Bool) → one t ≤ 1 = λ t. ground arith in
    let rest =
      count_detail-number detail all name (one x.installed + a) (one x.added_to_db + b)
        (one x.up_node + c) (one x.read_only + d) (suc m) (omega (arith, small x.installed))
        (omega (arith, small x.added_to_db)) (omega (arith, small x.up_node))
        (omega (arith, small x.read_only)) (omega arith) in
    rw
      (
        bump_pos x.installed a (omega arith),
        bump_pos x.added_to_db b (omega arith),
        bump_pos x.up_node c (omega arith),
        bump_pos x.read_only d (omega arith),
      )
      (rest ∙ status_of-same name all (omega arith) (omega arith) (omega arith) (omega arith))

-- A status of a subcluster: one entry for each of `n` pods, and counts that are those of the entries.
pub record IsReport (sc : Subcluster) (n : ℕ) (stat : SubclusterStatus) : Type 0 where
  pub named : stat.name ≡ sc.name
  pub sized : length stat.detail ≡ n
  pub installed : stat.install_count ≡ pos (number (λ p. p.installed) stat.detail)
  pub added : stat.added_to_db_count ≡ pos (number (λ p. p.added_to_db) stat.detail)
  pub up : stat.up_node_count ≡ pos (number (λ p. p.up_node) stat.detail)
  pub read_only : stat.read_only_count ≡ pos (number (λ p. p.read_only) stat.detail)
  pub bounded :
      (number (λ p. p.installed) stat.detail ≤ n)
      × (number (λ p. p.added_to_db) stat.detail ≤ n)
      × (number (λ p. p.up_node) stat.detail ≤ n)
      × (number (λ p. p.read_only) stat.detail ≤ n)

refresh_counts-IsReport :
    (sc : Subcluster) (n : ℕ) (detail : List VerticaDbPodStatus)
    → length detail ≡ n
    → n < 2 ^ 31
    → IsReport sc n (refresh_counts sc.name detail)
unfolding refresh_counts
refresh_counts-IsReport sc n detail e h =
    let same =
      count_detail-number detail detail sc.name 0 0 0 0 0 (omega arith) (omega arith) (omega arith)
        (omega arith) (omega arith) in
    rw same (record {
      named = refl;
      sized = e;
      installed = ap pos (omega arith);
      added = ap pos (omega arith);
      up = ap pos (omega arith);
      read_only = ap pos (omega arith);
      bounded = (
        omega (arith, e, number-le (λ p. p.installed) detail),
        omega (arith, e, number-le (λ p. p.added_to_db) detail),
        omega (arith, e, number-le (λ p. p.up_node) detail),
        omega (arith, e, number-le (λ p. p.read_only) detail),
      );
    })

-- When the size of a subcluster is found, and is neither negative nor beyond an int32, its status is
-- made, whatever the old one was: it has one entry for each pod, and each of its four counts is the
-- number of the entries that it counts, so that none exceeds the size.
pub calculate_subcluster_status-IsReport :
    (sc : Subcluster) (cur_stat : SubclusterStatus) (w : World) (n : ℕ)
    → (get_subcluster_size sc w).0 ≡ some (pos n)
    → n < 2 ^ 31
    → (stat : SubclusterStatus) × ((calculate_subcluster_status sc cur_stat w).0 ≡ some stat)
      × IsReport sc n stat
unfolding calculate_subcluster_status resize_detail
calculate_subcluster_status-IsReport sc cur_stat w n e h =
    let old = cur_stat.detail in
    let grown = grow (suc (n - suc (length old))) old in
    let cut = take n grown in
    let detail = fill_detail w.vdb w.pfacts sc 0 cut in
    let long : length grown ≡ suc (n - suc (length old)) + length old = length-grow _ old in
    let sized : length detail ≡ n =
      length-fill_detail w.vdb w.pfacts sc 0 cut ∙ length-take n grown (omega arith) in
    (
      refresh_counts sc.name detail,
      rw (calculate_subcluster_status, e) refl,
      refresh_counts-IsReport sc n detail sized h,
    )
