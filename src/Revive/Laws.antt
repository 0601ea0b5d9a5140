-- ===== src/Revive/Laws.antt =====
-- How many pods revive_db is given.
use vertica_kubernetes.Prelude.{
  ℕ, zero, suc, ◌+◌, ◌-◌, ◌≤◌, ◌≡◌, refl, ap, inl, inr, List, [], ◌∷◌, ◌++◌, some, arith, length,
  length-append, get_elem?, Option-cases, Bool-cases, ◌||◌,
}
use vertica_kubernetes.Prelude.Int.{ℤ, pos, pos_part, ltb_ℤ, leb_ℤ}
use vertica_kubernetes.Api.Types.{Subcluster, SubclusterPodCount, VerticaDb}
use vertica_kubernetes.PodFacts.{PodFact}
use vertica_kubernetes.Report.{find_fact, gen_pod_name}
use vertica_kubernetes.Revive.{
  pods_left, set_left, add_pods, add_pods_from_subcluster, clip, add_in_order, add_rest,
  get_pod_list,
}

abbrev pub sum : List ℕ → ℕ
sum [] = 0
sum (c ∷ cs) = c + sum cs

-- The counts before an index are used up.
abbrev sum_below : ℕ → List ℕ → ℕ
sum_below zero cs = 0
sum_below (suc i) [] = 0
sum_below (suc i) (c ∷ cs) = c + sum_below i cs

sum_below-length : (cs : List ℕ) → sum_below (length cs) cs ≡ sum cs
sum_below-length [] = refl
sum_below-length (c ∷ cs) = omega (arith, sum_below-length cs)

set_left-sum :
    (cs : List ℕ) (i n left : ℕ)
    → get_elem? cs i ≡ some left
    → (sum (set_left cs i n) + left ≡ sum cs + n)
      × (length (set_left cs i n) ≡ length cs)
      × (sum_below (suc i) (set_left cs i n) ≡ sum_below i cs + n)
set_left-sum [] i n left h = absurd (ground arith)
set_left-sum (c ∷ cs) zero n left h =
    let same : c ≡ left = ground arith in (omega arith, refl, omega arith)
set_left-sum (c ∷ cs) (suc i) n left h =
    let (a, b, d) = set_left-sum cs i n left h in (omega arith, omega arith, omega arith)

module _ (vdb : VerticaDb) (pfacts : List PodFact) where
  pub add_pods-length :
      (sc : Subcluster) (n left left' : ℕ) (l l' : List PodFact)
      → n ≤ left
      → add_pods vdb pfacts sc n left l ≡ some (left', l')
      → (left' + n ≡ left) × (length l' ≡ length l + n)
  unfolding add_pods
  add_pods-length sc zero left left' l l' h e =
      let a : left ≡ left' = ground arith in
      let b : l ≡ l' = ground arith in (omega arith, omega (arith, ap length b))
  add_pods-length sc (suc n) left left' l l' h e =
      elim (Option-cases (find_fact (gen_pod_name vdb sc (pos_part sc.size - left)) pfacts)) [
        | inl k ↦ absurd (ground (arith, rw (add_pods, k) at e))
        | inr (pf, k) ↦
            let (a, b) =
              add_pods-length sc n (left - 1) left' (l ++ pf ∷ []) l' (omega arith)
                (rw (add_pods, k) at e) in
            (omega arith, omega (arith, length-append l (pf ∷ [])))
      ]

  -- One call keeps the number of pods added and to be added.
  abbrev Keeps : ℕ → List ℕ × List PodFact → List ℕ × List PodFact → Type 0
  Keeps i (counts, l) (counts', l') =
      (sum counts' + length l' ≡ sum counts + length l) × (length counts' ≡ length counts)

  add_from-Keeps :
      (i : ℕ) (pods_to_add : ℕ → ℕ) (counts counts' : List ℕ) (l l' : List PodFact)
      → ((left : ℕ) → pods_to_add left ≤ left)
      → add_pods_from_subcluster vdb pfacts i pods_to_add (counts, l) ≡ some (counts', l')
      → Keeps i (counts, l) (counts', l')
        × ((left : ℕ) × (left' : ℕ) × (left' + pods_to_add left ≡ left)
            × (sum_below (suc i) counts' ≡ sum_below i counts + left'))
  unfolding add_pods_from_subcluster
  add_from-Keeps i pods_to_add counts counts' l l' small e =
      elim (Option-cases (get_elem? vdb.spec.subclusters i)) [
        | inl k ↦ absurd (ground (arith, rw (add_pods_from_subcluster, k) at e))
        | inr (sc, k) ↦ elim (Option-cases (get_elem? counts i)) [
          | inl m ↦ absurd (ground (arith, rw (add_pods_from_subcluster, k, m) at e))
          | inr (left, m) ↦ elim (Option-cases (add_pods vdb pfacts sc (pods_to_add left) left l)) [
            | inl q ↦ absurd (ground (arith, rw (add_pods_from_subcluster, k, m, q) at e))
            | inr ((left', l''), q) ↦
                let done : some (set_left counts i left', l'') ≡ some (counts', l') =
                  rw (add_pods_from_subcluster, k, m, q) at e in
                let a : set_left counts i left' ≡ counts' = ground arith in
                let b : l'' ≡ l' = ground arith in
                let (c, d) =
                  add_pods-length sc (pods_to_add left) left left' l l'' (small left) q in
                let (f, g, h) = set_left-sum counts i left' left m in
                let p = small left in
                (
                  (omega (arith, ap sum a, ap length b), omega (arith, ap length a)),
                  (left, left', c, omega (arith, ap (sum_below (suc i)) a)),
                )
          ]
        ]
      ]

  pub clip-le : (pod_count : ℤ) (left : ℕ) → clip pod_count left ≤ left
  unfolding clip
  clip-le pod_count left = ground arith

  add_in_order-Keeps :
      (order : List SubclusterPodCount) (counts counts' : List ℕ) (l l' : List PodFact)
      → add_in_order vdb pfacts order (counts, l) ≡ some (counts', l')
      → Keeps 0 (counts, l) (counts', l')
  unfolding add_in_order
  add_in_order-Keeps [] counts counts' l l' e =
      let a : counts ≡ counts' = ground arith in
      let b : l ≡ l' = ground arith in
      (omega (arith, ap sum a, ap length b), omega (arith, ap length a))
  add_in_order-Keeps (cur ∷ order) counts counts' l l' e =
      let i = pos_part cur.subcluster_index in
      elim (Bool-cases (
        ltb_ℤ cur.subcluster_index (pos 0)
        || leb_ℤ (pos (length vdb.spec.subclusters)) cur.subcluster_index)) [
          | inl k ↦ absurd (ground (arith, rw (add_in_order, k) at e))
          | inr k ↦
              elim (Option-cases
                (add_pods_from_subcluster vdb pfacts i (clip cur.pod_count) (counts, l))) [
                  | inl m ↦ absurd (ground (arith, rw (add_in_order, k, m) at e))
                  | inr ((counts1, l1), m) ↦
                      let (keeps, _) =
                        add_from-Keeps i (clip cur.pod_count) counts counts1 l l1
                          (clip-le cur.pod_count) m in
                      let rest =
                        add_in_order-Keeps order counts1 counts' l1 l'
                          (rw (add_in_order, k, m) at e) in
                      (omega (arith, keeps.0, rest.0), omega (arith, keeps.1, rest.1))
                ]
        ]

  add_rest-Keeps :
      (n i : ℕ) (counts counts' : List ℕ) (l l' : List PodFact)
      → i + n ≡ length counts
      → sum_below i counts ≡ 0
      → add_rest vdb pfacts n i (counts, l) ≡ some (counts', l')
      → length l' ≡ sum counts + length l
  unfolding add_rest
  add_rest-Keeps zero i counts counts' l l' h z e =
      let b : l ≡ l' = ground arith in
      let at_end : i ≡ length counts = omega arith in
      omega (arith, ap length b, sum_below-length counts, ap (λ j. sum_below j counts) at_end)
  add_rest-Keeps (suc n) i counts counts' l l' h z e =
      elim (Option-cases (add_pods_from_subcluster vdb pfacts i (λ left. left) (counts, l))) [
        | inl m ↦ absurd (ground (arith, rw (add_rest, m) at e))
        | inr ((counts1, l1), m) ↦
            let (keeps, (left, left', used, below)) =
              add_from-Keeps i (λ left. left) counts counts1 l l1 (λ left. omega arith) m in
            let rest =
              add_rest-Keeps n (suc i) counts1 counts' l1 l' (omega (arith, keeps.1)) (omega arith)
                (rw (add_rest, m) at e) in
            omega (arith, keeps.0, rest)
      ]

-- The pods that are given to revive_db, if there is an answer,
-- are as many as the sizes of the subclusters make together.
pub get_pod_list-length :
    (vdb : VerticaDb) (pfacts pod_list : List PodFact)
    → get_pod_list vdb pfacts ≡ some pod_list
    → length pod_list ≡ sum (pods_left vdb.spec.subclusters)
unfolding get_pod_list
get_pod_list-length vdb pfacts pod_list e =
    let scs = vdb.spec.subclusters in
    elim (Option-cases (add_in_order vdb pfacts vdb.spec.revive_order (pods_left scs, []))) [
      | inl k ↦ absurd (ground (arith, rw (get_pod_list, k) at e))
      | inr ((counts, l), k) ↦
          elim (Option-cases (add_rest vdb pfacts (length scs) 0 (counts, l))) [
            | inl m ↦ absurd (ground (arith, rw (get_pod_list, k, m) at e))
            | inr ((counts', l'), m) ↦
                let same : l' ≡ pod_list = ground (arith, rw (get_pod_list, k, m) at e) in
                let (kept, long) =
                  add_in_order-Keeps vdb pfacts vdb.spec.revive_order _ counts _ l k in
                let all =
                  add_rest-Keeps vdb pfacts (length scs) 0 counts counts' l l'
                    (omega (arith, long, length-map scs)) refl m in
                omega (arith, ap length same, all, kept)
          ]
    ]
  where
    length-map : (scs : List Subcluster) → length (pods_left scs) ≡ length scs
    length-map [] = refl
    length-map (sc ∷ scs) = omega (arith, length-map scs)
