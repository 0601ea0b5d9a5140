-- ===== src/Revive/Total.antt =====
-- When getPodList has an answer.
use vertica_kubernetes.Prelude.{
  ℕ, zero, suc, ◌+◌, ◌-◌, ◌≤◌, ◌<◌, ◌≡◌, refl, ap, List, [], ◌∷◌, ◌++◌, some, Bool, false, arith,
  length, subst, get_elem?, All, ◌||◌,
}
use vertica_kubernetes.Prelude.Int.{pos, pos_part, ltb_ℤ, leb_ℤ}
use vertica_kubernetes.Api.Types.{Subcluster, SubclusterPodCount, VerticaDb}
use vertica_kubernetes.PodFacts.{PodFact}
use vertica_kubernetes.Report.{find_fact, gen_pod_name}
use vertica_kubernetes.Revive.{
  pods_left, set_left, add_pods, add_pods_from_subcluster, clip, add_in_order, add_rest,
  get_pod_list,
}
use vertica_kubernetes.Revive.Laws.{sum, add_pods-length, clip-le, get_pod_list-length}

-- No subcluster has more pods left than its size.
abbrev Fits : List Subcluster → List ℕ → Type 0
Fits [] cs = length cs ≡ 0
Fits (sc ∷ scs) [] = length (sc ∷ scs) ≡ 0
Fits (sc ∷ scs) (c ∷ cs) = (c ≤ pos_part sc.size) × Fits scs cs

Fits-pods_left : (scs : List Subcluster) → Fits scs (pods_left scs)
Fits-pods_left [] = refl
Fits-pods_left (sc ∷ scs) = (omega arith, Fits-pods_left scs)

Fits-get_elem? :
    (scs : List Subcluster) (cs : List ℕ) (i : ℕ) (sc : Subcluster)
    → Fits scs cs
    → get_elem? scs i ≡ some sc
    → (c : ℕ) × (get_elem? cs i ≡ some c) × (c ≤ pos_part sc.size)
Fits-get_elem? [] cs i sc fits h = absurd (ground arith)
Fits-get_elem? (sc' ∷ scs) [] i sc fits h = absurd (omega arith)
Fits-get_elem? (sc' ∷ scs) (c ∷ cs) zero sc fits h =
    let same : sc' ≡ sc = ground arith in
    (c, refl, omega (arith, fits.0, ap (λ (s : Subcluster). pos_part s.size) same))
Fits-get_elem? (sc' ∷ scs) (c ∷ cs) (suc i) sc fits h = Fits-get_elem? scs cs i sc fits.1 h

Fits-set_left :
    (scs : List Subcluster) (cs : List ℕ) (i c n : ℕ)
    → Fits scs cs
    → get_elem? cs i ≡ some c
    → n ≤ c
    → Fits scs (set_left cs i n)
Fits-set_left [] [] i c n fits h le = refl
Fits-set_left [] (c' ∷ cs) i c n fits h le = absurd (omega arith)
Fits-set_left (sc ∷ scs) [] i c n fits h le = absurd (omega arith)
Fits-set_left (sc ∷ scs) (c' ∷ cs) zero c n fits h le =
    let same : c' ≡ c = ground arith in (omega (arith, fits.0, same), fits.1)
Fits-set_left (sc ∷ scs) (c' ∷ cs) (suc i) c n fits h le =
    (fits.0, Fits-set_left scs cs i c n fits.1 h le)

get_elem?-below :
    (scs : List Subcluster) (i : ℕ)
    → i < length scs
    → (sc : Subcluster) × (get_elem? scs i ≡ some sc)
get_elem?-below [] i h = absurd (omega arith)
get_elem?-below (sc ∷ scs) zero h = (sc, refl)
get_elem?-below (sc ∷ scs) (suc i) h = get_elem?-below scs i (omega arith)

All-get_elem? {ℓ} :
    (P : Subcluster → Type ℓ) (scs : List Subcluster) (i : ℕ) (sc : Subcluster)
    → All P scs
    → get_elem? scs i ≡ some sc
    → P sc
All-get_elem? P [] i sc ps h = absurd (ground arith)
All-get_elem? P (sc' ∷ scs) zero sc ps h = let same : sc' ≡ sc = ground arith in subst P same ps.0
All-get_elem? P (sc' ∷ scs) (suc i) sc ps h = All-get_elem? P scs i sc ps.1 h

-- The first pods of a subcluster, as many as its size, have facts.
abbrev pub HasFacts : VerticaDb → List PodFact → Subcluster → Type 0
HasFacts vdb pfacts sc =
    (k : ℕ)
    → k < pos_part sc.size
    → (pf : PodFact) × (find_fact (gen_pod_name vdb sc k) pfacts ≡ some pf)

-- The index of an entry of the revive order is that of a subcluster.
abbrev pub is_bad_index : VerticaDb → SubclusterPodCount → Bool
is_bad_index vdb cur =
    ltb_ℤ cur.subcluster_index (pos 0)
    || leb_ℤ (pos (length vdb.spec.subclusters)) cur.subcluster_index

bad_index-below :
    (vdb : VerticaDb) (cur : SubclusterPodCount)
    → is_bad_index vdb cur ≡ false
    → pos_part cur.subcluster_index < length vdb.spec.subclusters
bad_index-below vdb cur h = ground arith

module _ (vdb : VerticaDb) (pfacts : List PodFact) where
  add_pods-some :
      (sc : Subcluster) (n left : ℕ) (l : List PodFact)
      → HasFacts vdb pfacts sc
      → n ≤ left
      → left ≤ pos_part sc.size
      → (s : ℕ × List PodFact) × (add_pods vdb pfacts sc n left l ≡ some s)
  unfolding add_pods
  add_pods-some sc zero left l facts le fit = ((left, l), refl)
  add_pods-some sc (suc n) left l facts le fit =
      let (pf, k) = facts (pos_part sc.size - left) (omega arith) in
      let (s, e) = add_pods-some sc n (left - 1) (l ++ pf ∷ []) facts (omega arith) (omega arith) in
      (s, rw (add_pods, k, e))

  -- A call for no more pods than are left ends, and the counts still fit.
  add_from-some :
      (i : ℕ) (pods_to_add : ℕ → ℕ) (counts : List ℕ) (l : List PodFact)
      → ((left : ℕ) → pods_to_add left ≤ left)
      → All (HasFacts vdb pfacts) vdb.spec.subclusters
      → Fits vdb.spec.subclusters counts
      → i < length vdb.spec.subclusters
      → (counts' : List ℕ) × (l' : List PodFact) × (add_pods_from_subcluster vdb pfacts i
            pods_to_add
            (counts, l)
          ≡ some (counts', l'))
        × Fits vdb.spec.subclusters counts'
  unfolding add_pods_from_subcluster
  add_from-some i pods_to_add counts l small facts fits below =
      let (sc, k) = get_elem?-below vdb.spec.subclusters i below in
      let (left, m, fit) = Fits-get_elem? vdb.spec.subclusters counts i sc fits k in
      let ((left', l'), e) =
        add_pods-some sc (pods_to_add left) left l
          (All-get_elem? _ vdb.spec.subclusters i sc facts k) (small left) fit in
      let (used, _) =
        add_pods-length vdb pfacts sc (pods_to_add left) left left' l l' (small left) e in
      (
        set_left counts i left',
        l',
        rw (add_pods_from_subcluster, k, m, e),
        Fits-set_left vdb.spec.subclusters counts i left left' fits m (omega arith),
      )

  add_in_order-some :
      (order : List SubclusterPodCount) (counts : List ℕ) (l : List PodFact)
      → All (HasFacts vdb pfacts) vdb.spec.subclusters
      → All (λ cur. is_bad_index vdb cur ≡ false) order
      → Fits vdb.spec.subclusters counts
      → (counts' : List ℕ) × (l' : List PodFact) × (add_in_order vdb pfacts order (counts, l)
          ≡ some (counts', l'))
        × Fits vdb.spec.subclusters counts'
  unfolding add_in_order
  add_in_order-some [] counts l facts good fits = (counts, l, refl, fits)
  add_in_order-some (cur ∷ order) counts l facts good fits =
      let i = pos_part cur.subcluster_index in
      let (counts1, l1, e, fits1) =
        add_from-some i (clip cur.pod_count) counts l (clip-le vdb pfacts cur.pod_count) facts fits
          (bad_index-below vdb cur good.0) in
      let (counts', l', rest, fits') = add_in_order-some order counts1 l1 facts good.1 fits1 in
      (counts', l', rw (add_in_order, good.0, e, rest), fits')

  add_rest-some :
      (n i : ℕ) (counts : List ℕ) (l : List PodFact)
      → All (HasFacts vdb pfacts) vdb.spec.subclusters
      → Fits vdb.spec.subclusters counts
      → i + n ≤ length vdb.spec.subclusters
      → (counts' : List ℕ) × (l' : List PodFact) × (add_rest vdb pfacts n i (counts, l)
          ≡ some (counts', l'))
  unfolding add_rest
  add_rest-some zero i counts l facts fits h = (counts, l, refl)
  add_rest-some (suc n) i counts l facts fits h =
      let (counts1, l1, e, fits1) =
        add_from-some i (λ left. left) counts l (λ left. omega arith) facts fits (omega arith) in
      let (counts', l', rest) = add_rest-some n (suc i) counts1 l1 facts fits1 (omega arith) in
      (counts', l', rw (add_rest, e, rest))

-- When the first pods of each subcluster, as many as its size, have facts and each index of the
-- revive order is that of a subcluster, there is a list for revive_db, with as many pods as the
-- sizes of the subclusters make together.
pub get_pod_list-some :
    (vdb : VerticaDb) (pfacts : List PodFact)
    → All (HasFacts vdb pfacts) vdb.spec.subclusters
    → All (λ cur. is_bad_index vdb cur ≡ false) vdb.spec.revive_order
    → (pod_list : List PodFact) × (get_pod_list vdb pfacts ≡ some pod_list)
      × (length pod_list ≡ sum (pods_left vdb.spec.subclusters))
unfolding get_pod_list
get_pod_list-some vdb pfacts facts good =
    let scs = vdb.spec.subclusters in
    let (counts, l, e, fits) =
      add_in_order-some vdb pfacts vdb.spec.revive_order (pods_left scs) [] facts good
        (Fits-pods_left scs) in
    let (counts', l', rest) =
      add_rest-some vdb pfacts (length scs) 0 counts l facts fits (omega arith) in
    let done : get_pod_list vdb pfacts ≡ some l' = rw (get_pod_list, e, rest) in
    (l', done, get_pod_list-length vdb pfacts l' done)
