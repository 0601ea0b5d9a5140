-- ===== src/PodFacts/Laws.antt =====
-- What the finders find, and when a count of pods is 0.
use vertica_kubernetes.Prelude.{
  ℕ, ◌+◌, ◌≤◌, ◌≡◌, refl, inl, inr, List, [], ◌∷◌, Option, none, some, Bool, true, false, not, ◌&&◌,
  arith, All, any, ◌↔◌, if◌then◌else◌, Option-cases, Bool-cases, get_elem?, All-imp, All-both,
  All-of, sym, ◌∙◌, ap, suc,
}
use vertica_kubernetes.PodFacts.{
  PodFact, find_pod, find_pod_to_run_admintools_any, count_pods, count_pods_from,
}

-- A pod is better, the less its rank: up and writable, up, installed and running, of no use.
abbrev pub rank : PodFact → ℕ
rank v =
    if v.up_node && not v.read_only
    then 0
    else if v.up_node
    then 1
    else if v.is_installed && v.is_pod_running
    then 2
    else 3

-- The pod that was found can run admintools, and no pod is better; or none can run it.
abbrev pub IsBest : List PodFact → Option PodFact → Type 0
IsBest detail none = All (λ v. rank v ≡ 3) detail
IsBest detail (some p) =
    ((i : ℕ) × (get_elem? detail i ≡ some p)) × (rank p ≤ 2) × All (λ v. rank p ≤ rank v) detail

find_pod-none :
    (test : PodFact → Bool) (detail : List PodFact)
    → find_pod test detail ≡ none
    → All (λ v. test v ≡ false) detail
unfolding find_pod
find_pod-none test [] e = tt
find_pod-none test (v ∷ vs) e = elim (Bool-cases (test v)) [
  | inl t ↦ absurd (ground arith)
  | inr f ↦ (f, find_pod-none test vs (ground arith))
]

find_pod-some :
    (test : PodFact → Bool) (detail : List PodFact) (p : PodFact)
    → find_pod test detail ≡ some p
    → (test p ≡ true) × (i : ℕ) × (get_elem? detail i ≡ some p)
unfolding find_pod
find_pod-some test [] p e = absurd (ground arith)
find_pod-some test (v ∷ vs) p e = elim (Bool-cases (test v)) [
  | inl t ↦
      let same : some v ≡ some p = sym (rw t refl) ∙ e in
      (rw t at (ap (λ o. passes o) (sym same)), 0, same)
  | inr f ↦ let (h, i, a) = find_pod-some test vs p (sym (rw f refl) ∙ e) in (h, suc i, a)
]
  where
    passes : Option PodFact → Bool
    passes none = false
    passes (some v) = test v

-- Every pod does as well as the one found, where the better ones are excluded.
found-IsBest :
    (test : PodFact → Bool) (r : ℕ) (detail : List PodFact) (p : PodFact)
    → ((v : PodFact) → test v ≡ true → rank v ≤ r)
    → r ≤ 2
    → All (λ v. r ≤ rank v) detail
    → find_pod test detail ≡ some p
    → IsBest detail (some p)
found-IsBest test r detail p ranked small better e =
    let (h, i, a) = find_pod-some test detail p e in
    let le = ranked p h in ((i, a), omega arith, All-imp (λ v b. omega arith) detail better)

-- The pod that is picked for admintools is one of the pods. Whatever the order of the facts, it is
-- up and writable if any pod is, otherwise up if any pod is, otherwise installed and running; no
-- pod is picked only if there is none of these.
pub find_pod_to_run_admintools_any-IsBest :
    (detail : List PodFact) → IsBest detail (find_pod_to_run_admintools_any detail)
unfolding find_pod_to_run_admintools_any
find_pod_to_run_admintools_any-IsBest detail =
    let t1 : PodFact → Bool = λ v. v.up_node && not v.read_only in
    let t2 : PodFact → Bool = λ v. v.up_node in
    let t3 : PodFact → Bool = λ v. v.is_installed && v.is_pod_running in
    elim (Option-cases (find_pod t1 detail)) [
      | inr (p, e) ↦ rw e (
          found-IsBest t1 0 detail p (λ v h. ground arith) (omega arith)
            (All-of (λ v. omega arith) detail) e)
      | inl e ↦
          let n1 = find_pod-none t1 detail e in
          elim (Option-cases (find_pod t2 detail)) [
            | inr (p, e2) ↦
                rw (e, e2)
                  (found-IsBest t2 1 detail p (λ v h. ground arith) (omega arith)
                    (All-imp (λ v b. ground arith) detail n1) e2)
            | inl e2 ↦
                let n2 = find_pod-none t2 detail e2 in
                elim (Option-cases (find_pod t3 detail)) [
                  | inr (p, e3) ↦
                      rw (e, e2, e3)
                        (found-IsBest t3 2 detail p (λ v h. ground arith) (omega arith)
                          (All-imp (λ v b. ground arith) detail n2) e3)
                  | inl e3 ↦
                      rw (e, e2, e3)
                        (All-imp (λ v b. ground arith) detail
                          (All-both _ _ detail n2 (find_pod-none t3 detail e3)))
                ]
          ]
    ]

count_pods_from-add :
    (f : PodFact → ℕ) (a : ℕ) (detail : List PodFact)
    → count_pods_from a f detail ≡ a + count_pods_from 0 f detail
unfolding count_pods_from
count_pods_from-add f a [] = omega arith
count_pods_from-add f a (v ∷ vs) =
    omega (arith, count_pods_from-add f (a + f v) vs, count_pods_from-add f (0 + f v) vs)

-- A count is 0 exactly if no pod passes its test.
pub count_pods-zero :
    (test : PodFact → Bool) (detail : List PodFact)
    → (count_pods (λ v. if test v then 1 else 0) detail ≡ 0) ↔ (any test detail ≡ false)
unfolding count_pods count_pods_from
count_pods-zero test [] = (λ e. refl, λ e. refl)
count_pods-zero test (v ∷ vs) = ground (
  arith,
  count_pods-zero test vs,
  count_pods_from-add (λ u. if test u then 1 else 0) 1 vs,
  count_pods_from-add (λ u. if test u then 1 else 0) 0 vs,
)
