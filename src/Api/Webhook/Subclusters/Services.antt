-- ===== src/Api/Webhook/Subclusters/Services.antt =====
-- Subclusters that share a service agree on its settings.
use text.Mathlib.Text.{◌==◌}
use text.Mathlib.TextEquality.{eq_iff}
use mathlib.Core.Bool.{decide}
use vertica_kubernetes.Prelude.{
  All-imp, ℕ, suc, ◌≡◌, ◌≢◌, refl, sym, ◌∙◌, ◌↔◌, ◌⊎◌, inl, inr, String, List, [], ◌∷◌, Option,
  Bool, true, false, not, arith, All, any, if◌then◌else◌, Bool-cases,
}
use vertica_kubernetes.Prelude.Int.{eqb_ℤ_iff}
use vertica_kubernetes.Api.Types.{Subcluster, VerticaDb}
use vertica_kubernetes.Api.Methods.{get_service_name}
use vertica_kubernetes.Api.Webhook.Errors.{
  FieldError, report, Checks, AllPairs, report-Checks, each-Checks, then-Checks, iff-Checks,
  when-Checks, skip-Checks, id-Checks,
}
use vertica_kubernetes.Api.Webhook.Subclusters.{
  same_external_ips, match_services, match_services_from, matching_service_names_are_consistent,
}

abbrev pub IsSameService : Subcluster → Subcluster → Type 0
IsSameService a b =
    ((((a.external_ips ≡ b.external_ips) × (a.load_balancer_ip ≡ b.load_balancer_ip))
        × (a.service_annotations ≡ b.service_annotations))
      × (a.node_port ≡ b.node_port))
    × (a.service_type ≡ b.service_type)

abbrev pub AgreeOnService : Subcluster → Subcluster → Type 0
AgreeOnService a b = (get_service_name a ≢ get_service_name b) ⊎ IsSameService a b

pub decide_iff : {P : Type 0} (d : Dec P) → decide d ≡ true ↔ P
unfolding decide
decide_iff (yes p) = (λ _. p, λ _. refl)
decide_iff (no n) = (λ e. absurd (ground arith), λ p. absurd (n p))

pub same_external_ips_iff : (a b : Option (List String)) → same_external_ips a b ≡ true ↔ (a ≡ b)
unfolding same_external_ips
same_external_ips_iff a b = decide_iff _

-- One comparison of match_services.
pub differ-Checks :
    (same : Bool) (P : Type 0)
    → same ≡ true ↔ P
    → (err : FieldError) → Checks (report (not same) err) P
differ-Checks same P h err = report-Checks (not same) err P (ground (arith, h))

match_services-Checks :
    (i : ℕ) (a : Subcluster) (j : ℕ) (b : Subcluster)
    → Checks (match_services i a j b) (AgreeOnService a b)
unfolding match_services
match_services-Checks i a j b =
    iff-Checks _ _ _
      (when-Checks (get_service_name a == get_service_name b) _ _ (
        then-Checks _ _ _ _
          (then-Checks _ _ _ _
            (then-Checks _ _ _ _
              (then-Checks _ _ _ _
                (differ-Checks _ _ (same_external_ips_iff a.external_ips b.external_ips) _)
                (differ-Checks _ _ (eq_iff a.load_balancer_ip b.load_balancer_ip) _))
              (differ-Checks _ _ (eq_iff a.service_annotations b.service_annotations) _))
            (differ-Checks _ _ (eqb_ℤ_iff a.node_port b.node_port) _))
          (differ-Checks _ _ (eq_iff a.service_type b.service_type) _)))
      (ground (arith, eq_iff (get_service_name a) (get_service_name b)))

-- What the loop compares: a subcluster with the later ones, unless its service is processed already.
Compared : List String → List Subcluster → Type 0
Compared processed [] = Unit
Compared processed (sc ∷ scs) =
    let seen = any (λ n. n == get_service_name sc) processed in
    ((seen ≡ true) ⊎ All (AgreeOnService sc) scs)
    × Compared (if seen then processed else get_service_name sc ∷ processed) scs

match_services_from-Checks :
    (processed : List String) (i : ℕ) (scs : List Subcluster)
    → Checks (match_services_from processed i scs) (Compared processed scs)
unfolding match_services_from Compared
match_services_from-Checks processed i [] = id-Checks
match_services_from-Checks processed i (sc ∷ scs) =
    then-Checks _ _ _ _
      (skip-Checks (any (λ n. n == get_service_name sc) processed) _ _
        (each-Checks _ _ (match_services-Checks i sc) (suc i) scs))
      (match_services_from-Checks
        (if any (λ n. n == get_service_name sc) processed
          then processed
          else get_service_name sc ∷ processed)
        (suc i) scs)

-- Each service that is processed has a subcluster with which the later ones agree.
Represented : List String → List Subcluster → Type 0
Represented processed scs =
    (n : String)
    → any (λ m. m == n) processed ≡ true
    → (sc : Subcluster) × (get_service_name sc ≡ n) × All (AgreeOnService sc) scs

-- Agreement goes from a subcluster over to one of the same service.
AgreeOnService-trans :
    (a b c : Subcluster)
    → get_service_name a ≡ get_service_name b
    → AgreeOnService a b
    → AgreeOnService a c
    → AgreeOnService b c
AgreeOnService-trans a b c e (inl n) hc = absurd (n e)
AgreeOnService-trans a b c e (inr hb) (inl n) = inl (λ f. n (e ∙ f))
AgreeOnService-trans a b c e (inr ((((p1, p2), p3), p4), p5)) (inr ((((q1, q2), q3), q4), q5)) =
    inr ((((sym p1 ∙ q1, sym p2 ∙ q2), sym p3 ∙ q3), sym p4 ∙ q4), sym p5 ∙ q5)

Represented-drop :
    (processed : List String) (sc : Subcluster) (scs : List Subcluster)
    → Represented processed (sc ∷ scs)
    → Represented processed scs
unfolding Represented
Represented-drop processed sc scs r n h = let (sc0, e, later) = r n h in (sc0, e, later.1)

Represented-add :
    (processed : List String) (sc : Subcluster) (scs : List Subcluster)
    → All (AgreeOnService sc) scs
    → Represented processed scs
    → Represented (get_service_name sc ∷ processed) scs
unfolding Represented
Represented-add processed sc scs a r n h = elim (Bool-cases (get_service_name sc == n)) [
  | inl same ↦ (sc, (eq_iff (get_service_name sc) n).0 same, a)
  | inr other ↦ r n (ground arith)
]

-- A subcluster agrees with the later ones, whether the loop compares them or not.
agree_with_later :
    (processed : List String) (sc : Subcluster) (scs : List Subcluster)
    → Represented processed (sc ∷ scs)
    → (any (λ n. n == get_service_name sc) processed ≡ true) ⊎ All (AgreeOnService sc) scs
    → All (AgreeOnService sc) scs
unfolding Represented
agree_with_later processed sc scs r (inl seen) =
    let (sc0, e, later) = r (get_service_name sc) seen in
    All-imp (λ c. AgreeOnService-trans sc0 sc c e later.0) scs later.1
agree_with_later processed sc scs r (inr a) = a

Represented-step :
    (processed : List String) (sc : Subcluster) (scs : List Subcluster) (seen : Bool)
    → All (AgreeOnService sc) scs
    → Represented processed (sc ∷ scs)
    → Represented (if seen then processed else get_service_name sc ∷ processed) scs
Represented-step processed sc scs true a r = Represented-drop processed sc scs r
Represented-step processed sc scs false a r =
    Represented-add processed sc scs a (Represented-drop processed sc scs r)

AllPairs-of-Compared :
    (scs : List Subcluster) (processed : List String)
    → Represented processed scs
    → Compared processed scs
    → AllPairs AgreeOnService scs
unfolding Compared
AllPairs-of-Compared [] processed r c = tt
AllPairs-of-Compared (sc ∷ scs) processed r (h, c) =
    let a = agree_with_later processed sc scs r h in
    (a, AllPairs-of-Compared scs _ (Represented-step processed sc scs _ a r) c)

Compared-of-AllPairs :
    (scs : List Subcluster) (processed : List String)
    → AllPairs AgreeOnService scs
    → Compared processed scs
unfolding Compared
Compared-of-AllPairs [] processed a = tt
Compared-of-AllPairs (sc ∷ scs) processed (a, later) = (inr a, Compared-of-AllPairs scs _ later)

nothing_processed : (scs : List Subcluster) → Represented [] scs
unfolding Represented
nothing_processed scs n h = absurd (ground arith)

-- Although the loop skips a subcluster whose service it has processed already, it reports nothing
-- exactly if any two subclusters of one service have the same service type, node port, annotations,
-- load balancer address and external addresses.
pub matching_service_names_are_consistent-Checks :
    (v : VerticaDb)
    → Checks (matching_service_names_are_consistent v) (AllPairs AgreeOnService v.spec.subclusters)
unfolding matching_service_names_are_consistent
matching_service_names_are_consistent-Checks v =
    let scs = v.spec.subclusters in
    iff-Checks _ _ _ (match_services_from-Checks [] 0 scs)
      (AllPairs-of-Compared scs [] (nothing_processed scs), Compared-of-AllPairs scs [])
