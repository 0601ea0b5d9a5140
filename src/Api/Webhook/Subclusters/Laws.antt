-- ===== src/Api/Webhook/Subclusters/Laws.antt =====
-- What the checks on each subcluster, and on pairs of them, let pass.
use text.Mathlib.Text.{◌==◌}
use text.Mathlib.TextEquality.{eq_iff}
use vertica_kubernetes.Prelude.{◌≡◌, ◌≢◌, ◌⊎◌, true, false, not, arith, All}
use vertica_kubernetes.Prelude.Int.{pos, eqb_ℤ_iff, ◌≤ℤ◌}
use vertica_kubernetes.Api.Types.{Subcluster, VerticaDb}
use vertica_kubernetes.Api.Constants.{
  service_type_load_balancer, service_type_node_port, service_type_external_name,
  service_type_cluster_ip, port_lower_bound, port_upper_bound,
}
use vertica_kubernetes.Api.Webhook.Errors.{
  Checks, AllPairs, report-Checks, each-Checks, pairs-Checks,
}
use vertica_kubernetes.Api.Webhook.Subclusters.{
  is_valid_subcluster_name, has_valid_domain_name, has_valid_node_port,
  is_node_port_properly_specified, is_service_type_valid, has_duplicate_sc_name,
  transient_subcluster_must_match_template,
}

pub has_duplicate_sc_name-Checks :
    (v : VerticaDb)
    → Checks (has_duplicate_sc_name v) (AllPairs (λ a b. a.name ≢ b.name) v.spec.subclusters)
unfolding has_duplicate_sc_name
has_duplicate_sc_name-Checks v =
    pairs-Checks _ _
      (λ i a j b. report-Checks (a.name == b.name) _ _ (ground (arith, eq_iff a.name b.name))) 0
      v.spec.subclusters

abbrev pub HasValidName : Subcluster → Type 0
HasValidName sc = is_valid_subcluster_name sc.name ≡ true

pub has_valid_domain_name-Checks :
    (v : VerticaDb) → Checks (has_valid_domain_name v) (All HasValidName v.spec.subclusters)
unfolding has_valid_domain_name
has_valid_domain_name-Checks v =
    each-Checks _ _
      (λ i sc. report-Checks (not (is_valid_subcluster_name sc.name)) _ _ (ground arith)) 0
      v.spec.subclusters

-- A node port is unset, or in the range that a service of type NodePort has.
abbrev pub HasValidNodePort : Subcluster → Type 0
HasValidNodePort sc =
    (sc.service_type ≢ service_type_node_port)
    ⊎ ((sc.node_port ≡ pos 0)
        ⊎ ((pos port_lower_bound ≤ℤ sc.node_port) × (sc.node_port ≤ℤ pos port_upper_bound)))

pub has_valid_node_port-Checks :
    (v : VerticaDb) → Checks (has_valid_node_port v) (All HasValidNodePort v.spec.subclusters)
unfolding has_valid_node_port
has_valid_node_port-Checks v =
    each-Checks _ _
      (λ i sc. report-Checks _ _ _ (
        ground
          (arith, eqb_ℤ_iff sc.node_port (pos 0), eq_iff sc.service_type service_type_node_port)))
      0 v.spec.subclusters

abbrev pub HasPortWhereAllowed : Subcluster → Type 0
HasPortWhereAllowed sc =
    (sc.service_type ≡ service_type_load_balancer)
    ⊎ ((sc.service_type ≡ service_type_node_port) ⊎ (sc.node_port ≡ pos 0))

pub is_node_port_properly_specified-Checks :
    (v : VerticaDb)
    → Checks (is_node_port_properly_specified v) (All HasPortWhereAllowed v.spec.subclusters)
unfolding is_node_port_properly_specified
is_node_port_properly_specified-Checks v =
    each-Checks _ _
      (λ i sc. report-Checks _ _ _ (
        ground (
          arith,
          eqb_ℤ_iff sc.node_port (pos 0),
          eq_iff sc.service_type service_type_node_port,
          eq_iff sc.service_type service_type_load_balancer,
        )))
      0 v.spec.subclusters

abbrev pub HasKnownServiceType : Subcluster → Type 0
HasKnownServiceType sc =
    (sc.service_type ≡ service_type_load_balancer)
    ⊎ ((sc.service_type ≡ service_type_node_port)
        ⊎ ((sc.service_type ≡ service_type_external_name)
            ⊎ (sc.service_type ≡ service_type_cluster_ip)))

pub is_service_type_valid-Checks :
    (v : VerticaDb) → Checks (is_service_type_valid v) (All HasKnownServiceType v.spec.subclusters)
unfolding is_service_type_valid
is_service_type_valid-Checks v =
    each-Checks _ _
      (λ i sc. report-Checks _ _ _ (
        ground (
          arith,
          eq_iff sc.service_type service_type_load_balancer,
          eq_iff sc.service_type service_type_node_port,
          eq_iff sc.service_type service_type_external_name,
          eq_iff sc.service_type service_type_cluster_ip,
        )))
      0 v.spec.subclusters

abbrev pub MatchesTemplate : VerticaDb → Subcluster → Type 0
MatchesTemplate v sc =
    (sc.is_transient ≡ false) ⊎ (sc.name ≡ v.spec.temporary_subcluster_routing.template.name)

pub transient_subcluster_must_match_template-Checks :
    (v : VerticaDb)
    → Checks
        (transient_subcluster_must_match_template v)
        (All (MatchesTemplate v) v.spec.subclusters)
unfolding transient_subcluster_must_match_template
transient_subcluster_must_match_template-Checks v =
    each-Checks _ _
      (λ i sc.
        report-Checks _ _ _
          (ground (arith, eq_iff sc.name v.spec.temporary_subcluster_routing.template.name)))
      0 v.spec.subclusters
