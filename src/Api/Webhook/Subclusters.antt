-- ===== src/Api/Webhook/Subclusters.antt =====
-- The checks of validateVerticaDBSpec that look at each subcluster, or at pairs of them.
pub mod Label
pub mod Laws
pub mod Services
use text.Mathlib.Text.{◌==◌}
use vertica_kubernetes.Prelude.{
  ℕ, zero, suc, String, List, [], ◌∷◌, Option, none, some, Bool, true, false, not, ◌&&◌, ◌||◌, any,
  leb, ◌==◌ as nat_eq, if◌then◌else◌,
}
use mathlib.Core.Bool.{decide}
use vertica_kubernetes.Prelude.Int.{pos, ltb_ℤ, eqb_ℤ}
use vertica_kubernetes.Prelude.Text.{codes, String-discrete}
use vertica_kubernetes.Api.Types.{Subcluster, VerticaDb}
use vertica_kubernetes.Api.Constants.{
  service_type_load_balancer, service_type_node_port, service_type_external_name,
  service_type_cluster_ip, port_lower_bound, port_upper_bound,
}
use vertica_kubernetes.Api.Methods.{get_service_name}
use vertica_kubernetes.Api.Webhook.Errors.{child, index, ErrorList, invalid, report, each, pairs}

-- `[a-z0-9]` and `[a-z0-9\-]`
abbrev pub is_alnum : ℕ → Bool
is_alnum c = leb b'a' c && leb c b'z' || leb b'0' c && leb c b'9'

abbrev pub is_label_char : ℕ → Bool
is_label_char c = is_alnum c || nat_eq c b'-'

-- `[a-z0-9\-]{0,n}[a-z0-9]$`: only the last character ends the match.
unfoldable pub matches_rest : ℕ → List ℕ → Bool
matches_rest n [] = false
matches_rest n (c ∷ []) = is_alnum c
matches_rest zero (c ∷ d ∷ cs) = false
matches_rest (suc n) (c ∷ d ∷ cs) = is_label_char c && matches_rest n (d ∷ cs)

-- `^[a-z0-9](?:[a-z0-9\-]{0,61}[a-z0-9])?$`
unfoldable pub matches_name : List ℕ → Bool
unfolding matches_rest
matches_name [] = false
matches_name (c ∷ []) = is_alnum c
matches_name (c ∷ d ∷ cs) = is_alnum c && matches_rest 61 (d ∷ cs)

unfoldable pub is_valid_subcluster_name : String → Bool
unfolding matches_name
is_valid_subcluster_name sc_name = matches_name (codes sc_name)

unfoldable pub has_valid_domain_name : VerticaDb → ErrorList → ErrorList
has_valid_domain_name v =
    each
      (λ i sc.
        report (not (is_valid_subcluster_name sc.name))
          (invalid (child "subcluster" ∷ index i ∷ child "name" ∷ []) "is not a valid domain name"))
      0 v.spec.subclusters

unfoldable pub has_valid_node_port : VerticaDb → ErrorList → ErrorList
has_valid_node_port v =
    each
      (λ i sc.
        report
          (sc.service_type == service_type_node_port
            && (not (eqb_ℤ sc.node_port (pos 0))
                && (ltb_ℤ sc.node_port (pos port_lower_bound)
                    || ltb_ℤ (pos port_upper_bound) sc.node_port)))
          (invalid (child "subclusters" ∷ index i ∷ child "nodePort" ∷ [])
            "nodePort must be 0 or in the range of 30000-32767"))
      0 v.spec.subclusters

unfoldable pub is_node_port_properly_specified : VerticaDb → ErrorList → ErrorList
is_node_port_properly_specified v =
    each
      (λ i sc.
        report
          (not (sc.service_type == service_type_load_balancer)
            && not (sc.service_type == service_type_node_port)
            && not (eqb_ℤ sc.node_port (pos 0)))
          (invalid (child "subclusters" ∷ index i ∷ child "nodePort" ∷ [])
            "nodePort can only be specified for service types LoadBalancer and NodePort"))
      0 v.spec.subclusters

unfoldable pub is_service_type_valid : VerticaDb → ErrorList → ErrorList
is_service_type_valid v =
    each
      (λ i sc.
        report
          (not (
            sc.service_type == service_type_load_balancer
            || sc.service_type == service_type_node_port
            || sc.service_type == service_type_external_name
            || sc.service_type == service_type_cluster_ip))
          (invalid (child "subclusters" ∷ index i ∷ child "serviceType" ∷ [])
            "not a valid service type"))
      0 v.spec.subclusters

-- The detail names the index `i` in the source.
unfoldable pub has_duplicate_sc_name : VerticaDb → ErrorList → ErrorList
has_duplicate_sc_name v =
    pairs
      (λ i sc1 j sc2. report (sc1.name == sc2.name) (
        invalid (child "subclusters" ∷ index j ∷ child "name" ∷ [])
          "duplicates the name of subcluster[%d]"))
      0 v.spec.subclusters

unfoldable pub transient_subcluster_must_match_template : VerticaDb → ErrorList → ErrorList
transient_subcluster_must_match_template v =
    each
      (λ i sc.
        report
          (sc.is_transient && not (sc.name == v.spec.temporary_subcluster_routing.template.name))
          (invalid (child "subclusters" ∷ index i ∷ child "Name" ∷ index i ∷ [])
            "Transient subcluster name doesn't match template"))
      0 v.spec.subclusters

external_ips-discrete : Discrete (Option (List String))
external_ips-discrete = hlevel String-discrete

-- reflect.DeepEqual on two ExternalIPs.
unfoldable pub same_external_ips : Option (List String) → Option (List String) → Bool
unfolding external_ips-discrete decide
same_external_ips a b = decide (external_ips-discrete a b)

-- The five comparisons of matchingServiceNamesAreConsistent, of subclusters `i` and `j`.
unfoldable pub match_services : ℕ → Subcluster → ℕ → Subcluster → ErrorList → ErrorList
match_services i sc j osc all_errs =
    let path = λ (name : String). child "subclusters" ∷ index j ∷ child name ∷ index i ∷ [] in
    if get_service_name sc == get_service_name osc
    then report (not (sc.service_type == osc.service_type))
        (invalid (path "serviceType")
          "serviceType doesn't match other subcluster(s) sharing the same serviceName")
        (report (not (eqb_ℤ sc.node_port osc.node_port))
          (invalid (path "nodePort")
            "nodePort doesn't match other subcluster(s) sharing the same serviceName")
          (report (not (sc.service_annotations == osc.service_annotations))
            (invalid (path "serviceAnnotations")
              "serviceAnnotations don't match other subcluster(s) sharing the same serviceName")
            (report (not (sc.load_balancer_ip == osc.load_balancer_ip))
              (invalid (path "loadBalancerIP")
                "loadBalancerIP doesn't match other subcluster(s) sharing the same serviceName")
              (report (not (same_external_ips sc.external_ips osc.external_ips))
                (invalid (path "externalIPs")
                  "externalIPs don't match other subcluster(s) sharing the same serviceName")
                all_errs))))
    else all_errs

-- The outer loop, with the service names that it has processed.
unfoldable pub match_services_from : List String → ℕ → List Subcluster → ErrorList → ErrorList
unfolding match_services
match_services_from processed i [] all_errs = all_errs
match_services_from processed i (sc ∷ scs) all_errs =
    let service_name = get_service_name sc in
    let seen = any (λ n. n == service_name) processed in
    match_services_from (if seen then processed else service_name ∷ processed) (suc i) scs
      (if seen then all_errs else each (match_services i sc) (suc i) scs all_errs)

unfoldable pub matching_service_names_are_consistent : VerticaDb → ErrorList → ErrorList
unfolding match_services_from
matching_service_names_are_consistent v = match_services_from [] 0 v.spec.subclusters
