-- ===== src/Api/Webhook/Routing.antt =====
-- The check on temporarySubclusterRouting: hasValidTemporarySubclusterRouting.
pub mod Laws
use text.Mathlib.Text.{◌==◌}
use vertica_kubernetes.Prelude.{
  String, List, [], ◌∷◌, Option, none, some, Bool, true, false, not, ◌&&◌, if◌then◌else◌, is_some,
}
use vertica_kubernetes.Prelude.Int.{pos, eqb_ℤ}
use vertica_kubernetes.Prelude.Maps.{lookup}
use vertica_kubernetes.Api.Types.{Subcluster, VerticaDb}
use vertica_kubernetes.Api.Methods.{gen_subcluster_map, requires_transient_subcluster}
use vertica_kubernetes.Api.Webhook.Errors.{child, index, ErrorList, invalid, report, each}
use vertica_kubernetes.Api.Webhook.Cluster.{is_empty}

-- The elements of a slice, which may be nil.
abbrev pub elements : Option (List String) → List String
elements none = []
elements (some xs) = xs

-- `sc, ok := scMap[name]; ok && !sc.IsTransient`
abbrev pub is_lasting : Option Subcluster → Bool
is_lasting none = false
is_lasting (some sc) = not sc.is_transient

unfoldable pub check_template : VerticaDb → ErrorList → ErrorList
check_template v all_errs =
    let template = v.spec.temporary_subcluster_routing.template in
    let path =
      λ (name : String). child "temporarySubclusterRouting" ∷ child "template" ∷ child name ∷ [] in
    report (is_lasting (lookup template.name (gen_subcluster_map v.spec.subclusters)))
      (invalid (path "name") "cannot choose a name of an existing subcluster")
      (report (eqb_ℤ template.size (pos 0))
        (invalid (path "size") "size of subcluster template must be greater than zero")
        (report template.is_primary
          (invalid (path "isPrimary") "subcluster template must be a secondary subcluster")
          all_errs))

unfoldable pub has_valid_temporary_subcluster_routing : VerticaDb → ErrorList → ErrorList
unfolding check_template
has_valid_temporary_subcluster_routing v all_errs =
    let routing = v.spec.temporary_subcluster_routing in
    let sc_map = gen_subcluster_map v.spec.subclusters in
    report (not (is_empty (elements routing.names)) && requires_transient_subcluster v)
      (invalid (child "temporarySubclusterRouting" ∷ [])
        "cannot use a template and a list of subcluster names at the same time")
      (each
        (λ i name. report (not (is_some (lookup name sc_map))) (
          invalid (child "temporarySubclusterRouting" ∷ child "names" ∷ index i ∷ [])
            "name must be an existing subcluster"))
        0 (elements routing.names)
        (if not (routing.template.name == "") then check_template v all_errs else all_errs))
