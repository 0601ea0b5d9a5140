-- ===== src/Api/Webhook/Routing/Laws.antt =====
-- What the check on temporarySubclusterRouting lets pass.
use text.Mathlib.Text.{◌==◌}
use text.Mathlib.TextEquality.{eq_iff}
use vertica_kubernetes.Prelude.{
  ◌≡◌, ◌≢◌, ◌↔◌, ◌⊎◌, String, List, [], ◌∷◌, true, false, not, arith, All, is_some,
}
use vertica_kubernetes.Prelude.Int.{pos, eqb_ℤ, eqb_ℤ_iff, ◌≤ℤ◌}
use vertica_kubernetes.Prelude.Maps.{lookup}
use vertica_kubernetes.Api.Types.{VerticaDb}
use vertica_kubernetes.Api.Methods.{gen_subcluster_map, requires_transient_subcluster}
use vertica_kubernetes.Api.Methods.Names.{has_name, gen_subcluster_map-has_name}
use vertica_kubernetes.Api.Webhook.Errors.{
  Checks, report-Checks, each-Checks, then-Checks, iff-Checks, when-Checks,
}
use vertica_kubernetes.Api.Webhook.Cluster.{is_empty}
use vertica_kubernetes.Api.Webhook.Routing.{
  elements, is_lasting, check_template, has_valid_temporary_subcluster_routing,
}

-- A template that has a name is a secondary, of a size other than 0, and takes the name of no
-- subcluster that lasts.
abbrev pub HasTemplate : VerticaDb → Type 0
HasTemplate v =
    let template = v.spec.temporary_subcluster_routing.template in
    (template.name ≡ "")
    ⊎ (((template.is_primary ≡ false) × (template.size ≢ pos 0))
        × (is_lasting (lookup template.name (gen_subcluster_map v.spec.subclusters)) ≡ false))

-- The routing names subclusters that there are, or uses a template, not both.
abbrev pub HasRouting : VerticaDb → Type 0
HasRouting v =
    let routing = v.spec.temporary_subcluster_routing in
    (HasTemplate v × All (λ name. has_name name v.spec.subclusters ≡ true) (elements routing.names))
    × ((elements routing.names ≡ [])
        ⊎ ((routing.template.name ≡ "") ⊎ (routing.template.size ≤ℤ pos 0)))

check_template-Checks :
    (v : VerticaDb)
    → Checks (check_template v) (
        (((v.spec.temporary_subcluster_routing.template.is_primary ≡ false)
          × (v.spec.temporary_subcluster_routing.template.size ≢ pos 0)))
        × (is_lasting (
              lookup v.spec.temporary_subcluster_routing.template.name
                (gen_subcluster_map v.spec.subclusters))
            ≡ false))
unfolding check_template
check_template-Checks v =
    let template = v.spec.temporary_subcluster_routing.template in
    then-Checks _ _ _ _
      (then-Checks _ _ _ _
        (report-Checks template.is_primary _ (template.is_primary ≡ false) (ground arith))
        (report-Checks (eqb_ℤ template.size (pos 0)) _ (template.size ≢ pos 0)
          (ground (arith, eqb_ℤ_iff template.size (pos 0)))))
      (report-Checks (is_lasting (lookup template.name (gen_subcluster_map v.spec.subclusters))) _
        (is_lasting (lookup template.name (gen_subcluster_map v.spec.subclusters)) ≡ false)
        (ground arith))

is_empty_iff : (xs : List String) → is_empty xs ≡ true ↔ (xs ≡ [])
is_empty_iff [] = ground arith
is_empty_iff (x ∷ xs) = ground arith

pub has_valid_temporary_subcluster_routing-Checks :
    (v : VerticaDb) → Checks (has_valid_temporary_subcluster_routing v) (HasRouting v)
unfolding has_valid_temporary_subcluster_routing requires_transient_subcluster
has_valid_temporary_subcluster_routing-Checks v =
    let routing = v.spec.temporary_subcluster_routing in
    then-Checks _ _ _ _
      (then-Checks _ _ _ _
        (iff-Checks _ _ (HasTemplate v)
          (when-Checks (not (routing.template.name == "")) _ _ (check_template-Checks v))
          (ground (arith, eq_iff routing.template.name "")))
        (each-Checks _ (λ name. has_name name v.spec.subclusters ≡ true)
          (λ i name.
            report-Checks (not (is_some (lookup name (gen_subcluster_map v.spec.subclusters)))) _ _
              (ground (arith, gen_subcluster_map-has_name v.spec.subclusters name)))
          0 (elements routing.names)))
      (report-Checks _ _
        ((elements routing.names ≡ [])
          ⊎ ((routing.template.name ≡ "") ⊎ (routing.template.size ≤ℤ pos 0)))
        (ground (arith, is_empty_iff (elements routing.names), eq_iff routing.template.name "")))
