-- ===== src/Vas/Add/Copies.antt =====
-- What considerAddingSubclusters copies.
use text.Mathlib.TextEquality.{eq_iff}
use vertica_kubernetes.Prelude.{
  ℕ, ◌≡◌, ◌≢◌, refl, ◌∙◌, ap, String, List, [], ◌∷◌, ◌++◌, none, some, true, false, arith, keep,
  keep-append, last?, last?-snoc,
}
use vertica_kubernetes.Prelude.Int.{pos}
use vertica_kubernetes.Prelude.Maps.{lookup}
use vertica_kubernetes.Api.Types.{Subcluster, VerticaAutoscaler}
use vertica_kubernetes.Api.Methods.{
  get_service_name, serves, can_use_template, find_subcluster_for_service_name,
}
use vertica_kubernetes.Vas.Add.{ScMap, next, calc_next_subcluster}
use vertica_kubernetes.Vas.Add.Names.{gen_next_subcluster_name_total}

-- There is something to copy, with `s` pods: the template, whose service the webhook has checked,
-- or the last subcluster of the service.
pub data Base (vas : VerticaAutoscaler) (scs : List Subcluster) (s : ℕ) : Type 0 where
  of_template :
      can_use_template vas ≡ true
      → vas.spec.template.size ≡ pos s
      → vas.spec.template.service_name ≡ vas.spec.service_name
      → Base vas scs s
  of_last :
      can_use_template vas ≡ false
      → (sc : Subcluster) → last? (keep (serves vas.spec.service_name) scs) ≡ some sc
      → sc.size ≡ pos s
      → Base vas scs s

-- The subcluster to copy.
abbrev pub base_subcluster :
    {vas : VerticaAutoscaler} {scs : List Subcluster} {s : ℕ} → Base vas scs s → Subcluster
base_subcluster {vas = vas} (of_template can size service) = vas.spec.template
base_subcluster (of_last cannot sc is_last size) = sc

-- A new subcluster: it serves the autoscaler's service, has `s` pods, and is the base in all but its
-- name and the name of its service.
pub record IsCopy (vas : VerticaAutoscaler) (s : ℕ) (base sc : Subcluster) : Type 0 where
  pub serving : serves vas.spec.service_name sc ≡ true
  pub sized : sc.size ≡ pos s
  pub same : sc ≡ record base { name = sc.name; service_name = vas.spec.service_name }

-- A copy of a copy is a copy.
IsCopy-trans :
    (vas : VerticaAutoscaler) (s : ℕ) (base sc sc' : Subcluster)
    → IsCopy vas s base sc
    → IsCopy vas s sc sc'
    → IsCopy vas s base sc'
IsCopy-trans vas s base sc sc' a b = record {
  serving = b.serving;
  sized = b.sized;
  same =
      b.same
      ∙ ap (λ (t : Subcluster). record t { name = sc'.name; service_name = vas.spec.service_name })
          a.same;
}

serves_own_service :
    (sc : Subcluster) (svc_name : String)
    → svc_name ≢ ""
    → sc.service_name ≡ svc_name
    → serves svc_name sc ≡ true
unfolding get_service_name serves
serves_own_service sc svc_name some_name e =
    ground (arith, eq_iff sc.service_name "", eq_iff sc.service_name svc_name)

module _ (vas : VerticaAutoscaler) (named : vas.spec.service_name ≢ "") where
  pub calc_next_subcluster_lem :
      (scs : List Subcluster) (sc_map : ScMap) (s : ℕ) (base : Base vas scs s)
      → (sc : Subcluster) × (calc_next_subcluster vas scs sc_map ≡ next sc)
        × IsCopy vas s (base_subcluster base) sc
        × (lookup sc.name sc_map ≡ none)
  unfolding calc_next_subcluster find_subcluster_for_service_name
  calc_next_subcluster_lem scs sc_map s (of_template can size service) =
      let (name, e, free) = gen_next_subcluster_name_total vas sc_map in
      let sc : Subcluster = record (vas.spec.template) { name = name } in
      let copy : IsCopy vas s vas.spec.template sc = record {
        serving = serves_own_service sc vas.spec.service_name named service;
        sized = size;
        same = ap (λ n. record (vas.spec.template) { name = name; service_name = n }) service;
      } in
      (sc, rw (can, e), copy, free)
  calc_next_subcluster_lem scs sc_map s (of_last cannot base is_last size) =
      let (name, e, free) = gen_next_subcluster_name_total vas sc_map in
      let sc : Subcluster = record base { name = name; service_name = vas.spec.service_name } in
      let copy : IsCopy vas s base sc = record {
        serving = serves_own_service sc vas.spec.service_name named refl;
        sized = size;
        same = refl;
      } in
      (sc, rw (cannot, is_last, e), copy, free)

  -- After a round the next one copies a subcluster of the same size.
  pub Base-snoc :
      (scs : List Subcluster) (sc : Subcluster) (s : ℕ) (base : Base vas scs s)
      → IsCopy vas s (base_subcluster base) sc
      → (base' : Base vas (scs ++ sc ∷ []) s) × ((sc' : Subcluster)
          → IsCopy vas s (base_subcluster base') sc'
          → IsCopy vas s (base_subcluster base) sc')
  Base-snoc scs sc s (of_template can size service) c = (of_template can size service, λ sc' c'. c')
  Base-snoc scs sc s (of_last cannot base is_last size) c = (
    of_last cannot sc
        (rw (keep-append (serves vas.spec.service_name) scs (sc ∷ []), c.serving)
          (last?-snoc (keep (serves vas.spec.service_name) scs) sc))
        c.sized,
    λ sc' c'. IsCopy-trans vas s base sc sc' c c',
  )
