-- ===== src/Vas/Add.antt =====
-- pkg/controllers/vas/subclusterscale_reconcile.go: considerAddingSubclusters and its helpers.
pub mod Names
pub mod Copies
pub mod Laws
use Prim.Native.String
use text.Mathlib.Text.{◌==◌}
use vertica_kubernetes.Prelude.{
  ℕ, zero, suc, ◌+◌, String, List, [], ◌∷◌, ◌++◌, Option, none, some, Bool, true, false, not,
  if◌then◌else◌, length, last?, ◌==◌ as nat_eq,
}
use vertica_kubernetes.Prelude.Int.{ℤ, leb_ℤ}
use vertica_kubernetes.Prelude.Int32.{sub32}
use vertica_kubernetes.Prelude.Maps.{lookup, insert}
use vertica_kubernetes.Prelude.Text.{itoa}
use vertica_kubernetes.Api.Types.{Subcluster, VerticaAutoscaler}
use vertica_kubernetes.Api.Methods.{
  can_use_template, find_subcluster_for_service_name, gen_subcluster_map,
}

abbrev pub ScMap : Type 0
ScMap = List (String × Subcluster)

-- `fmt.Sprintf("%s-%d", baseName, i)`
abbrev pub candidate : String → ℕ → String
candidate base_name i = String.◌++◌ base_name (String.◌++◌ "-" (itoa i))

-- The endless `for` loop, with fuel. The map is only asked which names it has.
next_name_from : String → ScMap → ℕ → ℕ → Option String
next_name_from base_name sc_map zero i = none
next_name_from base_name sc_map (suc fuel) i = elim (lookup (candidate base_name i) sc_map) [
  | none ↦ some (candidate base_name i)
  | some _ ↦ next_name_from base_name sc_map fuel (i + 1)
]

-- As many rounds as the map has names, and one more.
unfoldable pub gen_next_subcluster_name : VerticaAutoscaler → ScMap → Option String
unfolding next_name_from
gen_next_subcluster_name vas sc_map =
    let template_name = vas.spec.template.name in
    next_name_from (if template_name == "" then vas.meta.name else template_name) sc_map
      (suc (length sc_map)) 0

-- `no_base` is the result `nil, false`, with its event; `no_name` is that the fuel ran out.
pub data NextSubcluster : Type 0 where
  next : Subcluster → NextSubcluster
  no_base no_name : NextSubcluster

abbrev named : Option String → (String → Subcluster) → NextSubcluster
named none f = no_name
named (some name) f = next (f name)

unfoldable pub calc_next_subcluster : VerticaAutoscaler → List Subcluster → ScMap → NextSubcluster
calc_next_subcluster vas subclusters sc_map =
    let name = gen_next_subcluster_name vas sc_map in
    if can_use_template vas
    then named name (λ n. record (vas.spec.template) { name = n })
    else (elim (last? (find_subcluster_for_service_name vas.spec.service_name subclusters).0) [
      | none ↦ no_base
      | some sc ↦ named name (λ n. record sc { name = n; service_name = vas.spec.service_name })
    ])

-- How the call ends: with the subclusters and whether it changed them, by the dereference of a
-- nil subcluster, or not at all within the fuel.
pub data AddResult : Type 0 where
  added : List Subcluster → Bool → AddResult
  nil_dereference still_running : AddResult

-- The `for` loop, with fuel; `orig` is the number of subclusters that
-- the call began with.
unfoldable pub add_loop : VerticaAutoscaler → ℤ → ℕ → ℤ → ScMap → List Subcluster → ℕ → AddResult
add_loop vas new_sc_size zero new_pods_needed sc_map subclusters orig = still_running
add_loop vas new_sc_size (suc fuel) new_pods_needed sc_map subclusters orig =
    elim (leb_ℤ new_sc_size new_pods_needed) [
      | false ↦ added subclusters (not (nat_eq orig (length subclusters)))
      | true ↦ elim (calc_next_subcluster vas subclusters sc_map) [
        | next sc ↦
            add_loop vas new_sc_size fuel (sub32 new_pods_needed sc.size) (insert sc.name sc sc_map)
              (subclusters ++ sc ∷ []) orig
        | no_base ↦ nil_dereference
        | no_name ↦ still_running
      ]
    ]

-- calcNextSubclusterSize is the size of the next subcluster.
unfoldable pub consider_adding_subclusters : VerticaAutoscaler → ℕ → ℤ → List Subcluster → AddResult
unfolding add_loop
consider_adding_subclusters vas fuel new_pods_needed subclusters =
    let sc_map = gen_subcluster_map subclusters in
    elim (calc_next_subcluster vas subclusters sc_map) [
      | next sc ↦ add_loop vas sc.size fuel new_pods_needed sc_map subclusters (length subclusters)
      | no_base ↦ added subclusters false
      | no_name ↦ still_running
    ]
