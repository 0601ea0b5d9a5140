-- ===== src/Vas/Add/Names.antt =====
-- The name of a new subcluster: genNextSubclusterName ends, and finds a name that is free.
use text.Mathlib.TextLemmas.{append_cancel_left}
use text.Mathlib.Text.{◌==◌}
use vertica_kubernetes.Prelude.{
  ℕ, zero, suc, ◌+◌, ◌<◌, ◌≡◌, ◌≢◌, refl, sym, ◌∙◌, inl, inr, String, none, some, arith, length,
  Option-cases, if◌then◌else◌,
}
use vertica_kubernetes.Prelude.Maps.{lookup, remove, lookup-remove_ne, length-remove-lt}
use vertica_kubernetes.Prelude.Text.{itoa-injective}
use vertica_kubernetes.Api.Types.{VerticaAutoscaler}
use vertica_kubernetes.Vas.Add.{ScMap, candidate, next_name_from, gen_next_subcluster_name}

candidate-injective :
    (base_name : String) (i j : ℕ) → candidate base_name i ≡ candidate base_name j → i ≡ j
candidate-injective base_name i j e =
    itoa-injective i j (append_cancel_left "-" _ _ (append_cancel_left base_name _ _ e))

-- A name that only an earlier round tries is not missed.
next_name_from-remove :
    (base_name : String) (sc_map : ScMap) (k fuel i : ℕ)
    → k < i
    → next_name_from base_name (remove (candidate base_name k) sc_map) fuel i
      ≡ next_name_from base_name sc_map fuel i
unfolding next_name_from
next_name_from-remove base_name sc_map k zero i h = refl
next_name_from-remove base_name sc_map k (suc fuel) i h =
    let other : candidate base_name k ≢ candidate base_name i =
      λ e. absurd (omega (arith, candidate-injective base_name k i e)) in
    ground (
      arith,
      lookup-remove_ne (candidate base_name k) (candidate base_name i) sc_map other,
      next_name_from-remove base_name sc_map k fuel (i + 1),
    )

-- With more rounds than the map has names one of the candidates is free.
next_name_from_total :
    (base_name : String) (fuel i : ℕ) (sc_map : ScMap)
    → length sc_map < fuel
    → (name : String) × (next_name_from base_name sc_map fuel i ≡ some name)
unfolding next_name_from
next_name_from_total base_name zero i sc_map h = absurd (omega arith)
next_name_from_total base_name (suc fuel) i sc_map h =
    elim (Option-cases (lookup (candidate base_name i) sc_map)) [
      | inl free ↦ (candidate base_name i, rw (free, next_name_from))
      | inr (sc, taken) ↦
          let name = candidate base_name i in
          let fewer = length-remove-lt name sc_map (rw taken) in
          let (found, e) =
            next_name_from_total base_name fuel (i + 1) (remove name sc_map) (omega arith) in
          (
            found,
            rw (taken, next_name_from)
                (sym (next_name_from-remove base_name sc_map i fuel (i + 1) (omega arith)) ∙ e),
          )
    ]

next_name_from-free :
    (base_name : String) (fuel i : ℕ) (sc_map : ScMap) (name : String)
    → next_name_from base_name sc_map fuel i ≡ some name
    → lookup name sc_map ≡ none
unfolding next_name_from
next_name_from-free base_name zero i sc_map name e = cc
next_name_from-free base_name (suc fuel) i sc_map name e =
    ground (arith, next_name_from-free base_name fuel (i + 1) sc_map name)

-- Whatever the subclusters are called, the search for a name ends within one round more than the
-- map has names, and the name that it returns is not in the map.
pub gen_next_subcluster_name_total :
    (vas : VerticaAutoscaler) (sc_map : ScMap)
    → (name : String) × (gen_next_subcluster_name vas sc_map ≡ some name)
      × (lookup name sc_map ≡ none)
unfolding gen_next_subcluster_name
gen_next_subcluster_name_total vas sc_map =
    let template_name = vas.spec.template.name in
    let base_name : String = if template_name == "" then vas.meta.name else template_name in
    let (name, e) = next_name_from_total base_name (suc (length sc_map)) 0 sc_map (omega arith) in
    (name, e, next_name_from-free base_name (suc (length sc_map)) 0 sc_map name e)
