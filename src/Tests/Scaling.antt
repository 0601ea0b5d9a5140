-- ===== src/Tests/Scaling.antt =====
-- The theorems on the autoscaler and on the parser of versions, at concrete inputs.
use text.Mathlib.TextEquality.{eq_iff}
use mathlib.Core.Bool.{true≢false}
use vertica_kubernetes.Prelude.{
  sym, ℕ, ◌≡◌, ◌≢◌, refl, String, List, [], ◌∷◌, ◌++◌, none, some, false, not, arith, length,
  ◌==◌ as nat_eq,
}
use vertica_kubernetes.Prelude.Int.{pos}
use vertica_kubernetes.Prelude.Maps.{lookup}
use vertica_kubernetes.Api.Types.{Subcluster}
use vertica_kubernetes.Api.Methods.{serves, can_use_template, get_service_name}
use vertica_kubernetes.Version.{release, parse_version}
use vertica_kubernetes.Version.Parse.{print_version, parse_version-print_version}
use vertica_kubernetes.Vas.Remove.{consider_removing_subclusters}
use vertica_kubernetes.Vas.Remove.Laws.{IsRemoval, consider_removing_subclusters-IsRemoval}
use vertica_kubernetes.Vas.Add.{
  gen_next_subcluster_name, consider_adding_subclusters, added, still_running,
}
use vertica_kubernetes.Vas.Add.Names.{gen_next_subcluster_name_total}
use vertica_kubernetes.Vas.Add.Copies.{Base, of_last}
use vertica_kubernetes.Vas.Add.Laws.{
  IsAddition, consider_adding_subclusters-IsAddition, consider_adding_subclusters-still_running,
}
use vertica_kubernetes.Vas.Resize.{resize_subclusters}
use vertica_kubernetes.Vas.Resize.Laws.{Outcome, resize_subclusters-Outcome}
use vertica_kubernetes.Vas.Scale.Moves.{Moves}
use vertica_kubernetes.Tests.{subcluster, three, last_empty, autoscaler}

abbrev service : String
service = "as"

some_service : service ≢ ""
some_service e = true≢false (sym ((eq_iff service "").1 e))

abbrev last_of_three : (k : ℕ) → Base (autoscaler k) three 4
unfolding serves can_use_template get_service_name
last_of_three k = of_last refl (subcluster "as2" "as" 4 false) refl refl

resize_subclusters-Outcome_example : Outcome "as" 3 three (resize_subclusters "as" (pos 3) three)
unfolding serves can_use_template get_service_name
resize_subclusters-Outcome_example =
    resize_subclusters-Outcome "as" 3 three (refl, (refl, (refl, tt))) (omega arith) (omega arith)

consider_adding_subclusters-IsAddition_example :
    (new : List Subcluster) × (consider_adding_subclusters (autoscaler 15) 10 (pos 9) three
      ≡ added (three ++ new) (not (nat_eq (length three) (length (three ++ new)))))
    × IsAddition (autoscaler 15) some_service 4 9 (subcluster "as2" "as" 4 false) three new
unfolding last_of_three
consider_adding_subclusters-IsAddition_example =
    consider_adding_subclusters-IsAddition (autoscaler 15) some_service 4 9 10 three (omega arith)
      (omega arith) (omega arith) (last_of_three 15)

consider_adding_subclusters-still_running_example :
    consider_adding_subclusters (autoscaler 5) 100 (pos 3) last_empty ≡ still_running
unfolding serves can_use_template get_service_name
consider_adding_subclusters-still_running_example =
    consider_adding_subclusters-still_running (autoscaler 5) some_service 100 3 last_empty
      (omega arith) (of_last refl (subcluster "as2" "as" 0 false) refl refl)

consider_removing_subclusters-IsRemoval_example :
    IsRemoval "as" 5 three (consider_removing_subclusters "as" (pos 5) three)
consider_removing_subclusters-IsRemoval_example =
    consider_removing_subclusters-IsRemoval "as" 5 three (omega arith) (refl, (refl, (refl, tt)))

gen_next_subcluster_name_total_example :
    (name : String) × (gen_next_subcluster_name
        (autoscaler 9)
        (("as-0", subcluster "as-0" "" 1 false) ∷ [])
      ≡ some name)
    × (lookup name (("as-0", subcluster "as-0" "" 1 false) ∷ []) ≡ none)
gen_next_subcluster_name_total_example =
    gen_next_subcluster_name_total (autoscaler 9) (("as-0", subcluster "as-0" "" 1 false) ∷ [])

parse_version-print_version_example :
    parse_version (print_version (release 11 0 2)) ≡ some (release 11 0 2)
parse_version-print_version_example =
    parse_version-print_version (release 11 0 2) (omega arith) (omega arith) (omega arith)
