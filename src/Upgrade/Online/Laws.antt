-- ===== src/Upgrade/Online/Laws.antt =====
-- The messages of an online upgrade.
use vertica_kubernetes.Prelude.{
  ℕ, suc, ◌+◌, ◌*◌, ◌≡◌, refl, ◌∙◌, inl, inr, String, List, [], ◌∷◌, none, some, true, false, arith,
  length, length-append, Bool-cases, Option-cases,
}
use vertica_kubernetes.Api.Methods.{gen_subcluster_map}
use vertica_kubernetes.Finder.{find_existing, build_obj_list}
use vertica_kubernetes.Upgrade.World.{StatefulSet, is_reconcile_aborted, client_call}
use vertica_kubernetes.Upgrade.Images.{find_stateful_sets}
use vertica_kubernetes.Upgrade.Transient.{Online, is_matching_subcluster_type}
use vertica_kubernetes.Upgrade.Online.{
  process_all, iterate_subcluster_type, precompute_status_msgs, secondary_msgs,
  secondary_subcluster_type, primary_msgs,
}

-- The statefulsets of a type, as a number.
unfoldable pub number_of_type : String → List StatefulSet → ℕ
number_of_type sc_type [] = 0
number_of_type sc_type (s ∷ stss) = elim (is_matching_subcluster_type s sc_type) [
  | none ↦ number_of_type sc_type stss
  | some false ↦ number_of_type sc_type stss
  | some true ↦ suc (number_of_type sc_type stss)
]

length-secondary_msgs :
    (s : StatefulSet) (o : Online)
    → length (secondary_msgs s o).1.status_msgs ≡ length o.status_msgs + 3
unfolding secondary_msgs
length-secondary_msgs s o = length-append o.status_msgs _

process_all-length :
    (stss : List StatefulSet) (o : Online)
    → is_reconcile_aborted (process_all secondary_subcluster_type secondary_msgs stss o).0 ≡ false
    → length (process_all secondary_subcluster_type secondary_msgs stss o).1.status_msgs
      ≡ length o.status_msgs + 3 * number_of_type secondary_subcluster_type stss
unfolding process_all secondary_msgs is_reconcile_aborted number_of_type
process_all-length [] o h = omega arith
process_all-length (s ∷ stss) o h =
    elim (Option-cases (is_matching_subcluster_type s secondary_subcluster_type)) [
      | inl e ↦ absurd (ground (arith, rw (process_all, e) at h))
      | inr (false, e) ↦
          rw (process_all, number_of_type, e) (process_all-length stss o (rw (process_all, e) at h))
      | inr (true, e) ↦
          let rest = process_all-length stss (secondary_msgs s o).1 (rw (process_all, e) at h) in
          rw (process_all, number_of_type, e) (rest ∙ omega (arith, length-secondary_msgs s o))
    ]

-- When the messages of an online upgrade are computed without an abort, there are nine, and three
-- more for each secondary subcluster whose statefulset exists, the transient one aside; the next
-- message to be posted is the first.
pub precompute_status_msgs-length :
    (o : Online)
    → is_reconcile_aborted (precompute_status_msgs o).0 ≡ false
    → (length (precompute_status_msgs o).1.status_msgs
        ≡ 9
          + 3
            * number_of_type secondary_subcluster_type (
                build_obj_list
                  (λ (s : StatefulSet). s.labels)
                  find_existing
                  (gen_subcluster_map o.world.vdb.spec.subclusters)
                  o.world.statefulsets))
      × ((precompute_status_msgs o).1.posted ≡ 0)
unfolding precompute_status_msgs iterate_subcluster_type find_stateful_sets is_reconcile_aborted
precompute_status_msgs-length o h =
    let stss =
      build_obj_list (λ (s : StatefulSet). s.labels) find_existing
        (gen_subcluster_map o.world.vdb.spec.subclusters) o.world.statefulsets in
    let start = record o { status_msgs = primary_msgs; world = (client_call o.world).1 } in
    let run = process_all secondary_subcluster_type secondary_msgs stss start in
    elim (Bool-cases (client_call o.world).0) [
      | inr e ↦ absurd (
          ground (
            arith,
            rw (precompute_status_msgs, iterate_subcluster_type, find_stateful_sets, e) at h,
          ))
      | inl e ↦ elim (Bool-cases (is_reconcile_aborted run.0)) [
        | inl k ↦ absurd (
            ground (
              arith,
              k,
              rw (precompute_status_msgs, iterate_subcluster_type, find_stateful_sets, e, k) at h,
            ))
        | inr k ↦
            rw (precompute_status_msgs, iterate_subcluster_type, find_stateful_sets, e, k)
              (
                omega (
                  arith,
                  process_all-length stss start k,
                  length-append run.1.status_msgs
                      ("Destroying transient secondary subcluster" ∷ []),
                ),
                refl,
              )
      ]
    ]
