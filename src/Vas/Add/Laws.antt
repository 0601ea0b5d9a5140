-- ===== src/Vas/Add/Laws.antt =====
-- What considerAddingSubclusters adds, and when its loop does not end.
use mathlib.Core.List.{append-nil, append_assoc}
use vertica_kubernetes.Prelude.{
  ℕ, zero, suc, ◌+◌, ◌-◌, ◌≤◌, ◌<◌, ◌^◌, ◌≡◌, ◌≢◌, refl, ◌∙◌, ap, inl, inr, String, List, [], ◌∷◌,
  ◌++◌, none, false, not, arith, All, All-imp, length, is_some, Bool-cases, leb, ◌==◌ as nat_eq,
}
use vertica_kubernetes.Prelude.Int.{pos, pos_part}
use vertica_kubernetes.Prelude.Int32.{sub32, sub32_pos}
use vertica_kubernetes.Prelude.Maps.{lookup, insert, lookup-insert}
use vertica_kubernetes.Api.Types.{Subcluster, VerticaAutoscaler}
use vertica_kubernetes.Api.Methods.{gen_subcluster_map}
use vertica_kubernetes.Api.Methods.Names.{has_name, has_name-snoc, gen_subcluster_map-has_name}
use vertica_kubernetes.Vas.Pods.{pod_count}
use vertica_kubernetes.Vas.Add.{
  ScMap, next, calc_next_subcluster, added, still_running, add_loop, consider_adding_subclusters,
}
use vertica_kubernetes.Vas.Add.Copies.{
  Base, base_subcluster, IsCopy, calc_next_subcluster_lem, Base-snoc,
}

-- The names of the new subclusters differ from those before them.
abbrev pub Fresh : List Subcluster → List Subcluster → Type 0
Fresh scs [] = Unit
Fresh scs (sc ∷ new) = (has_name sc.name scs ≡ false) × Fresh (scs ++ sc ∷ []) new

module _ (vas : VerticaAutoscaler) (named : vas.spec.service_name ≢ "") where
  -- What the loop has done to `scs` when `p` pods were needed.
  pub record IsAddition (s p : ℕ) (base : Subcluster) (scs new : List Subcluster) : Type 0 where
    pub copies : All (IsCopy vas s base) new
    pub bounded : pod_count new ≤ p
    pub enough : p < pod_count new + s
    pub fresh : Fresh scs new

  IsAddition-base :
      (s p : ℕ) (base base' : Subcluster) (scs new : List Subcluster)
      → ((sc : Subcluster) → IsCopy vas s base' sc → IsCopy vas s base sc)
      → IsAddition s p base' scs new
      → IsAddition s p base scs new
  IsAddition-base s p base base' scs new h a = record {
    copies = All-imp h new a.copies;
    bounded = a.bounded;
    enough = a.enough;
    fresh = a.fresh;
  }

  abbrev Mirrors : ScMap → List Subcluster → Type 0
  Mirrors sc_map scs = (n : String) → is_some (lookup n sc_map) ≡ has_name n scs

  Mirrors-snoc :
      (sc_map : ScMap) (scs : List Subcluster) (sc : Subcluster)
      → Mirrors sc_map scs
      → Mirrors (insert sc.name sc sc_map) (scs ++ sc ∷ [])
  Mirrors-snoc sc_map scs sc h n =
      ground (arith, lookup-insert sc.name n sc sc_map, has_name-snoc n scs sc, h n)

  -- One round, where the size fits the pods that are still needed.
  add_loop_step :
      (s p fuel : ℕ) (sc_map : ScMap) (scs : List Subcluster) (orig : ℕ) (sc : Subcluster)
      → s ≤ p
      → p < 2 ^ 31
      → calc_next_subcluster vas scs sc_map ≡ next sc
      → sc.size ≡ pos s
      → add_loop vas (pos s) (suc fuel) (pos p) sc_map scs orig
        ≡ add_loop vas (pos s) fuel (pos (p - s)) (insert sc.name sc sc_map) (scs ++ sc ∷ []) orig
  unfolding add_loop
  add_loop_step s p fuel sc_map scs orig sc le fits e size =
      let less : sub32 (pos p) sc.size ≡ pos (p - s) = rw size (sub32_pos p (pos s) refl le fits) in
      ground (arith, e, less)

  IsAddition-cons :
      (s p : ℕ) (base : Subcluster) (sc_map : ScMap) (scs : List Subcluster) (sc : Subcluster)
      (new : List Subcluster)
      → s ≤ p
      → IsCopy vas s base sc
      → lookup sc.name sc_map ≡ none
      → Mirrors sc_map scs
      → IsAddition s (p - s) base (scs ++ sc ∷ []) new
      → IsAddition s p base scs (sc ∷ new)
  IsAddition-cons s p base sc_map scs sc new le copy free mirrors a = record {
    copies = (copy, a.copies);
    bounded = omega (arith, a.bounded, ap pos_part copy.sized);
    enough = omega (arith, a.enough, ap pos_part copy.sized);
    fresh = (ground (arith, mirrors sc.name), a.fresh);
  }

  add_loop-IsAddition :
      (s fuel p : ℕ) (sc_map : ScMap) (scs : List Subcluster) (orig : ℕ)
      → 0 < s
      → p < fuel
      → p < 2 ^ 31
      → (base : Base vas scs s) → Mirrors sc_map scs
      → (new : List Subcluster) × (add_loop vas (pos s) fuel (pos p) sc_map scs orig
          ≡ added (scs ++ new) (not (nat_eq orig (length (scs ++ new)))))
        × IsAddition s p (base_subcluster base) scs new
  unfolding add_loop
  add_loop-IsAddition s zero p sc_map scs orig some_pods enough fits base mirrors =
      absurd (omega arith)
  add_loop-IsAddition s (suc fuel) p sc_map scs orig some_pods enough fits base mirrors =
      elim (Bool-cases (leb s p)) [
        | inr done ↦ (
          [],
          rw (append-nil scs) (ground arith),
          record { copies = tt; bounded = omega arith; enough = ground arith; fresh = tt },
        )
        | inl more ↦
            let (sc, e, copy, free) = calc_next_subcluster_lem vas named scs sc_map s base in
            let (base', copied) = Base-snoc vas named scs sc s base copy in
            let (new, ends, a) =
              add_loop-IsAddition s fuel (p - s) (insert sc.name sc sc_map) (scs ++ sc ∷ []) orig
                some_pods (ground arith) (omega arith) base' (Mirrors-snoc sc_map scs sc mirrors) in
            (
              sc ∷ new,
              add_loop_step s p fuel sc_map scs orig sc (ground arith) fits e copy.sized
                  ∙ (rw (append_assoc scs (sc ∷ []) new) at ends),
              IsAddition-cons s p (base_subcluster base) sc_map scs sc new (ground arith) copy free
                  mirrors (IsAddition-base s (p - s) _ _ (scs ++ sc ∷ []) new copied a),
            )
      ]

  -- Where the service has a name, there is something of `s` pods to copy, `s` is not 0, and
  -- `p` fits an int32 and is less than the fuel, the call to add `p` pods ends. The
  -- subclusters that it adds serve the autoscaler's service, have `s` pods each, at most `p`
  -- together, and one more would be too many. Each has a name that none before it has, the
  -- service name of the autoscaler, and is in all else what there was to copy: the template or the
  -- last subcluster of the service. It reports a change exactly when the number of subclusters
  -- differs.
  pub consider_adding_subclusters-IsAddition :
      (s p fuel : ℕ) (scs : List Subcluster)
      → 0 < s
      → p < fuel
      → p < 2 ^ 31
      → (base : Base vas scs s)
      → (new : List Subcluster) × (consider_adding_subclusters vas fuel (pos p) scs
          ≡ added (scs ++ new) (not (nat_eq (length scs) (length (scs ++ new)))))
        × IsAddition s p (base_subcluster base) scs new
  unfolding consider_adding_subclusters
  consider_adding_subclusters-IsAddition s p fuel scs some_pods enough fits base =
      let (sc, e, copy, free) =
        calc_next_subcluster_lem vas named scs (gen_subcluster_map scs) s base in
      let (new, ends, a) =
        add_loop-IsAddition s fuel p (gen_subcluster_map scs) scs (length scs) some_pods enough fits
          base (gen_subcluster_map-has_name scs) in
      (new, rw (e, consider_adding_subclusters) (rw copy.sized ends), a)

  -- Where the size to copy is 0, no number of rounds ends the loop.
  add_loop-still_running :
      (fuel p : ℕ) (sc_map : ScMap) (scs : List Subcluster) (orig : ℕ)
      → p < 2 ^ 31
      → Base vas scs 0
      → add_loop vas (pos 0) fuel (pos p) sc_map scs orig ≡ still_running
  unfolding add_loop
  add_loop-still_running zero p sc_map scs orig fits base = refl
  add_loop-still_running (suc fuel) p sc_map scs orig fits base =
      let (sc, e, copy, free) = calc_next_subcluster_lem vas named scs sc_map 0 base in
      add_loop_step 0 p fuel sc_map scs orig sc (omega arith) fits e copy.sized
      ∙ add_loop-still_running fuel (p - 0) (insert sc.name sc sc_map) (scs ++ sc ∷ []) orig
          (omega arith) (Base-snoc vas named scs sc 0 base copy).0

  -- Where the service has a name, `p` fits an int32 and what there is to copy has no pods, the
  -- call to add `p` pods does not end, whatever fuel it is given.
  pub consider_adding_subclusters-still_running :
      (fuel p : ℕ) (scs : List Subcluster)
      → p < 2 ^ 31
      → Base vas scs 0
      → consider_adding_subclusters vas fuel (pos p) scs ≡ still_running
  unfolding consider_adding_subclusters
  consider_adding_subclusters-still_running fuel p scs fits base =
      let (sc, e, copy, free) =
        calc_next_subcluster_lem vas named scs (gen_subcluster_map scs) 0 base in
      rw (e, consider_adding_subclusters)
        (rw copy.sized
          (add_loop-still_running fuel p (gen_subcluster_map scs) scs (length scs) fits base))
