-- ===== src/Upgrade/Transient/Laws.antt =====
-- The transient subcluster comes and goes, and leaves the others as they were.
use vertica_kubernetes.Prelude.{
  ℕ, zero, suc, ◌≡◌, refl, ◌∙◌, ap, ◌⊎◌, inl, inr, List, [], ◌∷◌, ◌++◌, none, Bool, true, false,
  not, ◌||◌, if◌then◌else◌, arith, any, keep, length, get_elem?, Bool-cases, Option-cases, is_some,
  String,
}
use vertica_kubernetes.Api.Types.{Subcluster, VerticaDb}
use vertica_kubernetes.Api.Methods.{
  requires_transient_subcluster, find_transient_subcluster, build_transient_subcluster,
}
use vertica_kubernetes.Upgrade.World.{client_call}
use vertica_kubernetes.Upgrade.Manager.Status.{client_call-IsFrame}
use vertica_kubernetes.Upgrade.Transient.{
  Online, remove_at, is_transient_at, remove_transients, remove_transient_from_vdb,
  add_transient_to_vdb, put_transient, skip_transient_setup, fetch_old_image,
}

-- The subclusters that stay.
abbrev pub lasting : List Subcluster → List Subcluster
lasting scs = keep (λ (sc : Subcluster). not sc.is_transient) scs

abbrev pub has_transient : List Subcluster → Bool
has_transient scs = any (λ (sc : Subcluster). sc.is_transient) scs

-- From index `n` on the list as it is, before it what stays.
abbrev lasting_below : ℕ → List Subcluster → List Subcluster
lasting_below zero scs = scs
lasting_below (suc n) [] = []
lasting_below (suc n) (sc ∷ scs) =
    let rest = lasting_below n scs in if sc.is_transient then rest else sc ∷ rest

abbrev transient_below : ℕ → List Subcluster → Bool
transient_below zero scs = false
transient_below (suc n) [] = false
transient_below (suc n) (sc ∷ scs) = sc.is_transient || transient_below n scs

remove_at-lasting_below :
    (i : ℕ) (scs : List Subcluster)
    → lasting_below i (if is_transient_at (get_elem? scs i) then remove_at i scs else scs)
      ≡ lasting_below (suc i) scs
remove_at-lasting_below zero [] = refl
remove_at-lasting_below zero (sc ∷ scs) = ground arith
remove_at-lasting_below (suc i) [] = refl
remove_at-lasting_below (suc i) (sc ∷ scs) =
    let rest = remove_at-lasting_below i scs in
    elim (Bool-cases (is_transient_at (get_elem? scs i))) [
      | inl e ↦ ground (arith, e, rest)
      | inr e ↦ ground (arith, e, rest)
    ]

transient_below-suc :
    (i : ℕ) (r : Bool) (scs : List Subcluster)
    → (r || is_transient_at (get_elem? scs i))
        || transient_below i (if is_transient_at (get_elem? scs i) then remove_at i scs else scs)
      ≡ r || transient_below (suc i) scs
transient_below-suc zero r [] = ground arith
transient_below-suc zero r (sc ∷ scs) = ground arith
transient_below-suc (suc i) r [] = ground arith
transient_below-suc (suc i) r (sc ∷ scs) =
    let rest = transient_below-suc i r scs in
    elim (Bool-cases (is_transient_at (get_elem? scs i))) [
      | inl e ↦ ground (arith, e, rest)
      | inr e ↦ ground (arith, e, rest)
    ]

remove_transients-below :
    (n : ℕ) (r : Bool) (scs : List Subcluster)
    → ((remove_transients n r scs).0 ≡ r || transient_below n scs)
      × ((remove_transients n r scs).1 ≡ lasting_below n scs)
unfolding remove_transients
remove_transients-below zero r scs = (ground arith, refl)
remove_transients-below (suc i) r scs =
    let found = is_transient_at (get_elem? scs i) in
    let (e, f) = remove_transients-below i (r || found) (if found then remove_at i scs else scs) in
    (e ∙ transient_below-suc i r scs, f ∙ remove_at-lasting_below i scs)

below_length :
    (scs : List Subcluster)
    → (transient_below (length scs) scs ≡ has_transient scs)
      × (lasting_below (length scs) scs ≡ lasting scs)
below_length [] = (refl, refl)
below_length (sc ∷ scs) = let h = below_length scs in ground (arith, h)

-- The loop over the indexes, from the last to the first, removes exactly the transient subclusters
-- and keeps the others in their order; it tells whether there was one.
pub remove_transients-lasting :
    (scs : List Subcluster)
    → ((remove_transients (length scs) false scs).0 ≡ has_transient scs)
      × ((remove_transients (length scs) false scs).1 ≡ lasting scs)
remove_transients-lasting scs =
    let (e, f) = remove_transients-below (length scs) false scs in
    let (g, h) = below_length scs in (ground (arith, e, g), f ∙ h)

lasting-id : (scs : List Subcluster) → has_transient scs ≡ false → lasting scs ≡ scs
lasting-id [] h = refl
lasting-id (sc ∷ scs) h = ground (arith, lasting-id scs)

lasting-snoc :
    (scs : List Subcluster) (sc : Subcluster)
    → sc.is_transient ≡ true
    → lasting (scs ++ sc ∷ []) ≡ lasting scs
lasting-snoc [] sc h = ground arith
lasting-snoc (first ∷ scs) sc h = ground (arith, lasting-snoc scs sc h)

abbrev pub subclusters_of : Online → List Subcluster
subclusters_of o = o.world.vdb.spec.subclusters

abbrev requires : Online → Bool
requires o = requires_transient_subcluster o.world.vdb

put_transient-lasting :
    (sc : Subcluster) (o : Online)
    → sc.is_transient ≡ true
    → (lasting (subclusters_of (put_transient sc o).1) ≡ lasting (subclusters_of o))
      × (requires (put_transient sc o).1 ≡ requires o)
unfolding put_transient requires_transient_subcluster
put_transient-lasting sc o h =
    let (_, e) = client_call-IsFrame o.world in
    let w = (client_call o.world).1 in
    let (_, f) = client_call-IsFrame w in
    let w' = (client_call w).1 in
    let scs = w.vdb.spec.subclusters in
    let added : lasting (scs ++ sc ∷ []) ≡ lasting scs = lasting-snoc scs sc h in
    elim (Option-cases (find_transient_subcluster scs)) [
      | inl k ↦ ground (arith, e, f, k, added)
      | inr (other, k) ↦ ground (arith, e, f, k, added)
    ]

add_transient_to_vdb-lasting :
    (zero_value : String) (o : Online)
    → (lasting (subclusters_of (add_transient_to_vdb zero_value o).1) ≡ lasting (subclusters_of o))
      × (requires (add_transient_to_vdb zero_value o).1 ≡ requires o)
      × ((requires o ≡ true)
          ⊎ (subclusters_of (add_transient_to_vdb zero_value o).1 ≡ subclusters_of o))
unfolding add_transient_to_vdb skip_transient_setup build_transient_subcluster
add_transient_to_vdb-lasting zero_value o = elim (Bool-cases (is_some o.transient_sc)) [
  | inl e ↦ rw (add_transient_to_vdb, e) (refl, refl, inr refl)
  | inr e ↦ elim (Bool-cases (skip_transient_setup o)) [
    | inl k ↦ rw (add_transient_to_vdb, e, k) (refl, refl, inr refl)
    | inr k ↦ elim (Option-cases (fetch_old_image o.world.vdb.spec.image o.primary_images)) [
      | inl n ↦ rw (add_transient_to_vdb, e, k, n) (refl, refl, inr refl)
      | inr (img, n) ↦
          let (a, b) =
            put_transient-lasting (build_transient_subcluster o.world.vdb img zero_value) o refl in
          rw (add_transient_to_vdb, e, k, n) (a, b, inl (required k))
    ]
  ]
]
  where
    required : skip_transient_setup o ≡ false → requires o ≡ true
    required k = ground arith

remove_transient_from_vdb-lasting :
    (o : Online)
    → (remove_transient_from_vdb o).0.err ≡ none
    → ((requires o ≡ false) × (subclusters_of (remove_transient_from_vdb o).1 ≡ subclusters_of o))
      ⊎ (subclusters_of (remove_transient_from_vdb o).1 ≡ lasting (subclusters_of o))
unfolding remove_transient_from_vdb
remove_transient_from_vdb-lasting o ok =
    let (_, e) = client_call-IsFrame o.world in
    let w = (client_call o.world).1 in
    let scs = w.vdb.spec.subclusters in
    let (found, kept) = remove_transients-lasting scs in
    let same : scs ≡ subclusters_of o = ap (λ (d : VerticaDb). d.spec.subclusters) e in
    let kept_same : lasting scs ≡ lasting (subclusters_of o) = ap lasting same in
    ground (arith, found, kept, same, kept_same, lasting-id scs)

-- Where the VerticaDB has no transient subcluster, the step that adds one and the step that removes
-- it, when the latter ends without an error, together leave the VerticaDB the subclusters that it
-- had, in their order, whether one was added or not.
pub remove_transient_from_vdb-add_transient_to_vdb :
    (zero_value : String) (o : Online)
    → has_transient (subclusters_of o) ≡ false
    → (remove_transient_from_vdb (add_transient_to_vdb zero_value o).1).0.err ≡ none
    → subclusters_of (remove_transient_from_vdb (add_transient_to_vdb zero_value o).1).1
      ≡ subclusters_of o
remove_transient_from_vdb-add_transient_to_vdb zero_value o h ok =
    let o' = (add_transient_to_vdb zero_value o).1 in
    let (a, b, c) = add_transient_to_vdb-lasting zero_value o in
    let whole = lasting-id (subclusters_of o) h in
    elim (remove_transient_from_vdb-lasting o' ok) [
      | inr e ↦ e ∙ a ∙ whole
      | inl (not_required, e) ↦ elim c [
        | inr same ↦ e ∙ same
        | inl required ↦ absurd (ground (arith, required, not_required, b))
      ]
    ]
