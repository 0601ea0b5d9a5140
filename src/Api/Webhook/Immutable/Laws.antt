-- ===== src/Api/Webhook/Immutable/Laws.antt =====
-- What an update may change.
use text.Mathlib.Text.{◌==◌}
use text.Mathlib.TextEquality.{eq_iff}
use vertica_kubernetes.Prelude.{
  ◌≡◌, refl, ◌↔◌, ◌⊎◌, [], ◌∷◌, ◌++◌, Option, none, some, Bool, true, false, not, ◌||◌, arith, All,
  is_some,
}
use vertica_kubernetes.Prelude.Int.{eqb_ℤ_iff}
use vertica_kubernetes.Api.Types.{VerticaDb, Opaque}
use vertica_kubernetes.Api.Webhook.Errors.{
  Checks, ErrorList, report-Checks, then-Checks, iff-Checks, skip-Checks,
}
use vertica_kubernetes.Api.Webhook.Subclusters.Services.{
  same_external_ips_iff, decide_iff, differ-Checks,
}
use vertica_kubernetes.Api.Webhook.Create.{validate_verticadb_spec, validate_create}
use vertica_kubernetes.Api.Webhook.Create.Laws.{as_error_iff}
use vertica_kubernetes.Api.Webhook.Immutable.{
  can_update_sc_name, is_subcluster_type_is_changing, is_image_change_in_progress,
  check_immutable_upgrade_policy, same_subcluster, check_immutable_temporary_subcluster_routing,
  check_immutable_encrypt_spread_comm, check_fixed_fields, validate_immutable_fields,
  validate_update,
}
use vertica_kubernetes.Api.Webhook.Immutable.Subclusters.{
  KeepsName, can_update_sc_name_iff, KeepsType, first_changed_iff,
}

-- The settings that are fixed at the creation.
pub record SameFixedFields (same_quantity : Opaque → Opaque → Bool) (v old_obj : VerticaDb)
    : Type 0 where
  pub k_safety : v.spec.k_safety ≡ old_obj.spec.k_safety
  pub init_policy : v.spec.init_policy ≡ old_obj.spec.init_policy
  pub db_name : v.spec.db_name ≡ old_obj.spec.db_name
  pub data_path : v.spec.local.data_path ≡ old_obj.spec.local.data_path
  pub depot_path : v.spec.local.depot_path ≡ old_obj.spec.local.depot_path
  pub shard_count : v.spec.shard_count ≡ old_obj.spec.shard_count
  pub communal_path : v.spec.communal.path ≡ old_obj.spec.communal.path
  pub endpoint : v.spec.communal.endpoint ≡ old_obj.spec.communal.endpoint
  pub request_size : same_quantity v.spec.local.request_size old_obj.spec.local.request_size ≡ true
  pub storage_class : v.spec.local.storage_class ≡ old_obj.spec.local.storage_class

-- The policy and the routing of an upgrade, which are fixed while the image changes.
abbrev pub KeepsUpgrade : VerticaDb → VerticaDb → Type 0
KeepsUpgrade v old_obj =
    (is_image_change_in_progress old_obj ≡ false)
    ⊎ ((v.spec.upgrade_policy ≡ old_obj.spec.upgrade_policy)
        × (v.spec.temporary_subcluster_routing.names
            ≡ old_obj.spec.temporary_subcluster_routing.names)
        × (v.spec.temporary_subcluster_routing.template
            ≡ old_obj.spec.temporary_subcluster_routing.template))

-- An update that the checks on the old object let pass.
pub record IsAllowedUpdate (same_quantity : Opaque → Opaque → Bool) (v old_obj : VerticaDb)
    : Type 0 where
  pub fixed_fields : SameFixedFields same_quantity v old_obj
  pub names : KeepsName v old_obj
  pub types : All (KeepsType old_obj.spec.subclusters) v.spec.subclusters
  pub upgrade : KeepsUpgrade v old_obj
  pub spread_setting : v.spec.encrypt_spread_comm ≡ old_obj.spec.encrypt_spread_comm

check_fixed_fields-Checks :
    (same_quantity : Opaque → Opaque → Bool) (v old_obj : VerticaDb)
    → Checks (check_fixed_fields same_quantity v old_obj) (SameFixedFields same_quantity v old_obj)
unfolding check_fixed_fields
check_fixed_fields-Checks same_quantity v old_obj =
    let s = v.spec in
    let o = old_obj.spec in
    iff-Checks _ _ _
      (then-Checks _ _ _ _
        (then-Checks _ _ _ _
          (then-Checks _ _ _ _
            (then-Checks _ _ _ _
              (then-Checks _ _ _ _
                (then-Checks _ _ _ _
                  (then-Checks _ _ _ _
                    (then-Checks _ _ _ _
                      (then-Checks _ _ _ _ (differ-Checks _ _ (eq_iff s.k_safety o.k_safety) _)
                        (differ-Checks _ _ (eq_iff s.init_policy o.init_policy) _))
                      (differ-Checks _ _ (eq_iff s.db_name o.db_name) _))
                    (differ-Checks _ _ (eq_iff s.local.data_path o.local.data_path) _))
                  (differ-Checks _ _ (eq_iff s.local.depot_path o.local.depot_path) _))
                (differ-Checks _ _ (eqb_ℤ_iff s.shard_count o.shard_count) _))
              (differ-Checks _ _ (eq_iff s.communal.path o.communal.path) _))
            (differ-Checks _ _ (eq_iff s.communal.endpoint o.communal.endpoint) _))
          (differ-Checks _ (same_quantity s.local.request_size o.local.request_size ≡ true)
            (λ e. e, λ e. e) _))
        (differ-Checks _ _ (eq_iff s.local.storage_class o.local.storage_class) _))
      (
        λ (((((((((a, b), c), d), e), f), g), h), i), j). record {
          k_safety = a;
          init_policy = b;
          db_name = c;
          data_path = d;
          depot_path = e;
          shard_count = f;
          communal_path = g;
          endpoint = h;
          request_size = i;
          storage_class = j;
        },
        λ r. (
          (
            (
              (
                (
                  ((((r.k_safety, r.init_policy), r.db_name), r.data_path), r.depot_path),
                  r.shard_count,
                ),
                r.communal_path,
              ),
              r.endpoint,
            ),
            r.request_size,
          ),
          r.storage_class,
        ),
      )

check_upgrade-Checks :
    (v old_obj : VerticaDb)
    → Checks
        (λ es.
          check_immutable_temporary_subcluster_routing v old_obj
            (check_immutable_upgrade_policy v old_obj es))
        (KeepsUpgrade v old_obj)
unfolding check_immutable_temporary_subcluster_routing check_immutable_upgrade_policy
    same_subcluster
check_upgrade-Checks v old_obj =
    let p = v.spec.upgrade_policy in
    let o = old_obj.spec.upgrade_policy in
    let routing = v.spec.temporary_subcluster_routing in
    let old_routing = old_obj.spec.temporary_subcluster_routing in
    iff-Checks _ _ _
      (then-Checks _ _ _ _
        (skip-Checks (p == o || not (is_image_change_in_progress old_obj)) _ _
          (report-Checks true _ ⊥ (ground arith)))
        (skip-Checks (not (is_image_change_in_progress old_obj)) _ _ (
          then-Checks _ _ _ _
            (differ-Checks _ _ (same_external_ips_iff routing.names old_routing.names) _)
            (differ-Checks _ (routing.template ≡ old_routing.template) (decide_iff _) _))))
      (ground (arith, eq_iff p o))

is_some_iff : {A : Type 0} (o : Option A) → is_some o ≡ false ↔ (o ≡ none)
is_some_iff none = (λ _. refl, λ _. refl)
is_some_iff (some a) = ground arith

append-empty : (es fs : ErrorList) → es ++ fs ≡ [] ↔ ((es ≡ []) × (fs ≡ []))
append-empty [] fs = (λ e. (refl, e), λ p. p.1)
append-empty (e ∷ es) fs = ground arith

validate_immutable_fields_iff :
    (same_quantity : Opaque → Opaque → Bool) (v old_obj : VerticaDb)
    → validate_immutable_fields same_quantity v old_obj ≡ []
      ↔ IsAllowedUpdate same_quantity v old_obj
unfolding validate_immutable_fields check_immutable_encrypt_spread_comm
    is_subcluster_type_is_changing
validate_immutable_fields_iff same_quantity v old_obj =
    let all =
      then-Checks _ _ _ _
        (then-Checks _ _ _ _
          (then-Checks _ _ _ _
            (then-Checks _ _ _ _ (check_fixed_fields-Checks same_quantity v old_obj)
              (differ-Checks (can_update_sc_name v old_obj) _ (can_update_sc_name_iff v old_obj) _))
            (iff-Checks _ _ _ (report-Checks _ _ _ (is_some_iff _))
              (first_changed_iff old_obj.spec.subclusters v.spec.subclusters)))
          (check_upgrade-Checks v old_obj))
        (differ-Checks _ _ (eq_iff v.spec.encrypt_spread_comm old_obj.spec.encrypt_spread_comm) _)
        [] in
    (
      λ e.
          let (_, ((((a, b), c), d), f)) = all.0 e in
          record { fixed_fields = a; names = b; types = c; upgrade = d; spread_setting = f },
      λ r. all.1 (refl, ((((r.fixed_fields, r.names), r.types), r.upgrade), r.spread_setting)),
    )

-- An update is admitted exactly if a new object with its contents would be, and the update is
-- allowed: the settings of the database and its storage and the encryption of Spread are the
-- old ones; a subcluster that was there keeps its type; some subcluster has the name of an old
-- one with a node in the database, unless there is no such old one; and while the image
-- changes, the upgrade's policy and routing stay. `same_quantity` compares quantities.
pub validate_update_iff :
    (same_quantity : Opaque → Opaque → Bool) (v old_obj : VerticaDb)
    → validate_update same_quantity v old_obj ≡ none
      ↔ (IsAllowedUpdate same_quantity v old_obj × (validate_create v ≡ none))
unfolding validate_update validate_create
validate_update_iff same_quantity v old_obj =
    let spec = validate_verticadb_spec v in
    let fields = validate_immutable_fields same_quantity v old_obj in
    let fields_iff = validate_immutable_fields_iff same_quantity v old_obj in
    (
      λ e.
          let (f, g) = (append-empty fields spec).0 ((as_error_iff (fields ++ spec)).0 e) in
          (fields_iff.0 f, (as_error_iff spec).1 g),
      λ (u, c).
          (as_error_iff (fields ++ spec)).1
            ((append-empty fields spec).1 (fields_iff.1 u, (as_error_iff spec).0 c)),
    )
