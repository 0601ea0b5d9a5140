-- ===== src/Api/Webhook/Default/Laws.antt =====
-- What the defaulting webhook sets, and what it leaves as it was.
use text.Mathlib.Text.{◌==◌}
use text.Mathlib.TextEquality.{eq_iff}
use vertica_kubernetes.Prelude.{
  ◌≡◌, ◌≢◌, refl, ap, List, [], ◌∷◌, map, true, false, if◌then◌else◌, arith, Bool-cases, inl, inr,
}
use vertica_kubernetes.Api.Constants.{
  default_s3_region, default_gcloud_region, default_gcloud_endpoint,
}
use vertica_kubernetes.Prelude.Text.{has_suffix}
use vertica_kubernetes.Api.Types.{Subcluster, CommunalStorage, VerticaDb, VerticaDbSpec}
use vertica_kubernetes.Api.Methods.{get_service_name, is_s3, is_gcloud}
use vertica_kubernetes.Api.Webhook.Default.{
  with_service_name, default_communal, default_spec, default,
}

with_service_name-with_service_name :
    (sc : Subcluster) → with_service_name (with_service_name sc) ≡ with_service_name sc
unfolding with_service_name get_service_name
with_service_name-with_service_name sc = elim (Bool-cases (sc.service_name == "")) [
  | inl e ↦ elim (Bool-cases (sc.name == "")) [
    | inl n ↦ rw e (rw n refl)
    | inr n ↦ rw e (rw n refl)
  ]
  | inr e ↦ rw e (rw e refl)
]

default_communal-default_communal :
    (c : CommunalStorage) → default_communal (default_communal c) ≡ default_communal c
unfolding default_communal is_s3 is_gcloud
default_communal-default_communal c = ground (arith, eq_iff c.region "", eq_iff c.endpoint "")

map-map :
    (f : Subcluster → Subcluster)
    → ((sc : Subcluster) → f (f sc) ≡ f sc)
    → (scs : List Subcluster) → map f (map f scs) ≡ map f scs
map-map f h [] = refl
map-map f h (sc ∷ scs) = ap2 (λ x xs. x ∷ xs) (h sc) (map-map f h scs)
  where
    ap2 : {A B C : Type 0} (g : A → B → C) {a b : A} {c d : B} → a ≡ b → c ≡ d → g a c ≡ g b d
    ap2 g p q = cc

default_spec-default_spec : (s : VerticaDbSpec) → default_spec (default_spec s) ≡ default_spec s
unfolding default_spec
default_spec-default_spec s = elim (Bool-cases (has_suffix s.image ":latest")) [
  | inl e ↦ rw e (
      rw (default_communal-default_communal s.communal)
        (rw (map-map with_service_name with_service_name-with_service_name s.subclusters) refl))
  | inr e ↦ rw e (
      rw (default_communal-default_communal s.communal)
        (rw (map-map with_service_name with_service_name-with_service_name s.subclusters) refl))
]

-- What the defaults of the communal storage are: a region only where it is empty, the one of S3
-- first, and an endpoint only where it is empty, on Google Cloud. Nothing else differs.
pub record IsDefaultedCommunal (before after : CommunalStorage) : Type 0 where
  pub region_kept : before.region ≢ "" → after.region ≡ before.region
  pub region_s3 : before.region ≡ "" → is_s3 before ≡ true → after.region ≡ default_s3_region
  pub region_gcloud :
      before.region ≡ ""
      → is_s3 before ≡ false
      → is_gcloud before ≡ true
      → after.region ≡ default_gcloud_region
  pub region_other :
      before.region ≡ "" → is_s3 before ≡ false → is_gcloud before ≡ false → after.region ≡ ""
  pub endpoint_kept : before.endpoint ≢ "" → after.endpoint ≡ before.endpoint
  pub endpoint_gcloud :
      before.endpoint ≡ "" → is_gcloud before ≡ true → after.endpoint ≡ default_gcloud_endpoint
  pub endpoint_other : before.endpoint ≡ "" → is_gcloud before ≡ false → after.endpoint ≡ ""
  pub frame : after ≡ record before { region = after.region; endpoint = after.endpoint }

default_communal-IsDefaultedCommunal :
    (c : CommunalStorage) → IsDefaultedCommunal c (default_communal c)
unfolding default_communal is_s3 is_gcloud
default_communal-IsDefaultedCommunal c = record {
  region_kept = ground (arith, eq_iff c.region "");
  region_s3 = λ r s.
      let missing : c.region == "" ≡ true = (eq_iff c.region "").1 r in
      rw (missing, s) (ground arith);
  region_gcloud = ground (arith, eq_iff c.region "");
  region_other = ground (arith, eq_iff c.region "");
  endpoint_kept = ground (arith, eq_iff c.region "", eq_iff c.endpoint "");
  endpoint_gcloud = ground (arith, eq_iff c.region "", eq_iff c.endpoint "");
  endpoint_other = ground (arith, eq_iff c.region "", eq_iff c.endpoint "");
  frame = ground (arith, eq_iff c.region "", eq_iff c.endpoint "");
}

abbrev pub without_service : Subcluster → Subcluster
without_service sc = record sc { service_name = "" }

with_service_name-frame :
    (scs : List Subcluster)
    → (map (λ (sc : Subcluster). sc.service_name) (map with_service_name scs)
        ≡ map get_service_name scs)
      × (map without_service (map with_service_name scs) ≡ map without_service scs)
unfolding with_service_name get_service_name
with_service_name-frame [] = (refl, refl)
with_service_name-frame (sc ∷ scs) =
    let (a, b) = with_service_name-frame scs in
    elim (Bool-cases (sc.service_name == "")) [
      | inl e ↦ rw e (ap (λ l. sc.name ∷ l) a, ap (λ l. without_service sc ∷ l) b)
      | inr e ↦ rw e (ap (λ l. sc.service_name ∷ l) a, ap (λ l. without_service sc ∷ l) b)
    ]

-- What the webhook makes of a VerticaDB.
pub record IsDefaulted (before after : VerticaDb) : Type 0 where
  pub settled : default after ≡ after
  pub pull_policy :
      after.spec.image_pull_policy
      ≡ (if has_suffix before.spec.image ":latest" then "Always" else before.spec.image_pull_policy)
  pub communal : IsDefaultedCommunal before.spec.communal after.spec.communal
  pub template : after.spec.temporary_subcluster_routing.template.is_primary ≡ false
  pub services :
      map (λ (sc : Subcluster). sc.service_name) after.spec.subclusters
      ≡ map get_service_name before.spec.subclusters
  pub subclusters :
      map without_service after.spec.subclusters ≡ map without_service before.spec.subclusters
  pub frame : after ≡ record before {
    spec = record (before.spec) {
      image_pull_policy = after.spec.image_pull_policy;
      communal = after.spec.communal;
      temporary_subcluster_routing = record (before.spec.temporary_subcluster_routing) {
        template = record (before.spec.temporary_subcluster_routing.template) {
          is_primary = false;
        };
      };
      subclusters = after.spec.subclusters;
    };
  }

-- The webhook sets a pull policy of "Always" for an image of the tag "latest", a region and an
-- endpoint where they are empty and the storage has a default, a service name for each subcluster
-- without one, and a template that is no primary. It changes nothing else, and nothing at all the
-- second time.
pub default-IsDefaulted : (v : VerticaDb) → IsDefaulted v (default v)
unfolding default default_spec
default-IsDefaulted v = record {
  settled = ap (λ (s : VerticaDbSpec). record v { spec = s }) (default_spec-default_spec v.spec);
  pull_policy = refl;
  communal = default_communal-IsDefaultedCommunal v.spec.communal;
  template = refl;
  services = (with_service_name-frame v.spec.subclusters).0;
  subclusters = (with_service_name-frame v.spec.subclusters).1;
  frame = refl;
}
