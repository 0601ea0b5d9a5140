-- ===== src/Api/Webhook/Default.antt =====
-- The defaulting webhook: Default and setDefaultServiceName.
pub mod Laws
use text.Mathlib.Text.{◌==◌}
use vertica_kubernetes.Prelude.{
  ◌≡◌, refl, String, List, [], ◌∷◌, map, Bool, true, false, ◌&&◌, arith, if◌then◌else◌,
}
use vertica_kubernetes.Prelude.Text.{has_suffix}
use vertica_kubernetes.Api.Types.{
  Subcluster, SubclusterSelection, CommunalStorage, VerticaDbSpec, VerticaDb,
}
use vertica_kubernetes.Api.Constants.{
  default_s3_region, default_gcloud_region, default_gcloud_endpoint,
}
use vertica_kubernetes.Api.Methods.{get_service_name, is_s3, is_gcloud}

-- The body of the loop of setDefaultServiceName.
unfoldable pub with_service_name : Subcluster → Subcluster
unfolding get_service_name
with_service_name sc =
    if sc.service_name == "" then record sc { service_name = get_service_name sc } else sc

unfoldable pub default_communal : CommunalStorage → CommunalStorage
unfolding is_s3 is_gcloud
default_communal c =
    let c1 = if c.region == "" && is_s3 c then record c { region = default_s3_region } else c in
    let c2 =
      if c1.region == "" && is_gcloud c1
      then record c1 { region = default_gcloud_region }
      else c1 in
    if c2.endpoint == "" && is_gcloud c2
    then record c2 { endpoint = default_gcloud_endpoint }
    else c2

unfoldable pub default_spec : VerticaDbSpec → VerticaDbSpec
unfolding default_communal with_service_name
default_spec s =
    let routing = s.temporary_subcluster_routing in
    record s {
      image_pull_policy = (if has_suffix s.image ":latest" then "Always" else s.image_pull_policy);
      communal = default_communal s.communal;
      temporary_subcluster_routing = record routing {
        template = record (routing.template) { is_primary = false };
      };
      subclusters = map with_service_name s.subclusters;
    }

unfoldable pub default : VerticaDb → VerticaDb
unfolding default_spec
default v = record v { spec = default_spec v.spec }
