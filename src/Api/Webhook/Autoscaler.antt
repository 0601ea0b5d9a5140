-- ===== src/Api/Webhook/Autoscaler.antt =====
-- api/v1beta1/verticaautoscaler_webhook.go: the admission webhook of VerticaAutoscaler.
pub mod Laws
use text.Mathlib.Text.{◌==◌}
use vertica_kubernetes.Prelude.{
  String, List, [], ◌∷◌, Option, Bool, true, false, not, ◌&&◌, ◌||◌, if◌then◌else◌,
}
use vertica_kubernetes.Api.Types.{VerticaAutoscaler}
use vertica_kubernetes.Api.Methods.{can_use_template}
use vertica_kubernetes.Api.Webhook.Errors.{child, ErrorList, invalid, report}
use vertica_kubernetes.Api.Webhook.Create.{as_error}

abbrev pub pod_scaling_granularity : String
pod_scaling_granularity = "Pod"

abbrev pub subcluster_scaling_granularity : String
subcluster_scaling_granularity = "Subcluster"

unfoldable pub validate_scaling_granularity : VerticaAutoscaler → ErrorList → ErrorList
validate_scaling_granularity vas =
    let g = vas.spec.scaling_granularity in
    report (not (g == pod_scaling_granularity || g == subcluster_scaling_granularity)) (
      invalid (child "scalingGranularity" ∷ [])
        "scalingGranularity must be set to either Subcluster or Pod")

unfoldable pub validate_subcluster_template : VerticaAutoscaler → ErrorList → ErrorList
validate_subcluster_template vas all_errs =
    let path = child "template" ∷ child "serviceName" ∷ [] in
    report (can_use_template vas && vas.spec.scaling_granularity == pod_scaling_granularity)
      (invalid path
        "You cannot use the template if scalingGranularity is Pod.  Set the template size to 0 to disable the template")
      (report
        (can_use_template vas && not (vas.spec.template.service_name == vas.spec.service_name))
        (invalid path "The serviceName in the subcluster template must match spec.serviceName")
        all_errs)

unfoldable pub validate_spec : VerticaAutoscaler → ErrorList
unfolding validate_scaling_granularity validate_subcluster_template
validate_spec vas = validate_subcluster_template vas (validate_scaling_granularity vas [])

-- ValidateCreate, and ValidateUpdate too, which does not look at the old object.
unfoldable pub validate_autoscaler : VerticaAutoscaler → Option ErrorList
unfolding validate_spec
validate_autoscaler vas = as_error (validate_spec vas)
