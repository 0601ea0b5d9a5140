-- ===== src/Api/Webhook/Autoscaler/Laws.antt =====
-- A VerticaAutoscaler that the webhook admits.
use text.Mathlib.Text.{◌==◌}
use text.Mathlib.TextEquality.{eq_iff}
use vertica_kubernetes.Prelude.{◌≡◌, ◌≢◌, refl, ◌↔◌, ◌⊎◌, [], none, false, not, ◌&&◌, ◌||◌, arith}
use vertica_kubernetes.Api.Types.{VerticaAutoscaler}
use vertica_kubernetes.Api.Methods.{can_use_template}
use vertica_kubernetes.Api.Webhook.Errors.{Checks, report-Checks, then-Checks, iff-Checks}
use vertica_kubernetes.Api.Webhook.Create.Laws.{as_error_iff}
use vertica_kubernetes.Api.Webhook.Autoscaler.{
  pod_scaling_granularity, subcluster_scaling_granularity, validate_scaling_granularity,
  validate_subcluster_template, validate_spec, validate_autoscaler,
}

-- A template is used only to scale by whole subclusters, and belongs to the autoscaler's service.
abbrev pub IsValidAutoscaler : VerticaAutoscaler → Type 0
IsValidAutoscaler vas =
    ((vas.spec.scaling_granularity ≡ subcluster_scaling_granularity)
      × ((can_use_template vas ≡ false) ⊎ (vas.spec.template.service_name ≡ vas.spec.service_name)))
    ⊎ ((vas.spec.scaling_granularity ≡ pod_scaling_granularity) × (can_use_template vas ≡ false))

pod≢subcluster : pod_scaling_granularity ≢ subcluster_scaling_granularity
pod≢subcluster e =
    absurd (ground (arith, (eq_iff pod_scaling_granularity subcluster_scaling_granularity).1 e))

validate_spec-Checks :
    (vas : VerticaAutoscaler)
    → Checks
        (λ es. validate_subcluster_template vas (validate_scaling_granularity vas es))
        (IsValidAutoscaler vas)
unfolding validate_scaling_granularity validate_subcluster_template
validate_spec-Checks vas =
    let g = vas.spec.scaling_granularity in
    let t = vas.spec.template.service_name in
    iff-Checks _ _ _
      (then-Checks _ _ _ _
        (report-Checks (not (g == pod_scaling_granularity || g == subcluster_scaling_granularity)) _
          ((g ≡ pod_scaling_granularity) ⊎ (g ≡ subcluster_scaling_granularity))
          (ground
            (arith, eq_iff g pod_scaling_granularity, eq_iff g subcluster_scaling_granularity)))
        (then-Checks _ _ _ _
          (report-Checks (can_use_template vas && not (t == vas.spec.service_name)) _
            ((can_use_template vas ≡ false) ⊎ (t ≡ vas.spec.service_name))
            (ground (arith, eq_iff t vas.spec.service_name)))
          (report-Checks (can_use_template vas && g == pod_scaling_granularity) _
            ((can_use_template vas ≡ false) ⊎ (g ≢ pod_scaling_granularity))
            (ground (arith, eq_iff g pod_scaling_granularity)))))
      (ground (
        arith,
        pod≢subcluster,
        eq_iff g pod_scaling_granularity,
        eq_iff g subcluster_scaling_granularity,
      ))

-- An autoscaler is admitted, when it is made or changed, exactly if it scales by subclusters or by
-- pods, and uses a template only in the first case and only one of its own service.
pub validate_autoscaler_iff :
    (vas : VerticaAutoscaler) → validate_autoscaler vas ≡ none ↔ IsValidAutoscaler vas
unfolding validate_autoscaler validate_spec
validate_autoscaler_iff vas =
    let spec = validate_spec-Checks vas [] in
    let error = as_error_iff (validate_spec vas) in
    (λ e. (spec.0 (error.0 e)).1, λ p. error.1 (spec.1 (refl, p)))
