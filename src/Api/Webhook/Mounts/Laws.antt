-- ===== src/Api/Webhook/Mounts/Laws.antt =====
-- What the checks on volumes and mounts let pass.
use text.Mathlib.Text.{◌==◌}
use text.Mathlib.TextEquality.{eq_iff, starts_with_iff}
use text.Mathlib.TextBridge.{IsPrefix}
use vertica_kubernetes.Prelude.{ℕ, ◌≢◌, arith, All}
use vertica_kubernetes.Api.Types.{Volume, VolumeMount, VerticaDb}
use vertica_kubernetes.Api.Constants.{
  local_data_pvc, pod_info_mount_name, licensing_mount_name, hadoop_config_mount_name, certs_root,
}
use vertica_kubernetes.Api.Webhook.Errors.{Checks, report-Checks, each-Checks, then-Checks}
use vertica_kubernetes.Api.Webhook.Mounts.{
  has_valid_volume_name, invalid_paths, check_mount, has_valid_volume_mount_name,
}

-- The volume has no name of a volume that the operator makes.
abbrev pub HasFreeName : Volume → Type 0
HasFreeName vol =
    (vol.name ≢ local_data_pvc)
    × (vol.name ≢ pod_info_mount_name)
    × (vol.name ≢ licensing_mount_name)
    × (vol.name ≢ hadoop_config_mount_name)

pub has_valid_volume_name-Checks :
    (v : VerticaDb) → Checks (has_valid_volume_name v) (All HasFreeName v.spec.volumes)
unfolding has_valid_volume_name
has_valid_volume_name-Checks v =
    each-Checks _ _
      (λ i vol. report-Checks _ _ _ (
        ground (
          arith,
          eq_iff vol.name local_data_pvc,
          eq_iff vol.name pod_info_mount_name,
          eq_iff vol.name licensing_mount_name,
          eq_iff vol.name hadoop_config_mount_name,
        )))
      0 v.spec.volumes

-- The mount is at no path of the operator's, and not below the root of the certificates.
abbrev pub HasFreePath : VerticaDb → VolumeMount → Type 0
HasFreePath v vol_mnt =
    All (λ p. vol_mnt.mount_path ≢ p) (invalid_paths v) × (¬ IsPrefix certs_root vol_mnt.mount_path)

pub has_valid_volume_mount_name-Checks :
    (v : VerticaDb)
    → Checks (has_valid_volume_mount_name v) (All (HasFreePath v) v.spec.volume_mounts)
unfolding has_valid_volume_mount_name check_mount
has_valid_volume_mount_name-Checks v =
    each-Checks (check_mount v) (HasFreePath v) check_mount-Checks 0 v.spec.volume_mounts
  where
    check_mount-Checks : (i : ℕ) (m : VolumeMount) → Checks (check_mount v i m) (HasFreePath v m)
    check_mount-Checks i m =
        then-Checks _ _ _ _
          (each-Checks _ (λ p. m.mount_path ≢ p)
            (λ _ p. report-Checks (m.mount_path == p) _ _ (ground (arith, eq_iff m.mount_path p))) 0
            (invalid_paths v))
          (report-Checks _ _ (¬ IsPrefix certs_root m.mount_path)
            (ground (arith, starts_with_iff m.mount_path certs_root)))
