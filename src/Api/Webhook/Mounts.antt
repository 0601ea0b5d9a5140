-- ===== src/Api/Webhook/Mounts.antt =====
-- The checks on the volumes and mounts that a user adds: hasValidVolumeName and
-- hasValidVolumeMountName.
pub mod Laws
use text.Mathlib.Text.{◌==◌}
use text.Mathlib.TextEquality.{eq_iff, starts_with_iff}
use text.Mathlib.TextBridge.{IsPrefix}
use vertica_kubernetes.Prelude.{
  ℕ, ◌≡◌, ◌≢◌, refl, ◌↔◌, String, List, [], ◌∷◌, ◌++◌, Bool, true, false, ◌||◌, arith, All,
}
use vertica_kubernetes.Prelude.Text.{has_prefix}
use vertica_kubernetes.Api.Types.{Volume, VolumeMount, VerticaDb}
use vertica_kubernetes.Api.Constants.{
  local_data_pvc, pod_info_mount_name, licensing_mount_name, hadoop_config_mount_name, mount_paths,
  certs_root,
}
use vertica_kubernetes.Api.Webhook.Errors.{
  child, index, ErrorList, invalid, report, each, Checks, report-Checks, each-Checks, then-Checks,
}

unfoldable pub has_valid_volume_name : VerticaDb → ErrorList → ErrorList
has_valid_volume_name v =
    each
      (λ i vol.
        report
          (vol.name == local_data_pvc
            || vol.name == pod_info_mount_name
            || vol.name == licensing_mount_name
            || vol.name == hadoop_config_mount_name)
          (invalid (child "volumes" ∷ index i ∷ child "name" ∷ [])
            "conflicts with the name of one of the internally generated volumes"))
      0 v.spec.volumes

-- The paths that no mount may have.
abbrev pub invalid_paths : VerticaDb → List String
invalid_paths v = mount_paths ++ v.spec.local.data_path ∷ v.spec.local.depot_path ∷ []

-- The checks of the mount `vol_mnt` at index `i`.
unfoldable pub check_mount : VerticaDb → ℕ → VolumeMount → ErrorList → ErrorList
check_mount v i vol_mnt all_errs =
    let path = child "volumeMounts" ∷ index i ∷ child "mountPath" ∷ [] in
    report (has_prefix vol_mnt.mount_path certs_root)
      (invalid path "cannot shared the same path prefix as the certs root '/certs'")
      (each
        (λ _ p.
          report (vol_mnt.mount_path == p)
            (invalid path "conflicts with the mount path of one of the internally generated paths"))
        0 (invalid_paths v) all_errs)

unfoldable pub has_valid_volume_mount_name : VerticaDb → ErrorList → ErrorList
unfolding check_mount
has_valid_volume_mount_name v = each (check_mount v) 0 v.spec.volume_mounts
