-- ===== src/Api/Paths.antt =====
-- The methods of api/v1beta1/verticadb_types.go that name paths, files and types.
use Prim.Native.String.{◌++◌ as append}
use vertica_kubernetes.Prelude.{String, Option, if◌then◌else◌}
use vertica_kubernetes.Prelude.Maps.{lookup}
use vertica_kubernetes.Api.Types.{Subcluster, VerticaDb}

abbrev version_annotation : String
version_annotation = "vertica.com/version"

-- The value, and whether the annotation is there.
unfoldable pub get_vertica_version : VerticaDb → Option String
unfolding lookup
get_vertica_version v = lookup version_annotation v.meta.annotations

abbrev installer_indicator_file : String
installer_indicator_file = "/opt/vertica/config/update_vertica.called.for.uid."

unfoldable pub gen_installer_indicator_file_name : VerticaDb → String
gen_installer_indicator_file_name v = append installer_indicator_file v.meta.uid

-- `%s/%s`
abbrev join_path : String → String → String
join_path a b = append a (append "/" b)

unfoldable pub get_pv_sub_path : VerticaDb → String → String
get_pv_sub_path v sub_path = join_path v.meta.uid sub_path

unfoldable pub get_db_data_path : VerticaDb → String
get_db_data_path v = join_path v.spec.local.data_path v.spec.db_name

unfoldable pub get_communal_path : VerticaDb → String
get_communal_path v =
    if v.spec.communal.include_uid_in_path
    then join_path v.spec.communal.path v.meta.uid
    else v.spec.communal.path

unfoldable pub get_depot_path : VerticaDb → String
get_depot_path v = join_path v.spec.local.depot_path v.spec.db_name

unfoldable pub get_type : Subcluster → String
get_type s = if s.is_primary then "primary" else "secondary"
