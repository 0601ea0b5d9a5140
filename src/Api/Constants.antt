-- ===== src/Api/Constants.antt =====
-- The constants of api/v1beta1 (verticadb_types.go, verticadb_webhook.go) and pkg/paths/paths.go.
use Prim.Native.Nat.{ℕ}
use vertica_kubernetes.Prelude.{String, List, [], ◌∷◌}
use vertica_kubernetes.Prelude.Text.{codes}

abbrev pub init_policy_create : String
init_policy_create = "Create"

abbrev pub init_policy_revive : String
init_policy_revive = "Revive"

abbrev pub init_policy_schedule_only : String
init_policy_schedule_only = "ScheduleOnly"

abbrev pub k_safety0 : String
k_safety0 = "0"

abbrev pub k_safety1 : String
k_safety1 = "1"

abbrev pub encrypt_spread_comm_with_vertica : String
encrypt_spread_comm_with_vertica = "vertica"

abbrev pub condition_true : String
condition_true = "True"

abbrev pub condition_false : String
condition_false = "False"

-- corev1.ServiceType
abbrev pub service_type_load_balancer : String
service_type_load_balancer = "LoadBalancer"

abbrev pub service_type_node_port : String
service_type_node_port = "NodePort"

abbrev pub service_type_external_name : String
service_type_external_name = "ExternalName"

abbrev pub service_type_cluster_ip : String
service_type_cluster_ip = "ClusterIP"

-- The condition indexes (`iota`).
abbrev pub image_change_in_progress_index : ℕ
image_change_in_progress_index = 2

abbrev pub online_upgrade_in_progress_index : ℕ
online_upgrade_in_progress_index = 4

abbrev pub invalid_db_name_chars : List ℕ
invalid_db_name_chars = codes "$=<>`'^\\\".@*?#&/-:;{}()[] \\~!%+|,"

abbrev pub db_name_length_limit : ℕ
db_name_length_limit = 30

abbrev pub port_lower_bound : ℕ
port_lower_bound = 30000

abbrev pub port_upper_bound : ℕ
port_upper_bound = 32767

abbrev pub s3_prefix : String
s3_prefix = "s3://"

abbrev pub gcloud_prefix : String
gcloud_prefix = "gs://"

abbrev pub azure_prefix : String
azure_prefix = "azb://"

abbrev pub hdfs_prefixes : List String
hdfs_prefixes = "webhdfs://" ∷ "swebhdfs://" ∷ []

abbrev pub default_s3_region : String
default_s3_region = "us-east-1"

abbrev pub default_gcloud_region : String
default_gcloud_region = "US-EAST1"

abbrev pub default_gcloud_endpoint : String
default_gcloud_endpoint = "https://storage.googleapis.com"

-- The names of the volumes that the operator generates.
abbrev pub local_data_pvc : String
local_data_pvc = "local-data"

abbrev pub pod_info_mount_name : String
pod_info_mount_name = "podinfo"

abbrev pub licensing_mount_name : String
licensing_mount_name = "licensing"

abbrev pub hadoop_config_mount_name : String
hadoop_config_mount_name = "hadoop-conf"

abbrev pub certs_root : String
certs_root = "/certs"

abbrev pub mount_paths : List String
mount_paths =
    "/home/dbadmin/local-data" ∷ "/home/dbadmin/licensing/ce/vertica_community_edition.license.key"
    ∷ "/home/dbadmin/licensing/mnt" ∷ "/etc/hadoop" ∷ "/opt/vertica/config"
    ∷ "/opt/vertica/config/share" ∷ "/opt/vertica/config/logrotate" ∷ "/opt/vertica/log"
    ∷ "/etc/podinfo" ∷ "/opt/vertica/config/admintools.conf" ∷ "/home/dbadmin/auth_parms.conf"
    ∷ "/opt/vertica/config/d5415f948449e9d4c421b568f2411140.dat"
    ∷ "/opt/vertica/config/accept_eula.py" ∷ certs_root ∷ "/etc/krb5.conf" ∷ "/etc/krb5/krb5.keytab"
    ∷ "/home/dbadmin/.ssh" ∷ []
