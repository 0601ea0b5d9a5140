-- ===== src/Api/Types.antt =====
-- api/v1beta1/verticadb_types.go and verticaautoscaler_types.go: the structs of the two custom
-- resources. A slice or a number is as in Go: an `int32` and an `int` are integers, a slice that
-- the code compares by reflect.DeepEqual is an option of a list, whose `none` is nil.
use mathlib.Core.Bool.{Bool}
use native.Mathlib.Decide.{ℕ_discrete}
use vertica_kubernetes.Prelude.{String, List, Option}
use vertica_kubernetes.Prelude.Int.{ℤ}
use vertica_kubernetes.Prelude.Text.{String-discrete}

-- A value of a Kubernetes library type that the code modelled here only copies, or compares by
-- reflect.DeepEqual: the text of an encoding that is equal exactly for equal values.
abbrev pub Opaque : Type 0
Opaque = String

pub record Affinity : Type 0 where
  pub node_affinity : Opaque
  pub pod_affinity : Opaque
  pub pod_anti_affinity : Opaque

pub record Subcluster : Type 0 where
  pub name : String
  pub size : ℤ  -- int32
  pub is_primary : Bool
  pub is_transient : Bool
  pub image_override : String
  pub node_selector : Opaque
  pub affinity : Affinity
  pub priority_class_name : String
  pub tolerations : Opaque
  pub resources : Opaque
  pub service_type : String
  pub service_name : String
  pub node_port : ℤ  -- int32
  pub external_ips : Option (List String)
  pub load_balancer_ip : String
  pub service_annotations : Opaque

ℤ-discrete : Discrete ℤ
ℤ-discrete = hlevel ℕ_discrete

pub Subcluster-discrete : Discrete Subcluster
Subcluster-discrete = hlevel (String-discrete, ℤ-discrete)

pub record SubclusterSelection : Type 0 where
  pub names : Option (List String)
  pub template : Subcluster

pub record SubclusterPodCount : Type 0 where
  pub subcluster_index : ℤ
  pub pod_count : ℤ

pub record CommunalStorage : Type 0 where
  pub path : String
  pub include_uid_in_path : Bool
  pub endpoint : String
  pub credential_secret : String
  pub ca_file : String
  pub region : String
  pub hadoop_config : String
  pub kerberos_service_name : String
  pub kerberos_realm : String

pub record LocalStorage : Type 0 where
  pub storage_class : String
  pub request_size : Opaque  -- resource.Quantity, compared by its `Cmp`
  pub data_path : String
  pub depot_path : String

-- corev1.Volume and corev1.VolumeMount: the field that the code reads, and the rest.
pub record Volume : Type 0 where
  pub name : String
  pub others : Opaque

pub record VolumeMount : Type 0 where
  pub mount_path : String
  pub others : Opaque

pub record VerticaDbSpec : Type 0 where
  pub image_pull_policy : String
  pub image_pull_secrets : List String
  pub image : String
  pub labels : List (String × String)
  pub annotations : List (String × String)
  pub auto_restart_vertica : Bool
  pub db_name : String
  pub shard_count : ℤ
  pub superuser_password_secret : String
  pub license_secret : String
  pub ignore_cluster_lease : Bool
  pub init_policy : String
  pub upgrade_policy : String
  pub ignore_upgrade_path : Bool
  pub revive_order : List SubclusterPodCount
  pub restart_timeout : ℤ
  pub communal : CommunalStorage
  pub local : LocalStorage
  pub subclusters : List Subcluster
  pub temporary_subcluster_routing : SubclusterSelection
  pub k_safety : String
  pub requeue_time : ℤ
  pub upgrade_requeue_time : ℤ
  pub sidecars : Opaque
  pub volumes : List Volume
  pub volume_mounts : List VolumeMount
  pub cert_secrets : List String
  pub kerberos_secret : String
  pub ssh_secret : String
  pub encrypt_spread_comm : String
  pub security_context : Opaque

pub record VerticaDbPodStatus : Type 0 where
  pub installed : Bool
  pub added_to_db : Bool
  pub vnode_name : String
  pub up_node : Bool
  pub read_only : Bool

pub record SubclusterStatus : Type 0 where
  pub name : String
  pub install_count : ℤ  -- int32
  pub added_to_db_count : ℤ  -- int32
  pub up_node_count : ℤ  -- int32
  pub read_only_count : ℤ  -- int32
  pub detail : List VerticaDbPodStatus

-- Also VerticaAutoscalerCondition, which has the same fields.
pub record VerticaDbCondition : Type 0 where
  pub type_name : String
  pub status : String
  pub last_transition_time : ℤ  -- in seconds

pub record VerticaDbStatus : Type 0 where
  pub install_count : ℤ  -- int32
  pub added_to_db_count : ℤ  -- int32
  pub up_node_count : ℤ  -- int32
  pub subcluster_count : ℤ  -- int32
  pub subclusters : List SubclusterStatus
  pub conditions : List VerticaDbCondition
  pub upgrade_status : String

-- The parts of metav1.ObjectMeta that the code reads.
pub record ObjectMeta : Type 0 where
  pub name : String
  pub namespace : String
  pub uid : String
  pub annotations : List (String × String)

pub record VerticaDb : Type 0 where
  pub meta : ObjectMeta
  pub spec : VerticaDbSpec
  pub status : VerticaDbStatus

pub record VerticaAutoscalerSpec : Type 0 where
  pub vertica_db_name : String
  pub scaling_granularity : String
  pub service_name : String
  pub template : Subcluster
  pub target_size : ℤ  -- int32

pub record VerticaAutoscalerStatus : Type 0 where
  pub scaling_count : ℤ
  pub current_size : ℤ  -- int32
  pub selector : String
  pub conditions : List VerticaDbCondition

pub record VerticaAutoscaler : Type 0 where
  pub meta : ObjectMeta
  pub spec : VerticaAutoscalerSpec
  pub status : VerticaAutoscalerStatus
