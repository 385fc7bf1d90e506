-- ===== src/Kube.antt =====
-- The fields of the Kubernetes objects (k8s.io/api, apps/v1 and core/v1) that the library reads.
use k8s_operator_libs.Prelude.{String, Bool, Option, ℕ, List}
use k8s_operator_libs.Prelude.Int.{ℤ}
use k8s_operator_libs.StringMap.{StringMap}

pub record NodeCondition : Type 0 where
  pub kind : String  -- `Type`
  pub status : String

pub record Node : Type 0 where
  pub name : String
  pub labels : StringMap String
  pub annotations : StringMap String
  pub unschedulable : Bool  -- `Spec.Unschedulable`
  pub conditions : List NodeCondition

pub record ContainerStatus : Type 0 where
  pub ready : Bool
  pub restart_count : ℤ  -- int32

pub record OwnerReference : Type 0 where
  pub name : String
  pub uid : String

pub record Pod : Type 0 where
  pub name : String
  pub namespace : String
  pub labels : StringMap String
  pub owner_references : List OwnerReference
  pub node_name : String  -- `Spec.NodeName`
  pub phase : String  -- `Status.Phase`
  pub container_statuses : List ContainerStatus
  pub init_container_statuses : List ContainerStatus
  pub deletion_timestamp : Option ℕ  -- `none` is the zero time

pub record DaemonSet : Type 0 where
  pub name : String
  pub namespace : String
  pub uid : String
  pub match_labels : StringMap String  -- `Spec.Selector.MatchLabels`
  pub desired_number_scheduled : ℤ  -- int32

pub record ControllerRevision : Type 0 where
  pub name : String
  pub revision : ℤ  -- int64

-- The constants of core/v1 that the library compares with.
abbrev pub pod_running : String
pod_running = "Running"

abbrev pub pod_pending : String
pod_pending = "Pending"

abbrev pub node_ready : String
node_ready = "Ready"

abbrev pub condition_true : String
condition_true = "True"

-- `intstr.IntOrString`
pub data IntOrString : Type 0 where
  int_value : ℤ → IntOrString
  string_value : String → IntOrString
