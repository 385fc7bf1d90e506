-- ===== src/Interfaces.antt =====
-- The Go interfaces through which the state manager reaches the managers. A method that takes a
-- `*corev1.Node` may reload the object behind the pointer, so the object is part of its state.
pub mod Contracts
pub mod Successes
use k8s_operator_libs.Prelude.{String, Bool, Option, List}
use k8s_operator_libs.Act.{Act, gets}
use k8s_operator_libs.Kube.{Node, Pod, DaemonSet}
use k8s_operator_libs.Api.{WaitForCompletionSpec, PodDeletionSpec, DrainSpec}

-- A node object that a pointer refers to, and the world around it.
pub record Held (W : Type 0) : Type 0 where
  pub node : Node
  pub world : W

module _ {W A : Type 0} where
  -- A loop's body, at the object that its pointer refers to.
  unfoldable pub on_node : Node → Act (Held W) A → Act W A
  on_node n m w = let (r, h) = m (record { node = n; world = w }) in (r, h.world)

  -- Code that leaves the object alone.
  unfoldable pub in_world : Act W A → Act (Held W) A
  in_world m h = let (r, w) = m h.world in (r, record h { world = w })

  -- Read the object.
  unfoldable pub of_node : (Node → A) → Act (Held W) A
  unfolding gets
  of_node f = gets (λ h. f h.node)

-- node_upgrade_state_provider.go
pub record NodeUpgradeStateProvider (W : Type 0) : Type 0 where
  pub get_node : String → Act W Node
  pub change_node_upgrade_state : String → Act (Held W) Unit
  pub change_node_upgrade_annotation : String → String → Act (Held W) Unit

-- cordon_manager.go
pub record CordonManager (W : Type 0) : Type 0 where
  pub cordon : Act (Held W) Unit
  pub uncordon : Act (Held W) Unit

-- safe_driver_load_manager.go
pub record SafeDriverLoadManager (W : Type 0) : Type 0 where
  pub is_waiting_for_safe_driver_load : Act (Held W) Bool
  pub unblock_loading : Act (Held W) Unit

-- validation_manager.go
pub record ValidationManager (W : Type 0) : Type 0 where
  pub validate : Act (Held W) Bool

-- pod_manager.go
pub record PodManagerConfig : Type 0 where
  pub nodes : List Node
  pub deletion_spec : Option PodDeletionSpec
  pub wait_for_completion_spec : Option WaitForCompletionSpec
  pub drain_enabled : Bool

pub record PodManager (W : Type 0) : Type 0 where
  pub schedule_check_on_pod_completion : PodManagerConfig → Act W Unit
  pub schedule_pods_restart : List Pod → Act W Unit
  pub schedule_pod_eviction : PodManagerConfig → Act W Unit
  pub get_pod_controller_revision_hash : Pod → Act W String
  pub get_daemonset_controller_revision_hash : DaemonSet → Act W String

-- drain_manager.go
pub record DrainConfiguration : Type 0 where
  pub spec : Option DrainSpec
  pub nodes : List Node

pub record DrainManager (W : Type 0) : Type 0 where
  pub schedule_nodes_drain : DrainConfiguration → Act W Unit
