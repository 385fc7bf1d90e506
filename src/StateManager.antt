-- ===== src/StateManager.antt =====
-- pkg/upgrade/upgrade_state.go: the snapshot of the cluster and the state manager with its managers.
pub mod Nodes
pub mod Counts
pub mod Process
pub mod Moves
pub mod Transitions
pub mod Progress
pub mod Slots
pub mod Restarts
pub mod Apply
pub mod Build
use k8s_operator_libs.Prelude.{String, Bool, Option, none, some, List, [], is_none}
use k8s_operator_libs.StringMap.{StringMap, lookup}
use k8s_operator_libs.Kube.{Node, Pod, DaemonSet}
use k8s_operator_libs.Interfaces.{
  NodeUpgradeStateProvider, CordonManager, SafeDriverLoadManager, ValidationManager, PodManager,
  DrainManager,
}

-- A node, the driver pod on it and the daemon set that controls the pod.
pub record NodeUpgradeState : Type 0 where
  pub node : Node
  pub driver_pod : Pod
  pub driver_daemon_set : Option DaemonSet

unfoldable pub is_orphaned_pod : NodeUpgradeState → Bool
is_orphaned_pod nus = is_none nus.driver_daemon_set

-- The nodes of the cluster, grouped by the value of their state label.
pub record ClusterUpgradeState : Type 0 where
  pub node_states : StringMap (List NodeUpgradeState)

unfoldable pub new_cluster_upgrade_state : ClusterUpgradeState
new_cluster_upgrade_state = record { node_states = [] }

-- `NodeStates[state]`, where a missing key reads as the empty slice.
unfoldable pub nodes_in : ClusterUpgradeState → String → List NodeUpgradeState
unfolding lookup
nodes_in c state = elim (lookup state c.node_states) [ none ↦ [] | some l ↦ l ]

-- `ClusterUpgradeStateManagerImpl`, with the package's `DriverName`.
pub record ClusterUpgradeStateManager (W : Type 0) : Type 0 where
  pub driver_name : String
  pub drain_manager : DrainManager W
  pub pod_manager : PodManager W
  pub cordon_manager : CordonManager W
  pub node_upgrade_state_provider : NodeUpgradeStateProvider W
  pub validation_manager : ValidationManager W
  pub safe_driver_load_manager : SafeDriverLoadManager W
  pub pod_deletion_state_enabled : Bool
  pub validation_state_enabled : Bool

module _ {W : Type 0} where
  unfoldable pub is_pod_deletion_enabled : ClusterUpgradeStateManager W → Bool
  is_pod_deletion_enabled m = m.pod_deletion_state_enabled

  unfoldable pub is_validation_enabled : ClusterUpgradeStateManager W → Bool
  is_validation_enabled m = m.validation_state_enabled
