-- ===== src/Manager.antt =====
-- The state manager with the managers of this repository: `NewClusterUpgradeStateManager` and its
-- options, in upgrade_state.go.
pub mod Labels
pub mod Background
pub mod Contract
pub mod Reconcile
pub mod Goroutines
pub mod Evictions
use k8s_operator_libs.Prelude.{String, Bool, true, false, Option, none, some, ◌==◌, if◌then◌else◌}
use k8s_operator_libs.Kube.{Pod}
use k8s_operator_libs.Client.{Client}
use k8s_operator_libs.System.{System}
use k8s_operator_libs.Provider.{new_node_upgrade_state_provider}
use k8s_operator_libs.Cordon.{new_cordon_manager}
use k8s_operator_libs.SafeDriverLoad.{new_safe_driver_load_manager}
use k8s_operator_libs.Validation.{new_validation_manager}
use k8s_operator_libs.Drain.{new_drain_manager}
use k8s_operator_libs.Pods.{new_pod_manager}
use k8s_operator_libs.StateManager.{ClusterUpgradeStateManager}

-- The nil `PodDeletionFilter`: it is not called while the deletion of pods is not enabled.
abbrev no_filter : Pod → Bool
no_filter _ = false

module _ {K : Type 0} (client : Client (System K)) (driver_name : String) where
  unfoldable pub new_cluster_upgrade_state_manager : ClusterUpgradeStateManager (System K)
  new_cluster_upgrade_state_manager =
      let provider = new_node_upgrade_state_provider client driver_name in
      record {
        driver_name = driver_name;
        drain_manager = new_drain_manager;
        pod_manager = new_pod_manager client provider no_filter driver_name;
        cordon_manager = new_cordon_manager client;
        node_upgrade_state_provider = provider;
        validation_manager = new_validation_manager client provider driver_name "";
        safe_driver_load_manager = new_safe_driver_load_manager provider driver_name;
        pod_deletion_state_enabled = false;
        validation_state_enabled = false;
      }

module _ {K : Type 0} (client : Client (System K)) (m : ClusterUpgradeStateManager (System K)) where
  unfoldable pub with_pod_deletion_enabled :
      Option (Pod → Bool) → ClusterUpgradeStateManager (System K)
  with_pod_deletion_enabled none = m
  with_pod_deletion_enabled (some filter) = record m {
    pod_manager = new_pod_manager client m.node_upgrade_state_provider filter m.driver_name;
    pod_deletion_state_enabled = true;
  }

  unfoldable pub with_validation_enabled : String → ClusterUpgradeStateManager (System K)
  with_validation_enabled pod_selector = if pod_selector == "" then m else record m {
    validation_manager =
        new_validation_manager client m.node_upgrade_state_provider m.driver_name pod_selector;
    validation_state_enabled = true;
  }

-- A manager with both options as an operator sets them: `none` and "" leave them off.
unfoldable pub new_manager :
    {K : Type 0}
    → Client (System K)
    → String
    → Option (Pod → Bool)
    → String
    → ClusterUpgradeStateManager (System K)
unfolding new_cluster_upgrade_state_manager with_pod_deletion_enabled with_validation_enabled
new_manager client driver_name filter pod_selector =
    with_validation_enabled client
      (with_pod_deletion_enabled client (new_cluster_upgrade_state_manager client driver_name)
        filter)
      pod_selector
