-- ===== src/StateManager/Transitions/Labels.antt =====
-- A snapshot by `BuildState` and a call of `ApplyState` on it, in upgrade_state.go.
use k8s_operator_libs.Prelude.{String, ◌≡◌}
use k8s_operator_libs.StringMap.{StringMap, value_of}
use k8s_operator_libs.Api.{DriverUpgradePolicySpec}
use k8s_operator_libs.Consts.{get_upgrade_state_label_key}
use k8s_operator_libs.Client.{Client}
use k8s_operator_libs.StateManager.{NodeUpgradeState, ClusterUpgradeStateManager}
use k8s_operator_libs.StateManager.Moves.{Move}

module _ {W : Type 0} (m : ClusterUpgradeStateManager W) (policy : DriverUpgradePolicySpec) where
  -- The node called `name` was read with a label from which there is an edge to `state`.
  pub record Edge (name state : String) : Type 0 where
    pub nus : NodeUpgradeState
    pub same_name : nus.node.name ≡ name
    pub edge :
        Move m policy
          (value_of (get_upgrade_state_label_key m.driver_name) nus.node.labels)
          nus
          state
