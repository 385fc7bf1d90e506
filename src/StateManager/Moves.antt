-- ===== src/StateManager/Moves.antt =====
-- The edges of the upgrade: which state a handler may give to a node of its group, and on what
-- evidence. This is the state machine that the comments of consts.go and the handlers describe.
use k8s_operator_libs.Prelude.{String, ◌≡◌, true, false, Memᴰ}
use k8s_operator_libs.Api.{DriverUpgradePolicySpec}
use k8s_operator_libs.Consts.{
  upgrade_state_unknown, upgrade_state_upgrade_required, upgrade_state_cordon_required,
  upgrade_state_wait_for_jobs_required, upgrade_state_pod_deletion_required,
  upgrade_state_drain_required, upgrade_state_pod_restart_required,
  upgrade_state_validation_required, upgrade_state_uncordon_required, upgrade_state_done,
  upgrade_state_failed,
}
use k8s_operator_libs.StateManager.{
  NodeUpgradeState, ClusterUpgradeState, ClusterUpgradeStateManager, is_orphaned_pod, nodes_in,
  is_pod_deletion_enabled, is_validation_enabled,
}
use k8s_operator_libs.StateManager.Nodes.{is_driver_pod_failing, is_pod_running_and_ready}
use k8s_operator_libs.StateManager.Process.{no_pod_selector, is_drain_enabled}

-- The two states after a driver that works again: uncordon, or done with no uncordon.
pub data Ending : String → Type 0 where
  to_uncordon : Ending upgrade_state_uncordon_required
  to_done : Ending upgrade_state_done

-- The driver pod belongs to a daemon set, and it runs with every container ready.
pub record IsRestored (nus : NodeUpgradeState) : Type 0 where
  pub owned : is_orphaned_pod nus ≡ false
  pub ready : is_pod_running_and_ready nus.driver_pod ≡ true

module _ {W : Type 0} (m : ClusterUpgradeStateManager W) (policy : DriverUpgradePolicySpec) where
  -- `Move group nus state`: the node of `nus`, in the snapshot's group `group`, may get `state`.
  pub data Move : String → NodeUpgradeState → String → Type 0 where
    settle : {nus : NodeUpgradeState} → Move upgrade_state_unknown nus upgrade_state_done
    require :
        {nus : NodeUpgradeState} → Move upgrade_state_unknown nus upgrade_state_upgrade_required
    require_again :
        {nus : NodeUpgradeState} → Move upgrade_state_done nus upgrade_state_upgrade_required
    start :
        {nus : NodeUpgradeState}
        → Move upgrade_state_upgrade_required nus upgrade_state_cordon_required
    cordon :
        {nus : NodeUpgradeState}
        → Move upgrade_state_cordon_required nus upgrade_state_wait_for_jobs_required
    skip_jobs :
        {nus : NodeUpgradeState}
        → no_pod_selector policy.wait_for_completion ≡ true
        → is_pod_deletion_enabled m ≡ false
        → Move upgrade_state_wait_for_jobs_required nus upgrade_state_drain_required
    leave_jobs :
        {nus : NodeUpgradeState}
        → Move upgrade_state_wait_for_jobs_required nus upgrade_state_pod_deletion_required
    skip_deletion :
        {nus : NodeUpgradeState}
        → is_pod_deletion_enabled m ≡ false
        → Move upgrade_state_pod_deletion_required nus upgrade_state_drain_required
    skip_drain :
        {nus : NodeUpgradeState}
        → is_drain_enabled policy.drain_spec ≡ false
        → Move upgrade_state_drain_required nus upgrade_state_pod_restart_required
    to_validation :
        {nus : NodeUpgradeState}
        → is_validation_enabled m ≡ true
        → IsRestored nus
        → Move upgrade_state_pod_restart_required nus upgrade_state_validation_required
    skip_validation :
        {nus : NodeUpgradeState} {state : String}
        → is_validation_enabled m ≡ false
        → IsRestored nus
        → Ending state
        → Move upgrade_state_pod_restart_required nus state
    restart_failed :
        {nus : NodeUpgradeState}
        → is_orphaned_pod nus ≡ false
        → is_driver_pod_failing nus.driver_pod ≡ true
        → Move upgrade_state_pod_restart_required nus upgrade_state_failed
    recover :
        {nus : NodeUpgradeState} {state : String}
        → IsRestored nus
        → Ending state
        → Move upgrade_state_failed nus state
    validate :
        {nus : NodeUpgradeState} {state : String}
        → Ending state
        → Move upgrade_state_validation_required nus state
    validation_failed :
        {nus : NodeUpgradeState} → Move upgrade_state_validation_required nus upgrade_state_failed
    uncordon :
        {nus : NodeUpgradeState} → Move upgrade_state_uncordon_required nus upgrade_state_done

  -- The node called `name` stands in the snapshot, and its group has an edge to `state`.
  pub record Moved (c : ClusterUpgradeState) (name state : String) : Type 0 where
    pub group : String
    pub nus : NodeUpgradeState
    pub member : Memᴰ nus (nodes_in c group)
    pub same_name : nus.node.name ≡ name
    pub move : Move group nus state
