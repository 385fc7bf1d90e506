-- ===== src/StateManager/Transitions/Reconcile.antt =====
-- The whole of `ApplyState`: the state machine of the node labels.
use k8s_operator_libs.Prelude.{String, ◌≡◌, ◌⊎◌, some}
use k8s_operator_libs.Prelude.Int.{ℤ}
use k8s_operator_libs.Act.Follows.{Preorder, Follows, follows_rules, Follows-pure, Follows-if}
use k8s_operator_libs.Api.{DriverUpgradePolicySpec}
use k8s_operator_libs.Consts.{upgrade_state_unknown, upgrade_state_done}
use k8s_operator_libs.Interfaces.Contracts.{writes}
use k8s_operator_libs.StateManager.{ClusterUpgradeState, ClusterUpgradeStateManager}
use k8s_operator_libs.StateManager.Apply.{ScaledValue, process_all, apply_enabled, apply_state}
use k8s_operator_libs.StateManager.Moves.{Move, Moved}
use k8s_operator_libs.StateManager.Transitions.{ManagerWrites, Allowed}
use k8s_operator_libs.StateManager.Transitions.Handlers.{
  process_done_or_unknown_nodes-Follows, process_upgrade_required_nodes-Follows,
  process_cordon_required_nodes-Follows, process_wait_for_jobs_required_nodes-Follows,
  process_pod_deletion_required_nodes-Follows, process_drain_nodes-Follows,
  process_uncordon_required_nodes-Follows,
}
use k8s_operator_libs.StateManager.Transitions.Restart.{
  process_pod_restart_nodes-Follows, process_upgrade_failed_nodes-Follows,
  process_validation_required_nodes-Follows,
}

pub ruleset handlers = (
  process_upgrade_required_nodes-Follows, process_cordon_required_nodes-Follows,
  process_wait_for_jobs_required_nodes-Follows, process_pod_deletion_required_nodes-Follows,
  process_drain_nodes-Follows, process_pod_restart_nodes-Follows,
  process_upgrade_failed_nodes-Follows, process_validation_required_nodes-Follows,
  process_uncordon_required_nodes-Follows,
)

module _ {W : Type 0} (state_label : W → String → String) (scaled_value : ScaledValue)
    (m : ClusterUpgradeStateManager W) (laws : ManagerWrites state_label m)
    (policy : DriverUpgradePolicySpec) (c : ClusterUpgradeState) where
  abbrev allowed : Preorder W
  allowed = Allowed state_label m laws policy c

  process_all-Follows :
      (upgrades_available : ℤ) → Follows allowed (process_all m c policy upgrades_available)
  unfolding process_all
  process_all-Follows upgrades_available =
      let unknown =
        process_done_or_unknown_nodes-Follows state_label m laws policy c upgrade_state_unknown
          (λ nus. Move.require) (λ _ nus. Move.settle) in
      let done =
        process_done_or_unknown_nodes-Follows state_label m laws policy c upgrade_state_done
          (λ nus. Move.require_again) (λ h. cc) in
      search (follows_rules, handlers) depth 20

  apply_enabled-Follows : Follows allowed (apply_enabled scaled_value m c policy)
  unfolding apply_enabled
  apply_enabled-Follows = search (follows_rules, process_all-Follows)

  apply_state-Follows : Follows allowed (apply_state scaled_value m (some c) (some policy))
  unfolding apply_state
  apply_state-Follows = Follows-if _ _ _ (λ _. Follows-pure tt) (λ _. apply_enabled-Follows)

-- For any managers that meet the contracts of the interfaces: one call of `ApplyState`, whether it
-- succeeds or fails: every node's state label is as before, or the node stands in the snapshot and
-- its group has an edge to the new label, with the evidence that `Move` asks for. So no node skips
-- a state, and no node outside the snapshot changes its state.
pub apply_state-Moved :
    {W : Type 0} (state_label : W → String → String) (scaled_value : ScaledValue)
    (m : ClusterUpgradeStateManager W) (laws : ManagerWrites state_label m)
    (policy : DriverUpgradePolicySpec) (c : ClusterUpgradeState) (w : W) (name : String)
    → let w' = (apply_state scaled_value m (some c) (some policy) w).1 in
      (state_label w' name ≡ state_label w name) ⊎ Moved m policy c name (state_label w' name)
unfolding writes
apply_state-Moved state_label scaled_value m laws policy c w name =
    (apply_state-Follows state_label scaled_value m laws policy c).at w name
