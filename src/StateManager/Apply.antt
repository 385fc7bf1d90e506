-- ===== src/StateManager/Apply.antt =====
-- `ApplyState` of upgrade_state.go.
use k8s_operator_libs.Prelude.{Bool, not, Option, none, some, if◌then◌else◌}
use k8s_operator_libs.Prelude.Int.{ℤ, pos}
use k8s_operator_libs.Act.{Error, Result, Act, pure, raise, lift, ◌>>=◌, ◌>>◌}
use k8s_operator_libs.Kube.{IntOrString}
use k8s_operator_libs.Api.{DriverUpgradePolicySpec}
use k8s_operator_libs.Consts.{upgrade_state_unknown, upgrade_state_done}
use k8s_operator_libs.StateManager.{ClusterUpgradeState, ClusterUpgradeStateManager}
use k8s_operator_libs.StateManager.Counts.{get_total_managed_nodes, get_upgrades_available}
use k8s_operator_libs.StateManager.Process.{
  process_done_or_unknown_nodes, process_upgrade_required_nodes, process_cordon_required_nodes,
  process_wait_for_jobs_required_nodes, is_drain_enabled, process_pod_deletion_required_nodes,
  process_drain_nodes, process_pod_restart_nodes, process_upgrade_failed_nodes,
  process_validation_required_nodes, process_uncordon_required_nodes,
}

-- `intstr.GetScaledValueFromIntOrPercent`, which apimachinery implements.
abbrev pub ScaledValue : Type 0
ScaledValue = IntOrString → ℤ → Bool → Result ℤ

-- `maxUnavailable`: by default all nodes, else scaled and rounded up.
unfoldable pub max_unavailable_of :
    ScaledValue → DriverUpgradePolicySpec → ClusterUpgradeState → Result ℤ
max_unavailable_of scaled_value policy c = elim policy.max_unavailable [
  | none ↦ Result.ok (pos (get_total_managed_nodes c))
  | some v ↦ scaled_value v (pos (get_total_managed_nodes c)) Bool.true
]

module _ {W : Type 0} (m : ClusterUpgradeStateManager W) where
  -- The handlers, in the order in which they are called.
  unfoldable pub process_all : ClusterUpgradeState → DriverUpgradePolicySpec → ℤ → Act W Unit
  process_all c policy upgrades_available = do
    process_done_or_unknown_nodes m c upgrade_state_unknown
    process_done_or_unknown_nodes m c upgrade_state_done
    process_upgrade_required_nodes m c upgrades_available
    process_cordon_required_nodes m c
    process_wait_for_jobs_required_nodes m c policy.wait_for_completion
    process_pod_deletion_required_nodes m c policy.pod_deletion (is_drain_enabled policy.drain_spec)
    process_drain_nodes m c policy.drain_spec
    process_pod_restart_nodes m c
    process_upgrade_failed_nodes m c
    process_validation_required_nodes m c
    process_uncordon_required_nodes m c

module _ {W : Type 0} (scaled_value : ScaledValue) (m : ClusterUpgradeStateManager W) where
  unfoldable pub apply_enabled : ClusterUpgradeState → DriverUpgradePolicySpec → Act W Unit
  unfolding process_all max_unavailable_of
  apply_enabled c policy = do
    max_unavailable ← lift (max_unavailable_of scaled_value policy c)
    process_all m c policy (get_upgrades_available c policy.max_parallel_upgrades max_unavailable)

  unfoldable pub apply_state :
      Option ClusterUpgradeState → Option DriverUpgradePolicySpec → Act W Unit
  unfolding apply_enabled
  apply_state none _ = raise (Error.message "currentState should not be empty")
  apply_state (some c) none = pure tt
  apply_state (some c) (some policy) =
      if not policy.auto_upgrade then pure tt else apply_enabled c policy
