-- ===== src/Tests/Finishes.antt =====
-- A call of `ApplyState` that succeeds, at a concrete cluster.
use k8s_operator_libs.Act.{lift, ◌>>◌, when, for_each, fold_each}
use k8s_operator_libs.StringMap.{insert, value_of}
use k8s_operator_libs.StateManager.{nodes_in, is_pod_deletion_enabled}
use k8s_operator_libs.StateManager.Nodes.{
  is_node_unschedulable, is_node_condition_ready, is_upgrade_requested, skip_node_upgrade,
}
use k8s_operator_libs.StateManager.Process.{
  is_drain_enabled, process_done_or_unknown_nodes, process_upgrade_required_node,
  process_upgrade_required_nodes, process_cordon_required_node, process_cordon_required_nodes,
  process_wait_for_jobs_required_nodes, process_pod_deletion_required_nodes, process_drain_nodes,
  process_pod_restart_nodes, process_upgrade_failed_nodes, process_validation_required_nodes,
  process_uncordon_required_nodes,
}
use k8s_operator_libs.StateManager.Apply.{apply_state}
use k8s_operator_libs.StateManager.Counts.{
  get_current_unavailable_nodes, get_upgrades_in_progress, get_upgrades_available,
}
use k8s_operator_libs.Manager.{new_manager}
use k8s_operator_libs.Provider.{state_is_synced, new_node_upgrade_state_provider}
use k8s_operator_libs.Interfaces.{on_node, of_node}
use k8s_operator_libs.Consts.{get_upgrade_state_label_key, get_upgrade_skip_node_label_key}
use k8s_operator_libs.Pods.{new_pod_manager}
use k8s_operator_libs.Client.{reload}
use k8s_operator_libs.Cordon.{new_cordon_manager}
use k8s_operator_libs.Prelude.Int.{◌-ℤ◌}
use k8s_operator_libs.Prelude.{◌≡◌, refl, [], Memᴰ, some}
use k8s_operator_libs.Act.{ok}
use k8s_operator_libs.Manager.Background.{api_label}
use k8s_operator_libs.StateManager.Progress.Whole.{Finishes, apply_state_finishes}
use k8s_operator_libs.Tests.Cluster.{client, label}
use k8s_operator_libs.Tests.Witnesses.{
  scaled, policy, manager, manager-ManagerWrites, system, snapshot, at_node, node_a,
}
use k8s_operator_libs.Tests.Executions.{client-ListLaws, manager-ReadsLabels}
use k8s_operator_libs.Tests.Progress.{manager-ProviderSets}
use k8s_operator_libs.Tests.Snapshots.{build_state_makes}

node_a_listed : Memᴰ (at_node node_a "old") (nodes_in snapshot "cordon-required")
unfolding nodes_in
node_a_listed = Memᴰ.head refl

apply_state_succeeds : (apply_state scaled manager (some snapshot) (some policy) system).0 ≡ ok tt
unfolding lift ◌>>◌ when for_each fold_each insert value_of nodes_in is_pod_deletion_enabled
    is_node_unschedulable is_node_condition_ready is_upgrade_requested skip_node_upgrade
    is_drain_enabled process_done_or_unknown_nodes process_upgrade_required_node
    process_upgrade_required_nodes process_cordon_required_node process_cordon_required_nodes
    process_wait_for_jobs_required_nodes process_pod_deletion_required_nodes process_drain_nodes
    process_pod_restart_nodes process_upgrade_failed_nodes process_validation_required_nodes
    process_uncordon_required_nodes apply_state get_current_unavailable_nodes
    get_upgrades_in_progress get_upgrades_available new_manager state_is_synced
    new_node_upgrade_state_provider on_node of_node get_upgrade_state_label_key
    get_upgrade_skip_node_label_key new_pod_manager reload new_cordon_manager ◌-ℤ◌
apply_state_succeeds = refl

apply_state_finishes_example :
    label (apply_state scaled manager (some snapshot) (some policy) system).1.api "a"
    ≡ "wait-for-jobs-required"
unfolding new_manager
apply_state_finishes_example =
    apply_state_finishes (api_label label) scaled client manager manager-ManagerWrites
      manager-ProviderSets manager-ReadsLabels client-ListLaws "gpu" [] policy system system
      snapshot (at_node node_a "old") "cordon-required" "wait-for-jobs-required" build_state_makes
      refl apply_state_succeeds Finishes.cordoned node_a_listed
