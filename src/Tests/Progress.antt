-- ===== src/Tests/Progress.antt =====
-- Handlers that move on every node of their group, at a concrete cluster.
use k8s_operator_libs.Consts.{get_upgrade_state_label_key, get_upgrade_requested_annotation_key}
use k8s_operator_libs.StringMap.{lookup, insert, value_of}
use k8s_operator_libs.Client.{reload}
use k8s_operator_libs.Provider.{new_node_upgrade_state_provider, state_is_synced}
use k8s_operator_libs.Cordon.{new_cordon_manager}
use k8s_operator_libs.Interfaces.{of_node, on_node, in_world}
use k8s_operator_libs.Prelude.{◌≡◌, refl, none, [], ◌∷◌, Memᴰ}
use k8s_operator_libs.Act.{ok, for_each, pure, ◌>>◌, ◌>>=◌, when, continue, gets}
use k8s_operator_libs.StateManager.{ClusterUpgradeState, NodeUpgradeState, nodes_in}
use k8s_operator_libs.StateManager.Process.{
  process_done_or_unknown_node, process_done_or_unknown_nodes, process_cordon_required_nodes,
  process_cordon_required_node,
}
use k8s_operator_libs.SafeDriverLoad.{new_safe_driver_load_manager}
use k8s_operator_libs.StateManager.Nodes.{is_upgrade_requested, pod_in_sync_with_ds}
use k8s_operator_libs.StateManager.Progress.{process_cordon_required_nodes_progress}
use k8s_operator_libs.StateManager.Progress.Settled.{Settled, process_unknown_nodes_settles}
use k8s_operator_libs.Interfaces.Successes.{ProviderSets}
use k8s_operator_libs.Manager.{
  new_manager, new_cluster_upgrade_state_manager, with_pod_deletion_enabled,
  with_validation_enabled,
}
use k8s_operator_libs.Manager.Background.{api_label}
use k8s_operator_libs.Provider.Sets.{provider-ProviderSets}
use k8s_operator_libs.Tests.Cluster.{
  client, label, driver, client-PollLaws, client-LabelLaws, client-PatchSets,
}
use k8s_operator_libs.Tests.Witnesses.{manager, manager-ManagerWrites, system, at_node, node_a}

pub manager-ProviderSets : ProviderSets (api_label label) manager.node_upgrade_state_provider
unfolding new_manager new_cluster_upgrade_state_manager with_pod_deletion_enabled
    with_validation_enabled
manager-ProviderSets =
    provider-ProviderSets client (api_label label) driver client-PollLaws client-LabelLaws
      client-PatchSets

-- Node "a" alone, in each of two groups.
abbrev entry_a : NodeUpgradeState
entry_a = at_node node_a "old"

-- Its driver pod has no daemon set.
abbrev orphan_a : NodeUpgradeState
orphan_a = record entry_a { driver_daemon_set = none }

abbrev groups : ClusterUpgradeState
groups = record { node_states = ("cordon-required", entry_a ∷ []) ∷ ("", orphan_a ∷ []) ∷ [] }

in_cordon : Memᴰ entry_a (nodes_in groups "cordon-required")
unfolding nodes_in
in_cordon = Memᴰ.head refl

in_unknown : Memᴰ orphan_a (nodes_in groups "")
unfolding nodes_in
in_unknown = Memᴰ.head refl

cordon_succeeds : (process_cordon_required_nodes manager groups system).0 ≡ ok tt
unfolding process_cordon_required_nodes for_each nodes_in ◌>>◌ on_node process_cordon_required_node
    new_manager new_cordon_manager new_node_upgrade_state_provider state_is_synced reload of_node
    pure value_of insert get_upgrade_state_label_key
cordon_succeeds = refl

unknown_succeeds : (process_done_or_unknown_nodes manager groups "" system).0 ≡ ok tt
unfolding process_done_or_unknown_nodes for_each nodes_in ◌>>◌ ◌>>=◌ on_node
    process_done_or_unknown_node in_world pod_in_sync_with_ds new_manager pure of_node when
    new_safe_driver_load_manager new_node_upgrade_state_provider is_upgrade_requested
    get_upgrade_requested_annotation_key value_of insert get_upgrade_state_label_key lookup
    state_is_synced reload continue gets
unknown_succeeds = refl

process_cordon_required_nodes_progress_example :
    label (process_cordon_required_nodes manager groups system).1.api "a" ≡ "wait-for-jobs-required"
process_cordon_required_nodes_progress_example =
    process_cordon_required_nodes_progress (api_label label) manager manager-ManagerWrites
      manager-ProviderSets groups system entry_a cordon_succeeds in_cordon

process_unknown_nodes_settles_example :
    Settled (label (process_done_or_unknown_nodes manager groups "" system).1.api "a")
process_unknown_nodes_settles_example =
    process_unknown_nodes_settles (api_label label) manager manager-ManagerWrites
      manager-ProviderSets groups system orphan_a unknown_succeeds in_unknown
