-- ===== src/Drain.antt =====
-- pkg/upgrade/drain_manager.go: each node of a configuration is drained in a goroutine of its own,
-- unless a drain of it is still under way.
use k8s_operator_libs.Prelude.{
  String, true, not, Option, none, some, List, [], ◌∷◌, ◌++◌, is_empty, if◌then◌else◌,
}
use k8s_operator_libs.Act.{
  Error, Act, pure, raise, gets, modify, attempt, ignore, when, for_each, ◌>>=◌, ◌>>◌,
}
use k8s_operator_libs.Strconv.{seconds}
use k8s_operator_libs.Kube.{Node}
use k8s_operator_libs.Api.{DrainSpec}
use k8s_operator_libs.Consts.{upgrade_state_failed, upgrade_state_pod_restart_required}
use k8s_operator_libs.Interfaces.{
  Held, on_node, in_world, NodeUpgradeStateProvider, DrainConfiguration, DrainManager,
}
use k8s_operator_libs.StringSet.{has, add, remove}
use k8s_operator_libs.Client.{Client, DrainHelper}
use k8s_operator_libs.System.{System, DrainTask}

unfoldable pub drain_helper_of : DrainSpec → DrainHelper
drain_helper_of spec = record {
  force = spec.force;
  delete_empty_dir_data = spec.delete_empty_dir;
  timeout = seconds spec.timeout_second;
  pod_selector = spec.pod_selector;
  additional_filter = none;
}

module _ {K : Type 0} where
  -- Mark the node as being drained and start its goroutine, unless it is marked already.
  unfoldable pub schedule_node : DrainHelper → Node → Act (System K) Unit
  schedule_node helper node = do
    draining ← gets (λ s. has node.name s.draining_nodes)
    when (not draining) (
        modify λ s. record s {
          draining_nodes = add node.name s.draining_nodes;
          drain_tasks = s.drain_tasks ++ record { helper = helper; node = node } ∷ [];
        })

  unfoldable pub schedule_with : Option DrainSpec → List Node → Act (System K) Unit
  unfolding schedule_node
  schedule_with none nodes = raise (Error.message "drain spec should not be empty")
  schedule_with (some spec) nodes =
      if not spec.enable then pure tt else for_each nodes (schedule_node (drain_helper_of spec))

  unfoldable pub schedule_nodes_drain : DrainConfiguration → Act (System K) Unit
  unfolding schedule_with
  schedule_nodes_drain config =
      if is_empty config.nodes then pure tt else schedule_with config.spec config.nodes

  -- `NewDrainManager`
  unfoldable pub new_drain_manager : DrainManager (System K)
  unfolding schedule_nodes_drain
  new_drain_manager = record { schedule_nodes_drain = schedule_nodes_drain }

module _ {W : Type 0} (client : Client W) (provider : NodeUpgradeStateProvider W) where
  -- The goroutine on its node: cordon, drain, and the new state.
  unfoldable pub drain_node : DrainHelper → String → Act (Held W) Unit
  drain_node helper name = do
    cordoned ← attempt (client.run_cordon_or_uncordon true)
    if not cordoned then ignore (provider.change_node_upgrade_state upgrade_state_failed) else (do
      drained ← attempt (in_world (client.run_node_drain helper name))
      if not drained
          then ignore (provider.change_node_upgrade_state upgrade_state_failed)
          else ignore (provider.change_node_upgrade_state upgrade_state_pod_restart_required))

module _ {K : Type 0} (client : Client (System K))
    (provider : NodeUpgradeStateProvider (System K)) where
  -- The whole goroutine, with what it defers, which runs however the goroutine ends.
  unfoldable pub run_drain_task : DrainTask → Act (System K) Unit
  unfolding drain_node
  run_drain_task task = do
    ignore (on_node task.node (drain_node client provider task.helper task.node.name))
    modify (λ s. record s { draining_nodes = remove task.node.name s.draining_nodes })
