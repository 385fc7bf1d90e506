-- ===== src/StateManager/Process.antt =====
-- The handlers of upgrade_state.go, one for each upgrade state.
use k8s_operator_libs.Prelude.{
  String, Bool, true, false, not, ◌&&◌, ◌||◌, Option, none, some, List, [], ◌∷◌, ◌++◌, map, ◌==◌,
  if◌then◌else◌, is_empty, is_none,
}
use k8s_operator_libs.Prelude.Int.{ℤ, pos, ◌-ℤ◌, leb_ℤ}
use k8s_operator_libs.Act.{Act, pure, ◌>>=◌, ◌>>◌, ignore, when, for_each, fold_each}
use k8s_operator_libs.StringMap.{has}
use k8s_operator_libs.Kube.{Node, Pod}
use k8s_operator_libs.Api.{WaitForCompletionSpec, PodDeletionSpec, DrainSpec}
use k8s_operator_libs.Consts.{
  upgrade_state_unknown, upgrade_state_upgrade_required, upgrade_state_cordon_required,
  upgrade_state_wait_for_jobs_required, upgrade_state_pod_deletion_required,
  upgrade_state_drain_required, upgrade_state_pod_restart_required,
  upgrade_state_validation_required, upgrade_state_uncordon_required, upgrade_state_done,
  upgrade_state_failed, null_string, true_string, get_upgrade_initial_state_annotation_key,
  get_upgrade_requested_annotation_key,
}
use k8s_operator_libs.Interfaces.{Held, on_node, in_world, of_node}
use k8s_operator_libs.StateManager.{
  NodeUpgradeState, ClusterUpgradeState, ClusterUpgradeStateManager, nodes_in,
  is_pod_deletion_enabled, is_validation_enabled,
}
use k8s_operator_libs.StateManager.Nodes.{
  is_node_unschedulable, is_driver_pod_failing, is_upgrade_requested, skip_node_upgrade,
  pod_in_sync_with_ds, is_driver_pod_in_sync,
}

-- `waitForCompletionSpec == nil || waitForCompletionSpec.PodSelector == ""`
unfoldable pub no_pod_selector : Option WaitForCompletionSpec → Bool
no_pod_selector none = true
no_pod_selector (some spec) = spec.pod_selector == ""

abbrev nodes_of : List NodeUpgradeState → List Node
nodes_of = map (λ nus. nus.node)

-- `drainSpec != nil && drainSpec.Enable`
unfoldable pub is_drain_enabled : Option DrainSpec → Bool
is_drain_enabled none = false
is_drain_enabled (some spec) = spec.enable

-- A pod that is not terminating already is to be restarted.
unfoldable pub with_pod : List Pod → Pod → List Pod
with_pod pods pod = if is_none pod.deletion_timestamp then pods ++ pod ∷ [] else pods

module _ {W : Type 0} (m : ClusterUpgradeStateManager W) where
  abbrev pub change_state : String → Act (Held W) Unit
  change_state = m.node_upgrade_state_provider.change_node_upgrade_state

  abbrev pub change_annotation : String → String → Act (Held W) Unit
  change_annotation = m.node_upgrade_state_provider.change_node_upgrade_annotation

  -- The body of `ProcessDoneOrUnknownNodes`.
  unfoldable pub process_done_or_unknown_node : String → NodeUpgradeState → Act (Held W) Unit
  process_done_or_unknown_node node_state_name nus = do
    (is_pod_synced, is_orphaned) ← in_world (pod_in_sync_with_ds m nus)
    upgrade_requested ← of_node (is_upgrade_requested m)
    is_waiting ← m.safe_driver_load_manager.is_waiting_for_safe_driver_load
    if (not is_pod_synced && not is_orphaned) || is_waiting || upgrade_requested
        then (do
          unschedulable ← of_node is_node_unschedulable
          when unschedulable (
              change_annotation (get_upgrade_initial_state_annotation_key m.driver_name)
                true_string)
          change_state upgrade_state_upgrade_required)
        else when (node_state_name == upgrade_state_unknown) (change_state upgrade_state_done)

  unfoldable pub process_done_or_unknown_nodes : ClusterUpgradeState → String → Act W Unit
  process_done_or_unknown_nodes c node_state_name =
      for_each (nodes_in c node_state_name)
        λ nus. on_node nus.node (process_done_or_unknown_node node_state_name nus)

  -- The body of `ProcessUpgradeRequiredNodes`: the slots that it leaves.
  unfoldable pub process_upgrade_required_node : ℤ → Act (Held W) ℤ
  process_upgrade_required_node upgrades_available = do
    upgrade_requested ← of_node (is_upgrade_requested m)
    when upgrade_requested
        (change_annotation (get_upgrade_requested_annotation_key m.driver_name) null_string)
    skip ← of_node (skip_node_upgrade m)
    unschedulable ← of_node is_node_unschedulable
    if skip || (leb_ℤ upgrades_available (pos 0) && not unschedulable)
        then pure upgrades_available
        else (do change_state upgrade_state_cordon_required; pure (upgrades_available -ℤ pos 1))

  -- The loop over the nodes: the slots that are left.
  unfoldable pub start_upgrades : List NodeUpgradeState → ℤ → Act W ℤ
  start_upgrades bucket upgrades_available =
      fold_each bucket upgrades_available
        (λ left nus. on_node nus.node (process_upgrade_required_node left))

  unfoldable pub process_upgrade_required_nodes : ClusterUpgradeState → ℤ → Act W Unit
  unfolding start_upgrades
  process_upgrade_required_nodes c upgrades_available =
      start_upgrades (nodes_in c upgrade_state_upgrade_required) upgrades_available >> pure tt

  unfoldable pub process_cordon_required_node : Act (Held W) Unit
  process_cordon_required_node = do
    m.cordon_manager.cordon
    change_state upgrade_state_wait_for_jobs_required

  unfoldable pub process_cordon_required_nodes : ClusterUpgradeState → Act W Unit
  process_cordon_required_nodes c =
      for_each (nodes_in c upgrade_state_cordon_required)
        λ nus. on_node nus.node process_cordon_required_node

  unfoldable pub state_after_wait_for_jobs : String
  state_after_wait_for_jobs =
      if not (is_pod_deletion_enabled m)
      then upgrade_state_drain_required
      else upgrade_state_pod_deletion_required

  unfoldable pub process_wait_for_jobs_required_nodes :
      ClusterUpgradeState → Option WaitForCompletionSpec → Act W Unit
  unfolding no_pod_selector
  process_wait_for_jobs_required_nodes c spec = do
    let bucket = nodes_in c upgrade_state_wait_for_jobs_required
    when (no_pod_selector spec)
        (for_each bucket λ nus. on_node nus.node (ignore (change_state state_after_wait_for_jobs)))
    when (not (no_pod_selector spec) && not (is_empty (nodes_of bucket))) (
        m.pod_manager.schedule_check_on_pod_completion (record {
          nodes = nodes_of bucket;
          deletion_spec = none;
          wait_for_completion_spec = spec;
          drain_enabled = false;
        }))

  unfoldable pub process_pod_deletion_required_nodes :
      ClusterUpgradeState → Option PodDeletionSpec → Bool → Act W Unit
  process_pod_deletion_required_nodes c pod_deletion_spec drain_enabled =
      let bucket = nodes_in c upgrade_state_pod_deletion_required in
      if not (is_pod_deletion_enabled m)
      then for_each bucket
          (λ nus. on_node nus.node (ignore (change_state upgrade_state_drain_required)))
      else when (not (is_empty (nodes_of bucket))) (
          m.pod_manager.schedule_pod_eviction (record {
            nodes = nodes_of bucket;
            deletion_spec = pod_deletion_spec;
            wait_for_completion_spec = none;
            drain_enabled = drain_enabled;
          }))

  unfoldable pub process_drain_nodes : ClusterUpgradeState → Option DrainSpec → Act W Unit
  process_drain_nodes c drain_spec =
      let bucket = nodes_in c upgrade_state_drain_required in
      if not (is_drain_enabled drain_spec)
      then for_each bucket
          (λ nus. on_node nus.node (change_state upgrade_state_pod_restart_required))
      else m.drain_manager.schedule_nodes_drain
          (record { spec = drain_spec; nodes = nodes_of bucket })

  -- To uncordon, or done for a node that was unschedulable when its upgrade began.
  unfoldable pub uncordon_or_done : Node → String
  uncordon_or_done node =
      if has (get_upgrade_initial_state_annotation_key m.driver_name) node.annotations
      then upgrade_state_done
      else upgrade_state_uncordon_required

  unfoldable pub update_node_to_uncordon_or_done_state : Act (Held W) Unit
  update_node_to_uncordon_or_done_state = do
    new_upgrade_state ← of_node uncordon_or_done
    change_state new_upgrade_state
    when (new_upgrade_state == upgrade_state_done)
        (change_annotation (get_upgrade_initial_state_annotation_key m.driver_name) null_string)

  -- The part of `ProcessPodRestartNodes` for a node whose pod has the revision of its daemon set.
  unfoldable pub process_synced_node : NodeUpgradeState → Act (Held W) Unit
  process_synced_node nus = do
    m.safe_driver_load_manager.unblock_loading
    driver_pod_in_sync ← in_world (is_driver_pod_in_sync m nus)
    if driver_pod_in_sync
        then (if not (is_validation_enabled m)
            then update_node_to_uncordon_or_done_state
            else change_state upgrade_state_validation_required)
        else when (is_driver_pod_failing nus.driver_pod) (change_state upgrade_state_failed)

  -- The body of `ProcessPodRestartNodes`, on the pods to restart so far.
  unfoldable pub process_pod_restart_node : List Pod → NodeUpgradeState → Act (Held W) (List Pod)
  process_pod_restart_node pods nus = do
    (is_pod_synced, is_orphaned) ← in_world (pod_in_sync_with_ds m nus)
    if not is_pod_synced || is_orphaned
        then pure (with_pod pods nus.driver_pod)
        else (do process_synced_node nus; pure pods)

  -- The loop of `ProcessPodRestartNodes`: the driver pods to restart.
  unfoldable pub pods_to_restart : List NodeUpgradeState → Act W (List Pod)
  pods_to_restart bucket =
      fold_each bucket [] (λ pods nus. on_node nus.node (process_pod_restart_node pods nus))

  unfoldable pub process_pod_restart_nodes : ClusterUpgradeState → Act W Unit
  unfolding pods_to_restart
  process_pod_restart_nodes c =
      pods_to_restart (nodes_in c upgrade_state_pod_restart_required)
      >>= m.pod_manager.schedule_pods_restart

  -- The body of `ProcessUpgradeFailedNodes`.
  unfoldable pub process_upgrade_failed_node : NodeUpgradeState → Act (Held W) Unit
  process_upgrade_failed_node nus = do
    driver_pod_in_sync ← in_world (is_driver_pod_in_sync m nus)
    when driver_pod_in_sync (do
      new_upgrade_state ← of_node uncordon_or_done
      change_state new_upgrade_state
      when (new_upgrade_state == upgrade_state_done)
          (change_annotation (get_upgrade_initial_state_annotation_key m.driver_name) null_string))

  unfoldable pub process_upgrade_failed_nodes : ClusterUpgradeState → Act W Unit
  process_upgrade_failed_nodes c =
      for_each (nodes_in c upgrade_state_failed)
        λ nus. on_node nus.node (process_upgrade_failed_node nus)

  -- The body of `ProcessValidationRequiredNodes`.
  unfoldable pub process_validation_required_node : Act (Held W) Unit
  process_validation_required_node = do
    m.safe_driver_load_manager.unblock_loading
    validation_done ← m.validation_manager.validate
    when validation_done update_node_to_uncordon_or_done_state

  unfoldable pub process_validation_required_nodes : ClusterUpgradeState → Act W Unit
  process_validation_required_nodes c =
      for_each (nodes_in c upgrade_state_validation_required)
        λ nus. on_node nus.node process_validation_required_node

  unfoldable pub process_uncordon_required_node : Act (Held W) Unit
  process_uncordon_required_node = do m.cordon_manager.uncordon; change_state upgrade_state_done

  unfoldable pub process_uncordon_required_nodes : ClusterUpgradeState → Act W Unit
  process_uncordon_required_nodes c =
      for_each (nodes_in c upgrade_state_uncordon_required)
        λ nus. on_node nus.node process_uncordon_required_node
