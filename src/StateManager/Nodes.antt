-- ===== src/StateManager/Nodes.antt =====
-- What upgrade_state.go reads off a node, its driver pod and its daemon set.
use k8s_operator_libs.Prelude.{
  Bool, true, false, not, ◌&&◌, Option, none, some, List, [], ◌∷◌, ◌==◌, if◌then◌else◌, is_empty,
}
use k8s_operator_libs.Prelude.Int.{pos, ltb_ℤ}
use k8s_operator_libs.Act.{Act, pure, ◌>>=◌}
use k8s_operator_libs.StringMap.{value_of}
use k8s_operator_libs.Kube.{
  Node, NodeCondition, ContainerStatus, Pod, DaemonSet, pod_running, node_ready, condition_true,
}
use k8s_operator_libs.Consts.{
  true_string, get_upgrade_requested_annotation_key, get_upgrade_skip_node_label_key,
}
use k8s_operator_libs.StateManager.{NodeUpgradeState, ClusterUpgradeStateManager}

unfoldable pub is_node_unschedulable : Node → Bool
is_node_unschedulable node = node.unschedulable

unfoldable pub all_conditions_ready : List NodeCondition → Bool
all_conditions_ready [] = true
all_conditions_ready (c ∷ cs) =
    if c.kind == node_ready && not (c.status == condition_true)
    then false
    else all_conditions_ready cs

unfoldable pub is_node_condition_ready : Node → Bool
unfolding all_conditions_ready
is_node_condition_ready node = all_conditions_ready node.conditions

-- The loop over `ContainerStatuses` that stops at the first container that is not ready.
unfoldable pub all_ready : List ContainerStatus → Bool
all_ready [] = true
all_ready (c ∷ cs) = if not c.ready then false else all_ready cs

-- A loop of `isDriverPodFailing`.
unfoldable pub some_failing : List ContainerStatus → Bool
some_failing [] = false
some_failing (c ∷ cs) =
    if not c.ready && ltb_ℤ (pos 10) c.restart_count then true else some_failing cs

unfoldable pub is_driver_pod_failing : Pod → Bool
unfolding some_failing
is_driver_pod_failing pod =
    if some_failing pod.init_container_statuses then true else some_failing pod.container_statuses

-- The part of `isDriverPodInSync` that looks at the pod alone.
unfoldable pub is_pod_running_and_ready : Pod → Bool
unfolding all_ready
is_pod_running_and_ready pod =
    if pod.phase == pod_running && not (is_empty pod.container_statuses)
    then all_ready pod.container_statuses
    else false

module _ {W : Type 0} (m : ClusterUpgradeStateManager W) where
  unfoldable pub is_upgrade_requested : Node → Bool
  is_upgrade_requested node =
      value_of (get_upgrade_requested_annotation_key m.driver_name) node.annotations == true_string

  unfoldable pub skip_node_upgrade : Node → Bool
  skip_node_upgrade node =
      value_of (get_upgrade_skip_node_label_key m.driver_name) node.labels == true_string

  -- The body of `podInSyncWithDS`, by whether `IsOrphanedPod` found a daemon set.
  unfoldable pub compare_revisions : Pod → Option DaemonSet → Act W (Bool × Bool)
  compare_revisions pod none = pure (false, true)
  compare_revisions pod (some ds) = do
    pod_revision_hash ← m.pod_manager.get_pod_controller_revision_hash pod
    daemonset_revision_hash ← m.pod_manager.get_daemonset_controller_revision_hash ds
    pure (pod_revision_hash == daemonset_revision_hash, false)

  -- Whether the pod has the daemon set's revision, and whether it is orphaned.
  unfoldable pub pod_in_sync_with_ds : NodeUpgradeState → Act W (Bool × Bool)
  unfolding compare_revisions
  pod_in_sync_with_ds nus = compare_revisions nus.driver_pod nus.driver_daemon_set

  unfoldable pub is_driver_pod_in_sync : NodeUpgradeState → Act W Bool
  is_driver_pod_in_sync nus = do
    (is_pod_synced, is_orphaned) ← pod_in_sync_with_ds nus
    if is_orphaned
        then pure false
        else pure (if is_pod_synced then is_pod_running_and_ready nus.driver_pod else false)
