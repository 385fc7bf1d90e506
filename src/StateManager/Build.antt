-- ===== src/StateManager/Build.antt =====
-- `BuildState` of upgrade_state.go: from the daemon sets and the driver pods to the snapshot. The
-- order in which a map is traversed is that of its entries.
pub mod Groups
pub mod Complete
pub mod Covered
pub mod Owned
pub mod Accepts
pub mod Fresh
pub mod Rejects
use k8s_operator_libs.Prelude.{
  String, Bool, false, not, ◌&&◌, Option, none, List, [], ◌∷◌, ◌++◌, ◌==◌, length, is_empty, select,
  if◌then◌else◌,
}
use k8s_operator_libs.Prelude.Int.{pos, leb_ℤ}
use k8s_operator_libs.Act.{Error, Result, ok, err, Act, pure, lift, wrap_error, fold_each, ◌>>=◌}
use k8s_operator_libs.StringMap.{StringMap, lookup, insert, value_of}
use k8s_operator_libs.Kube.{Pod, DaemonSet, pod_pending}
use k8s_operator_libs.Consts.{get_upgrade_state_label_key}
use k8s_operator_libs.Client.{Client}
use k8s_operator_libs.StateManager.{
  NodeUpgradeState, ClusterUpgradeState, new_cluster_upgrade_state, nodes_in,
  ClusterUpgradeStateManager,
}

-- `isOrphanedPod`, the function on pods.
unfoldable pub has_no_owner : Pod → Bool
has_no_owner pod = is_empty pod.owner_references

unfoldable pub get_orphaned_pods : List Pod → List Pod
get_orphaned_pods pods = select has_no_owner pods

-- A pod that is not orphaned, and whose first owner is the daemon set.
unfoldable pub is_owned_by : DaemonSet → Pod → Bool
is_owned_by ds pod = elim pod.owner_references [ [] ↦ false | owner ∷ _ ↦ ds.uid == owner.uid ]

unfoldable pub get_pods_owned_by_ds : DaemonSet → List Pod → List Pod
unfolding is_owned_by
get_pods_owned_by_ds ds pods = select (is_owned_by ds) pods

-- The loop of `getDriverDaemonSets`, on the map so far.
unfoldable pub by_uid : StringMap DaemonSet → List DaemonSet → StringMap DaemonSet
by_uid found [] = found
by_uid found (ds ∷ rest) = by_uid (insert ds.uid ds found) rest

-- `ownerDaemonSet`: nil for an orphaned pod, else the entry of its first owner.
unfoldable pub owner_daemon_set : StringMap DaemonSet → Pod → Option DaemonSet
owner_daemon_set daemon_sets pod = elim pod.owner_references [
  | [] ↦ none
  | owner ∷ _ ↦ lookup owner.uid daemon_sets
]

abbrev pub is_scheduled_everywhere : DaemonSet → List Pod → Bool
is_scheduled_everywhere ds ds_pods =
    leb_ℤ ds.desired_number_scheduled (pos (length ds_pods))
    && leb_ℤ (pos (length ds_pods)) ds.desired_number_scheduled

-- The loop over the daemon sets, on the pods so far.
unfoldable pub collect_owned_pods : StringMap DaemonSet → List Pod → List Pod → Result (List Pod)
collect_owned_pods [] pods filtered = ok filtered
collect_owned_pods ((_, ds) ∷ rest) pods filtered =
    let ds_pods = get_pods_owned_by_ds ds pods in
    let collected = collect_owned_pods rest pods (filtered ++ ds_pods) in
    if not (is_scheduled_everywhere ds ds_pods)
    then err (Error.message "driver DaemonSet should not have Unscheduled pods")
    else collected

-- A pending pod that has no node yet.
unfoldable pub is_unscheduled : Pod → Bool
is_unscheduled pod = pod.node_name == "" && pod.phase == pod_pending

-- `append` to the group of a label.
unfoldable pub add_to_group : String → NodeUpgradeState → ClusterUpgradeState → ClusterUpgradeState
add_to_group label nus c = record c {
  node_states = insert label (nodes_in c label ++ nus ∷ []) c.node_states;
}

module _ {W : Type 0} (client : Client W) where
  unfoldable pub get_driver_daemon_sets : String → StringMap String → Act W (StringMap DaemonSet)
  get_driver_daemon_sets namespace labels = do
    daemon_set_list ←
        wrap_error "error getting DaemonSet list" (client.list_daemon_sets namespace labels)
    pure (by_uid [] daemon_set_list)

module _ {W : Type 0} (m : ClusterUpgradeStateManager W) where
  unfoldable pub build_node_upgrade_state : Pod → Option DaemonSet → Act W NodeUpgradeState
  build_node_upgrade_state pod ds = do
    node ← wrap_error "unable to get node" (m.node_upgrade_state_provider.get_node pod.node_name)
    pure (record { node = node; driver_pod = pod; driver_daemon_set = ds })

  -- The body of the loop over the driver pods.
  unfoldable pub add_pod :
      StringMap DaemonSet → ClusterUpgradeState → Pod → Act W ClusterUpgradeState
  add_pod daemon_sets c pod = if is_unscheduled pod then pure c else (do
    nus ← build_node_upgrade_state pod (owner_daemon_set daemon_sets pod)
    pure
        (add_to_group (value_of (get_upgrade_state_label_key m.driver_name) nus.node.labels) nus c))

  -- The loop over the driver pods.
  unfoldable pub add_pods : StringMap DaemonSet → List Pod → Act W ClusterUpgradeState
  unfolding add_pod
  add_pods daemon_sets pods = fold_each pods new_cluster_upgrade_state (add_pod daemon_sets)

module _ {W : Type 0} (client : Client W) (m : ClusterUpgradeStateManager W) where
  unfoldable pub build_state : String → StringMap String → Act W ClusterUpgradeState
  unfolding get_driver_daemon_sets collect_owned_pods add_pods
  build_state namespace driver_labels = do
    daemon_sets ← get_driver_daemon_sets client namespace driver_labels
    pods ← client.list_driver_pods namespace driver_labels
    owned_pods ← lift (collect_owned_pods daemon_sets pods [])
    add_pods m daemon_sets (owned_pods ++ get_orphaned_pods pods)
