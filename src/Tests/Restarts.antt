-- ===== src/Tests/Restarts.antt =====
-- The restart of driver pods and a refused daemon set, at concrete inputs.
use k8s_operator_libs.Prelude.{String, ◌≡◌, ◌≢◌, refl, true, none, List, [], ◌∷◌, Memᴰ, length}
use k8s_operator_libs.Prelude.Int.{pos}
use k8s_operator_libs.Act.{ok, err, fold_each, pure, ◌>>=◌, wrap_error, lift, continue}
use k8s_operator_libs.StringMap.{insert, lookup}
use k8s_operator_libs.Kube.{Pod, DaemonSet, ControllerRevision}
use k8s_operator_libs.Client.{Client}
use k8s_operator_libs.Pods.{new_pod_manager}
use k8s_operator_libs.Pods.Revision.{
  or_missing, hash_of, current_revision, trim_prefix, get_pod_controller_revision_hash,
  get_daemonset_controller_revision_hash,
}
use k8s_operator_libs.Manager.{
  new_manager, new_cluster_upgrade_state_manager, with_pod_deletion_enabled,
  with_validation_enabled,
}
use k8s_operator_libs.Interfaces.{on_node, in_world}
use k8s_operator_libs.System.{System}
use k8s_operator_libs.StateManager.{NodeUpgradeState, ClusterUpgradeStateManager, is_orphaned_pod}
use k8s_operator_libs.StateManager.Nodes.{pod_in_sync_with_ds, compare_revisions}
use k8s_operator_libs.StateManager.Process.{with_pod, process_pod_restart_node, pods_to_restart}
use k8s_operator_libs.StateManager.Build.{by_uid, get_pods_owned_by_ds, build_state}
use k8s_operator_libs.StateManager.Build.Rejects.{unscheduled, build_state_rejects}
use k8s_operator_libs.StateManager.Restarts.Outdated.{IsToRestart, ReadsHashes}
use k8s_operator_libs.StateManager.Restarts.{pods_to_restart_outdated, orphaned_pods_restarted}
use k8s_operator_libs.Tests.Cluster.{Cluster, client, driver}
use k8s_operator_libs.Tests.Witnesses.{
  manager, system, cluster, node_a, driver_pod, daemon_set, at_node,
}

abbrev orphan_a : NodeUpgradeState
orphan_a = record { node = node_a; driver_pod = driver_pod "a" "old"; driver_daemon_set = none }

abbrev bucket : List NodeUpgradeState
bucket = orphan_a ∷ []

abbrev restarted : List Pod
restarted = driver_pod "a" "old" ∷ []

one_restarted : (pods_to_restart manager bucket system).0 ≡ ok restarted
unfolding pods_to_restart fold_each ◌>>=◌ pure on_node in_world process_pod_restart_node
    pod_in_sync_with_ds with_pod
one_restarted = refl

orphan_a_is_orphaned : is_orphaned_pod orphan_a ≡ true
unfolding is_orphaned_pod
orphan_a_is_orphaned = refl

-- The revisions of the daemon set stay as they are.
abbrev revisions : List ControllerRevision
revisions =
    record { name = "driver-old"; revision = pos 1 }
    ∷ record { name = "driver-new"; revision = pos 2 }
    ∷ []

abbrev steady : Client (System Cluster)
steady = record client { list_controller_revisions = λ namespace labels s. (ok revisions, s) }

abbrev steady_manager : ClusterUpgradeStateManager (System Cluster)
steady_manager = new_manager steady driver none ""

abbrev PodHash : Pod → String → Type 0
PodHash pod hash = or_missing (lookup "controller-revision-hash" pod.labels) ≡ ok hash

abbrev DaemonSetHash : DaemonSet → String → Type 0
DaemonSetHash ds hash = hash_of ds (current_revision ds revisions) ≡ ok hash

steady-ReadsHashes : ReadsHashes steady_manager PodHash DaemonSetHash
unfolding new_manager new_cluster_upgrade_state_manager with_pod_deletion_enabled
    with_validation_enabled new_pod_manager get_pod_controller_revision_hash
    get_daemonset_controller_revision_hash wrap_error lift ◌>>=◌ continue
steady-ReadsHashes = record {
  pod_hash = λ pod. record { at = λ s hash e. e };
  daemonset_hash = λ ds. record { at = λ s hash e. e };
}

-- Node "a" runs the old revision.
abbrev old_bucket : List NodeUpgradeState
old_bucket = at_node node_a "old" ∷ []

old_restarted : (pods_to_restart steady_manager old_bucket system).0 ≡ ok restarted
unfolding pods_to_restart fold_each ◌>>=◌ pure on_node in_world process_pod_restart_node
    pod_in_sync_with_ds with_pod new_manager new_pod_manager get_pod_controller_revision_hash
    get_daemonset_controller_revision_hash wrap_error lift continue compare_revisions
    current_revision trim_prefix lookup
old_restarted = refl

pods_to_restart_outdated_example :
    IsToRestart PodHash DaemonSetHash old_bucket (driver_pod "a" "old")
pods_to_restart_outdated_example =
    pods_to_restart_outdated steady_manager old_bucket PodHash DaemonSetHash steady-ReadsHashes
      system restarted (driver_pod "a" "old") old_restarted (Memᴰ.head refl)

orphaned_pods_restarted_example : Memᴰ (driver_pod "a" "old") restarted
orphaned_pods_restarted_example =
    orphaned_pods_restarted manager bucket system restarted orphan_a one_restarted (Memᴰ.head refl)
      orphan_a_is_orphaned refl

-- Two pods for a daemon set that wants three.
abbrev two_pods : List Pod
two_pods = driver_pod "a" "old" ∷ driver_pod "b" "old" ∷ []

abbrev incomplete : System Cluster
incomplete = record system { api = record cluster { pods = two_pods } }

is_listed : Memᴰ ("1", daemon_set) (by_uid [] (daemon_set ∷ []))
unfolding by_uid insert
is_listed = Memᴰ.head refl

a_pod_is_missing :
    daemon_set.desired_number_scheduled ≢ pos (length (get_pods_owned_by_ds daemon_set two_pods))
unfolding get_pods_owned_by_ds
a_pod_is_missing e = cc

build_state_rejects_example :
    build_state client manager "gpu" [] incomplete ≡ (err unscheduled, incomplete)
build_state_rejects_example =
    build_state_rejects client manager "gpu" [] incomplete incomplete incomplete (daemon_set ∷ [])
      two_pods refl refl "1" daemon_set is_listed a_pod_is_missing
