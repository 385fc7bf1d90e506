-- ===== src/Pods.antt =====
-- pkg/upgrade/pod_manager.go
pub mod Revision
use k8s_operator_libs.Prelude.{
  ℕ, String, Bool, true, false, not, ◌&&◌, ◌||◌, Option, none, some, List, [], ◌∷◌, ◌++◌, ◌==◌, leb,
  length, count_if, is_empty, if◌then◌else◌,
}
use k8s_operator_libs.Prelude.Int.{ℤ, pos, leb_ℤ}
use k8s_operator_libs.Act.{
  Error, Act, pure, raise, gets, modify, attempt, ignore, when, for_each, ◌>>=◌, ◌>>◌,
}
use k8s_operator_libs.Strconv.{seconds}
use k8s_operator_libs.Kube.{Node, Pod, pod_running, pod_pending}
use k8s_operator_libs.Api.{PodDeletionSpec, WaitForCompletionSpec}
use k8s_operator_libs.Consts.{
  null_string, upgrade_state_failed, upgrade_state_pod_restart_required,
  upgrade_state_drain_required, upgrade_state_pod_deletion_required,
  get_wait_for_pod_completion_start_time_annotation_key,
}
use k8s_operator_libs.Interfaces.{
  Held, on_node, in_world, of_node, NodeUpgradeStateProvider, PodManagerConfig, PodManager,
}
use k8s_operator_libs.StringSet.{has, add, remove}
use k8s_operator_libs.Client.{Client, DrainHelper}
use k8s_operator_libs.System.{System, EvictionTask}
use k8s_operator_libs.Timeout.{handle_timeout}
use k8s_operator_libs.Pods.Revision.{
  get_pod_controller_revision_hash, get_daemonset_controller_revision_hash,
}

unfoldable pub is_pod_running_or_pending : Pod → Bool
is_pod_running_or_pending pod = pod.phase == pod_running || pod.phase == pod_pending

-- The loop that stops at the first pod that still runs.
unfoldable pub some_running : List Pod → Bool
unfolding is_pod_running_or_pending
some_running [] = false
some_running (pod ∷ pods) = if is_pod_running_or_pending pod then true else some_running pods

-- The helper, with the custom filter that keeps the pods that the deletion filter names.
unfoldable pub deletion_helper_of : (Pod → Bool) → PodDeletionSpec → DrainHelper
deletion_helper_of filter spec = record {
  force = spec.force;
  delete_empty_dir_data = spec.delete_empty_dir;
  timeout = seconds spec.timeout_second;
  pod_selector = "";
  additional_filter = some filter;
}

module _ {K : Type 0} where
  -- Mark the node and start its goroutine, unless it is marked already.
  unfoldable pub schedule_node : DrainHelper → Bool → Node → Act (System K) Unit
  schedule_node helper drain_enabled node = do
    in_progress ← gets (λ s. has node.name s.nodes_in_progress)
    when (not in_progress) (
        modify λ s. record s {
          nodes_in_progress = add node.name s.nodes_in_progress;
          eviction_tasks =
              s.eviction_tasks
              ++ record { helper = helper; drain_enabled = drain_enabled; node = node } ∷ [];
        })

  unfoldable pub schedule_with :
      (Pod → Bool) → Option PodDeletionSpec → Bool → List Node → Act (System K) Unit
  unfolding schedule_node
  schedule_with filter none drain_enabled nodes =
      raise (Error.message "pod deletion spec should not be empty")
  schedule_with filter (some spec) drain_enabled nodes =
      for_each nodes (schedule_node (deletion_helper_of filter spec) drain_enabled)

  unfoldable pub schedule_pod_eviction : (Pod → Bool) → PodManagerConfig → Act (System K) Unit
  unfolding schedule_with
  schedule_pod_eviction filter config =
      if is_empty config.nodes
      then pure tt
      else schedule_with filter config.deletion_spec config.drain_enabled config.nodes

infix 50 ◌==ℕ◌
abbrev ◌==ℕ◌ : ℕ → ℕ → Bool
a ==ℕ b = leb a b && leb b a

abbrev is_zero : ℤ → Bool
is_zero a = leb_ℤ a (pos 0) && leb_ℤ (pos 0) a

module _ {W : Type 0} (provider : NodeUpgradeStateProvider W) where
  unfoldable pub update_node_to_drain_or_failed : Bool → Act (Held W) Unit
  update_node_to_drain_or_failed drain_enabled = ignore (
      provider.change_node_upgrade_state
        (if drain_enabled then upgrade_state_drain_required else upgrade_state_failed))

module _ {W : Type 0} (client : Client W) (provider : NodeUpgradeStateProvider W)
    (filter : Pod → Bool) where
  -- The last part of the goroutine: delete the pods that were found.
  unfoldable pub delete_pods : DrainHelper → Bool → List Pod → Act (Held W) Unit
  delete_pods helper drain_enabled pods = do
    deleted ← attempt (in_world (client.delete_or_evict_pods helper pods))
    if not deleted
        then update_node_to_drain_or_failed provider drain_enabled
        else ignore (provider.change_node_upgrade_state upgrade_state_pod_restart_required)

  -- The goroutine after it has listed the pods of its node.
  unfoldable pub evict_listed : DrainHelper → Bool → String → List Pod → Act (Held W) Unit
  unfolding delete_pods
  evict_listed helper drain_enabled name pods =
      if count_if filter pods ==ℕ 0
      then ignore (provider.change_node_upgrade_state upgrade_state_pod_restart_required)
      else in_world (client.get_pods_for_deletion helper name) >>= λ deletable.
          if not (length deletable ==ℕ count_if filter pods)
          then update_node_to_drain_or_failed provider drain_enabled
          else delete_pods helper drain_enabled deletable

  -- The goroutine on its node; if the list of pods fails, it returns.
  unfoldable pub evict_pods : DrainHelper → Bool → String → Act (Held W) Unit
  unfolding evict_listed
  evict_pods helper drain_enabled name =
      ignore (in_world (client.list_pods "" name) >>= evict_listed helper drain_enabled name)

module _ {W : Type 0} (client : Client W) where
  unfoldable pub schedule_pods_restart : List Pod → Act W Unit
  schedule_pods_restart pods = for_each pods λ pod. client.delete_pod pod.namespace pod.name

module _ {W : Type 0} (client : Client W) (provider : NodeUpgradeStateProvider W)
    (driver_name : String) where
  abbrev handle_timeout_on_pod_completions : ℤ → Act (Held W) Unit
  handle_timeout_on_pod_completions timeout_seconds =
      handle_timeout client provider
        (get_wait_for_pod_completion_start_time_annotation_key driver_name)
        upgrade_state_pod_deletion_required timeout_seconds

  -- The goroutine of `ScheduleCheckOnPodCompletion`. Its errors are only logged.
  unfoldable pub check_pod_completion : ℤ → List Pod → Act (Held W) Unit
  check_pod_completion timeout_second pods = ignore (
      if some_running pods
      then when (not (is_zero timeout_second)) (handle_timeout_on_pod_completions timeout_second)
      else provider.change_node_upgrade_annotation
          (get_wait_for_pod_completion_start_time_annotation_key driver_name) null_string
        >> ignore (provider.change_node_upgrade_state upgrade_state_pod_deletion_required))

  -- The loop over the nodes. Each goroutine runs when it is started, which is one of the schedules:
  -- the call waits for all of them.
  unfoldable pub check_nodes : WaitForCompletionSpec → List Node → Act W Unit
  check_nodes spec nodes = for_each nodes λ node.
      client.list_pods spec.pod_selector node.name >>= λ pods.
      on_node node (check_pod_completion spec.timeout_second pods)

  -- The loop reads the field of a specification, and of none it panics at the first node.
  unfoldable pub check_with : Option WaitForCompletionSpec → List Node → Act W Unit
  unfolding check_nodes
  check_with none nodes = when (not (is_empty nodes)) (raise (Error.panic "nil dereference"))
  check_with (some spec) nodes = check_nodes spec nodes

  unfoldable pub schedule_check_on_pod_completion : PodManagerConfig → Act W Unit
  unfolding check_with
  schedule_check_on_pod_completion config = check_with config.wait_for_completion_spec config.nodes

module _ {K : Type 0} (client : Client (System K)) (provider : NodeUpgradeStateProvider (System K))
    (filter : Pod → Bool) where
  -- The whole goroutine of `SchedulePodEviction`, with what it defers, which runs
  -- however the goroutine ends.
  unfoldable pub run_eviction_task : EvictionTask → Act (System K) Unit
  unfolding evict_pods
  run_eviction_task task = do
    ignore (
        on_node task.node
          (evict_pods client provider filter task.helper task.drain_enabled task.node.name))
    modify (λ s. record s { nodes_in_progress = remove task.node.name s.nodes_in_progress })

  -- `NewPodManager`
  unfoldable pub new_pod_manager : String → PodManager (System K)
  unfolding schedule_check_on_pod_completion schedule_pods_restart schedule_pod_eviction
  new_pod_manager driver_name = record {
    schedule_check_on_pod_completion = schedule_check_on_pod_completion client provider driver_name;
    schedule_pods_restart = schedule_pods_restart client;
    schedule_pod_eviction = schedule_pod_eviction filter;
    get_pod_controller_revision_hash = get_pod_controller_revision_hash;
    get_daemonset_controller_revision_hash = get_daemonset_controller_revision_hash client;
  }
