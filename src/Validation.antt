-- ===== src/Validation.antt =====
-- pkg/upgrade/validation_manager.go: the driver is valid on a node when the pods that the selector
-- names are ready there.
pub mod Ready
use k8s_operator_libs.Prelude.{
  String, Bool, true, false, not, List, [], ◌∷◌, ◌==◌, is_empty, if◌then◌else◌,
}
use k8s_operator_libs.Prelude.Int.{ℤ, pos}
use k8s_operator_libs.Act.{Act, pure, ◌>>=◌, ◌>>◌, wrap_error}
use k8s_operator_libs.Kube.{Pod, pod_running}
use k8s_operator_libs.Consts.{
  null_string, upgrade_state_failed, get_validation_start_time_annotation_key,
}
use k8s_operator_libs.Interfaces.{
  Held, of_node, in_world, NodeUpgradeStateProvider, ValidationManager,
}
use k8s_operator_libs.Client.{Client}
use k8s_operator_libs.Timeout.{handle_timeout}
use k8s_operator_libs.StateManager.Nodes.{all_ready}

abbrev pub validation_timeout_seconds : ℤ
validation_timeout_seconds = pos 600

unfoldable pub is_pod_ready : Pod → Bool
unfolding all_ready
is_pod_ready pod =
    if not (pod.phase == pod_running)
    then false
    else if is_empty pod.container_statuses
    then false
    else all_ready pod.container_statuses

module _ {W : Type 0} (client : Client W) (provider : NodeUpgradeStateProvider W)
    (driver_name : String) where
  -- The loop over the pods: a pod that is not ready ends it.
  unfoldable pub validate_pods : List Pod → Act (Held W) Bool
  validate_pods [] = pure true
  validate_pods (pod ∷ pods) =
      let rest = validate_pods pods in
      if not (is_pod_ready pod)
      then wrap_error "unable to handle timeout for validation state" (
          handle_timeout client provider (get_validation_start_time_annotation_key driver_name)
            upgrade_state_failed validation_timeout_seconds)
        >> pure false
      else provider.change_node_upgrade_annotation
          (get_validation_start_time_annotation_key driver_name) null_string
        >> rest

  unfoldable pub validate : String → Act (Held W) Bool
  unfolding validate_pods
  validate pod_selector =
      if pod_selector == ""
      then pure true
      else of_node (λ n. n.name) >>= λ name.
          in_world (client.list_pods pod_selector name) >>= λ pods.
          if is_empty pods then pure false else validate_pods pods

  -- `NewValidationManager`
  unfoldable pub new_validation_manager : String → ValidationManager W
  unfolding validate
  new_validation_manager pod_selector = record { validate = validate pod_selector }
