-- ===== src/Timeout.antt =====
-- The timeouts of pod_manager.go (`HandleTimeoutOnPodCompletions`) and validation_manager.go
-- (`handleTimeout`): the start is kept in an annotation of the node. The two differ in the annotation
-- and in the state that a node gets when its time is over.
pub mod Clock
use k8s_operator_libs.Prelude.{String, not, if◌then◌else◌}
use k8s_operator_libs.Prelude.Int.{ℤ, ltb_ℤ}
use k8s_operator_libs.Act.{Act, ◌>>=◌, ◌>>◌, lift, ignore, when}
use k8s_operator_libs.StringMap.{has, value_of}
use k8s_operator_libs.Strconv.{format_int, parse_int, add_int64}
use k8s_operator_libs.Consts.{null_string}
use k8s_operator_libs.Interfaces.{Held, of_node, in_world, NodeUpgradeStateProvider}
use k8s_operator_libs.Client.{Client}

module _ {W : Type 0} (client : Client W) (provider : NodeUpgradeStateProvider W) where
  -- What follows the check that the annotation is there.
  unfoldable pub check_start_time : String → String → ℤ → ℤ → Act (Held W) Unit
  check_start_time annotation_key next_state timeout_seconds current_time = do
    text ← of_node (λ n. value_of annotation_key n.annotations)
    start_time ← lift (parse_int text)
    when (ltb_ℤ (add_int64 start_time timeout_seconds) current_time) (do
      ignore (provider.change_node_upgrade_state next_state)
      provider.change_node_upgrade_annotation annotation_key null_string)

  unfoldable pub handle_timeout : String → String → ℤ → Act (Held W) Unit
  unfolding check_start_time
  handle_timeout annotation_key next_state timeout_seconds = do
    current_time ← in_world client.now
    present ← of_node (λ n. has annotation_key n.annotations)
    if not present
        then provider.change_node_upgrade_annotation annotation_key (format_int current_time)
        else check_start_time annotation_key next_state timeout_seconds current_time
