-- ===== src/Provider.antt =====
-- pkg/upgrade/node_upgrade_state_provider.go: patch the node, then poll until the operator's cache
-- shows the change. Each method holds the mutex of its node throughout; here it is one action.
pub mod ReadBack
pub mod Labels
pub mod Sets
use k8s_operator_libs.Prelude.{String, Bool, not, ◌==◌, if◌then◌else◌}
use k8s_operator_libs.Act.{Act, pure, ◌>>=◌, ◌>>◌}
use k8s_operator_libs.StringMap.{has, value_of}
use k8s_operator_libs.Kube.{Node}
use k8s_operator_libs.Consts.{null_string, get_upgrade_state_label_key}
use k8s_operator_libs.Interfaces.{Held, of_node, NodeUpgradeStateProvider}
use k8s_operator_libs.Client.{
  Patch, label_patch, annotation_patch, annotation_removal, Client, reload,
}

unfoldable pub annotation_patch_of : String → String → Patch
annotation_patch_of key value =
    if value == null_string then annotation_removal key else annotation_patch key value

abbrev pub annotation_matches : String → String → Node → Bool
annotation_matches key value node =
    if value == null_string
    then not (has key node.annotations)
    else value_of key node.annotations == value

module _ {W : Type 0} (client : Client W) where
  unfoldable pub get_node : String → Act W Node
  get_node node_name = client.get node_name

  -- The condition of the poll in `ChangeNodeUpgradeAnnotation`.
  unfoldable pub annotation_is_synced : String → String → Act (Held W) Bool
  annotation_is_synced key value = do reload client; of_node (annotation_matches key value)

  unfoldable pub change_node_upgrade_annotation : String → String → Act (Held W) Unit
  change_node_upgrade_annotation key value = do
    client.patch (annotation_patch_of key value)
    client.poll_immediate_until (annotation_is_synced key value)

module _ {W : Type 0} (client : Client W) (driver_name : String) where
  -- The condition of the poll in `ChangeNodeUpgradeState`.
  unfoldable pub state_is_synced : String → Act (Held W) Bool
  state_is_synced new_node_state = do
    reload client
    node_state ← of_node (λ n. value_of (get_upgrade_state_label_key driver_name) n.labels)
    pure (node_state == new_node_state)

  unfoldable pub change_node_upgrade_state : String → Act (Held W) Unit
  change_node_upgrade_state new_node_state = do
    client.patch (label_patch (get_upgrade_state_label_key driver_name) new_node_state)
    client.poll_immediate_until (state_is_synced new_node_state)

  -- `NewNodeUpgradeStateProvider`
  unfoldable pub new_node_upgrade_state_provider : NodeUpgradeStateProvider W
  unfolding get_node change_node_upgrade_state change_node_upgrade_annotation
  new_node_upgrade_state_provider = record {
    get_node = get_node client;
    change_node_upgrade_state = change_node_upgrade_state;
    change_node_upgrade_annotation = change_node_upgrade_annotation client;
  }
