-- ===== src/SafeDriverLoad.antt =====
-- pkg/upgrade/safe_driver_load_manager.go: a driver pod that waits for a safe load has set an
-- annotation on its node; removing the annotation lets it load.
pub mod Unblocked
use k8s_operator_libs.Prelude.{String, Bool, not, ◌==◌}
use k8s_operator_libs.Act.{Act, ◌>>=◌, when}
use k8s_operator_libs.StringMap.{value_of}
use k8s_operator_libs.Kube.{Node}
use k8s_operator_libs.Consts.{null_string, get_upgrade_driver_wait_for_safe_load_annotation_key}
use k8s_operator_libs.Interfaces.{Held, of_node, NodeUpgradeStateProvider, SafeDriverLoadManager}

abbrev pub waits_for_safe_load : String → Node → Bool
waits_for_safe_load driver_name node = not (
    value_of (get_upgrade_driver_wait_for_safe_load_annotation_key driver_name) node.annotations
    == "")

module _ {W : Type 0} (provider : NodeUpgradeStateProvider W) (driver_name : String) where
  unfoldable pub is_waiting_for_safe_driver_load : Act (Held W) Bool
  is_waiting_for_safe_driver_load = of_node (waits_for_safe_load driver_name)

  unfoldable pub unblock_loading : Act (Held W) Unit
  unblock_loading = do
    waiting ← of_node (waits_for_safe_load driver_name)
    when waiting (
        provider.change_node_upgrade_annotation
          (get_upgrade_driver_wait_for_safe_load_annotation_key driver_name) null_string)

  -- `NewSafeDriverLoadManager`
  unfoldable pub new_safe_driver_load_manager : SafeDriverLoadManager W
  unfolding is_waiting_for_safe_driver_load unblock_loading
  new_safe_driver_load_manager = record {
    is_waiting_for_safe_driver_load = is_waiting_for_safe_driver_load;
    unblock_loading = unblock_loading;
  }
