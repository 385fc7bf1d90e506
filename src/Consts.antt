-- ===== src/Consts.antt =====
-- pkg/upgrade/consts.go, and the keys that pkg/upgrade/util.go makes from the driver's name.
pub mod Keys
use Prim.Native.String.{◌++◌}
use k8s_operator_libs.Prelude.{String}

-- The upgrade states: the values of the node label.
abbrev pub upgrade_state_unknown : String
upgrade_state_unknown = ""

abbrev pub upgrade_state_upgrade_required : String
upgrade_state_upgrade_required = "upgrade-required"

abbrev pub upgrade_state_cordon_required : String
upgrade_state_cordon_required = "cordon-required"

abbrev pub upgrade_state_wait_for_jobs_required : String
upgrade_state_wait_for_jobs_required = "wait-for-jobs-required"

abbrev pub upgrade_state_pod_deletion_required : String
upgrade_state_pod_deletion_required = "pod-deletion-required"

abbrev pub upgrade_state_drain_required : String
upgrade_state_drain_required = "drain-required"

abbrev pub upgrade_state_pod_restart_required : String
upgrade_state_pod_restart_required = "pod-restart-required"

abbrev pub upgrade_state_validation_required : String
upgrade_state_validation_required = "validation-required"

abbrev pub upgrade_state_uncordon_required : String
upgrade_state_uncordon_required = "uncordon-required"

abbrev pub upgrade_state_done : String
upgrade_state_done = "upgrade-done"

abbrev pub upgrade_state_failed : String
upgrade_state_failed = "upgrade-failed"

abbrev pub null_string : String
null_string = "null"

abbrev pub true_string : String
true_string = "true"

-- `fmt.Sprintf(format, DriverName)`, each format being "nvidia.com/%s" and a suffix.
abbrev key_prefix : String
key_prefix = "nvidia.com/"

module _ (driver_name : String) where
  unfoldable pub get_upgrade_state_label_key : String
  get_upgrade_state_label_key = key_prefix ++ (driver_name ++ "-driver-upgrade-state")

  unfoldable pub get_upgrade_skip_node_label_key : String
  get_upgrade_skip_node_label_key = key_prefix ++ (driver_name ++ "-driver-upgrade.skip")

  unfoldable pub get_upgrade_driver_wait_for_safe_load_annotation_key : String
  get_upgrade_driver_wait_for_safe_load_annotation_key =
      key_prefix ++ (driver_name ++ "-driver-upgrade.driver-wait-for-safe-load")

  unfoldable pub get_upgrade_requested_annotation_key : String
  get_upgrade_requested_annotation_key = key_prefix ++ (driver_name ++ "-driver-upgrade-requested")

  unfoldable pub get_upgrade_initial_state_annotation_key : String
  get_upgrade_initial_state_annotation_key =
      key_prefix ++ (driver_name ++ "-driver-upgrade.node-initial-state.unschedulable")

  unfoldable pub get_wait_for_pod_completion_start_time_annotation_key : String
  get_wait_for_pod_completion_start_time_annotation_key =
      key_prefix ++ (driver_name ++ "-driver-upgrade-wait-for-pod-completion-start-time")

  unfoldable pub get_validation_start_time_annotation_key : String
  get_validation_start_time_annotation_key =
      key_prefix ++ (driver_name ++ "-driver-upgrade-validation-start-time")
