-- ===== src/Api.antt =====
-- api/upgrade/v1alpha1/upgrade_spec.go: the upgrade policy and its parts.
use k8s_operator_libs.Prelude.{String, Bool, Option}
use k8s_operator_libs.Prelude.Int.{ℤ}
use k8s_operator_libs.Kube.{IntOrString}

pub record WaitForCompletionSpec : Type 0 where
  pub pod_selector : String
  pub timeout_second : ℤ

pub record PodDeletionSpec : Type 0 where
  pub force : Bool
  pub timeout_second : ℤ
  pub delete_empty_dir : Bool

pub record DrainSpec : Type 0 where
  pub enable : Bool
  pub force : Bool
  pub pod_selector : String
  pub timeout_second : ℤ
  pub delete_empty_dir : Bool

pub record DriverUpgradePolicySpec : Type 0 where
  pub auto_upgrade : Bool
  pub max_parallel_upgrades : ℤ
  pub max_unavailable : Option IntOrString
  pub pod_deletion : Option PodDeletionSpec
  pub wait_for_completion : Option WaitForCompletionSpec
  pub drain_spec : Option DrainSpec
