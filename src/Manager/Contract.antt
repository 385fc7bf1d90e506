-- ===== src/Manager/Contract.antt =====
-- The state manager built from the managers of this repository, and the contracts of the interfaces.
use k8s_operator_libs.Prelude.{
  String, inl, Bool, true, false, Bool-cases, inr, Option, none, some, ◌==◌,
}
use k8s_operator_libs.Act.Follows.{Follows-lift}
use k8s_operator_libs.Kube.{Pod}
use k8s_operator_libs.Consts.{get_upgrade_state_label_key}
use k8s_operator_libs.Interfaces.{NodeUpgradeStateProvider}
use k8s_operator_libs.Interfaces.Contracts.{
  writes, Follows-of_node, ProviderWrites, CordonWrites, SafeDriverLoadWrites, ValidationWrites,
  PodManagerWrites, DrainWrites,
}
use k8s_operator_libs.Client.{Client}
use k8s_operator_libs.Client.Laws.{PollLaws, LabelLaws}
use k8s_operator_libs.System.{System}
use k8s_operator_libs.Provider.{new_node_upgrade_state_provider}
use k8s_operator_libs.Provider.Labels.{provider-ProviderWrites}
use k8s_operator_libs.Cordon.{new_cordon_manager}
use k8s_operator_libs.SafeDriverLoad.{new_safe_driver_load_manager}
use k8s_operator_libs.Validation.{new_validation_manager}
use k8s_operator_libs.Drain
use k8s_operator_libs.Pods
use k8s_operator_libs.Pods.Revision.{get_pod_controller_revision_hash}
use k8s_operator_libs.StateManager.{ClusterUpgradeStateManager}
use k8s_operator_libs.StateManager.Transitions.{ManagerWrites}
use k8s_operator_libs.Manager.{
  no_filter, new_cluster_upgrade_state_manager, with_pod_deletion_enabled, with_validation_enabled,
  new_manager,
}
use k8s_operator_libs.Manager.Labels.{cordon-Follows, unblock_loading-Follows, validate-Follows}
use k8s_operator_libs.Manager.Background.{
  api_label, schedule_nodes_drain-Follows, schedule_pod_eviction-Follows, check_with-Follows,
  schedule_pods_restart-Follows, daemonset_hash-Follows,
}

module _ {K : Type 0} (client : Client (System K)) (label : K → String → String)
    (driver_name : String) (poll : PollLaws client)
    (laws : LabelLaws client (api_label label) (get_upgrade_state_label_key driver_name)) where
  abbrev provider : NodeUpgradeStateProvider (System K)
  provider = new_node_upgrade_state_provider client driver_name

  provided : ProviderWrites (api_label label) provider
  provided = provider-ProviderWrites client (api_label label) driver_name poll laws

  cordon_manager-CordonWrites : CordonWrites (api_label label) (new_cordon_manager client)
  unfolding new_cordon_manager
  cordon_manager-CordonWrites = record {
    cordon = λ P name. cordon-Follows client (api_label label) _ laws provider provided P name true;
    uncordon =
        λ P name. cordon-Follows client (api_label label) _ laws provider provided P name false;
  }

  safe_load-SafeDriverLoadWrites :
      SafeDriverLoadWrites (api_label label) (new_safe_driver_load_manager provider driver_name)
  unfolding new_safe_driver_load_manager
  safe_load-SafeDriverLoadWrites = record {
    is_waiting = λ P name. Follows-of_node _ name _;
    unblock_loading = λ P name.
        unblock_loading-Follows client (api_label label) _ laws provider provided P driver_name
          name;
  }

  validation-ValidationWrites :
      (selector : String)
      → ValidationWrites
          (api_label label)
          (new_validation_manager client provider driver_name selector)
  unfolding new_validation_manager
  validation-ValidationWrites selector = record {
    validate = λ P name failed.
        validate-Follows client (api_label label) _ laws provider provided P driver_name name
          selector failed;
  }

  pods-PodManagerWrites :
      (filter : Pod → Bool)
      → PodManagerWrites (api_label label) (Pods.new_pod_manager client provider filter driver_name)
  unfolding Pods.new_pod_manager get_pod_controller_revision_hash
  pods-PodManagerWrites filter = record {
    schedule_check = λ P config moved.
        check_with-Follows client (api_label label) _ laws provider provided P driver_name
          config.wait_for_completion_spec config.nodes moved;
    schedule_restart = λ P pods.
        schedule_pods_restart-Follows client (api_label label) _ laws provider provided P pods;
    schedule_eviction = λ P config. schedule_pod_eviction-Follows label P filter config;
    pod_hash = λ P pod. Follows-lift _;
    daemonset_hash =
        λ P ds. daemonset_hash-Follows client (api_label label) _ laws provider provided P ds;
  }

  drains-DrainWrites : DrainWrites (api_label label) Drain.new_drain_manager
  unfolding Drain.new_drain_manager
  drains-DrainWrites = record { schedule_drain = schedule_nodes_drain-Follows label }

  with_pod_deletion_enabled-ManagerWrites :
      (filter : Option (Pod → Bool))
      → ManagerWrites (api_label label) (
          with_pod_deletion_enabled client
            (new_cluster_upgrade_state_manager client driver_name)
            filter)
  unfolding new_cluster_upgrade_state_manager with_pod_deletion_enabled
  with_pod_deletion_enabled-ManagerWrites none = record {
    provider = provided;
    cordon_manager = cordon_manager-CordonWrites;
    safe_load = safe_load-SafeDriverLoadWrites;
    validation = validation-ValidationWrites "";
    pods = pods-PodManagerWrites no_filter;
    drains = drains-DrainWrites;
  }
  with_pod_deletion_enabled-ManagerWrites (some filter) = record {
    provider = provided;
    cordon_manager = cordon_manager-CordonWrites;
    safe_load = safe_load-SafeDriverLoadWrites;
    validation = validation-ValidationWrites "";
    pods = pods-PodManagerWrites filter;
    drains = drains-DrainWrites;
  }

  with_validation_enabled-ManagerWrites :
      (m : ClusterUpgradeStateManager (System K)) (selector : String)
      → ManagerWrites (api_label label) m
      → ValidationWrites
          (api_label label)
          (new_validation_manager client m.node_upgrade_state_provider m.driver_name selector)
      → ManagerWrites (api_label label) (with_validation_enabled client m selector)
  unfolding with_validation_enabled
  with_validation_enabled-ManagerWrites m selector writes valid =
      elim (Bool-cases (selector == "")) [
        | inl disabled ↦ rw disabled writes
        | inr enabled ↦ rw enabled (record {
          provider = writes.provider;
          cordon_manager = writes.cordon_manager;
          safe_load = writes.safe_load;
          validation = valid;
          pods = writes.pods;
          drains = writes.drains;
        })
      ]

  same_provider :
      (filter : Option (Pod → Bool)) (selector : String)
      → ValidationWrites (api_label label) (
          let m =
            with_pod_deletion_enabled client
              (new_cluster_upgrade_state_manager client driver_name)
              filter in
          new_validation_manager client m.node_upgrade_state_provider m.driver_name selector)
  unfolding new_cluster_upgrade_state_manager with_pod_deletion_enabled
  same_provider none selector = validation-ValidationWrites selector
  same_provider (some filter) selector = validation-ValidationWrites selector

  -- The manager of `NewClusterUpgradeStateManager`, with or without the two options, meets the
  -- contracts that the state machine rests on, from the laws of the clients.
  pub new_manager-ManagerWrites :
      (filter : Option (Pod → Bool)) (selector : String)
      → ManagerWrites (api_label label) (new_manager client driver_name filter selector)
  unfolding new_manager
  new_manager-ManagerWrites filter selector =
      with_validation_enabled-ManagerWrites _ selector
        (with_pod_deletion_enabled-ManagerWrites filter) (same_provider filter selector)
