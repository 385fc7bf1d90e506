-- ===== src/Execution.antt =====
-- The operator at work: reconciles of upgrade_state.go, with the goroutines of drain_manager.go and
-- pod_manager.go ending between them in any order.
pub mod Change
pub mod Stages
pub mod Advance
use k8s_operator_libs.Prelude.{String, ◌≡◌, ◌⊎◌, Bool, List, ◌∷◌, ◌++◌, Option, some}
use k8s_operator_libs.Act.{Act, ◌>>=◌}
use k8s_operator_libs.StringMap.{StringMap}
use k8s_operator_libs.Kube.{Pod}
use k8s_operator_libs.Api.{DriverUpgradePolicySpec}
use k8s_operator_libs.Client.{Client}
use k8s_operator_libs.System.{System, DrainTask, EvictionTask}
use k8s_operator_libs.Provider.{new_node_upgrade_state_provider}
use k8s_operator_libs.Drain.{run_drain_task}
use k8s_operator_libs.Pods.{run_eviction_task}
use k8s_operator_libs.StateManager.{ClusterUpgradeStateManager}
use k8s_operator_libs.StateManager.Apply.{ScaledValue, apply_state}
use k8s_operator_libs.StateManager.Build.{build_state}

-- A snapshot, and `ApplyState` on it.
unfoldable pub reconcile :
    {W : Type 0}
    → ScaledValue
    → Client W
    → ClusterUpgradeStateManager W
    → String
    → StringMap String
    → DriverUpgradePolicySpec
    → Act W Unit
reconcile scaled_value client m namespace driver_labels policy =
    build_state client m namespace driver_labels >>= λ c.
    apply_state scaled_value m (some c) (some policy)

module _ {K : Type 0} (label : K → String → String) (scaled_value : ScaledValue)
    (client : Client (System K)) (driver_name : String) (m : ClusterUpgradeStateManager (System K))
    (filter : Pod → Bool) (namespace : String) (driver_labels : StringMap String) where
  -- The policy may change from one reconcile to the next. `elsewhere` is whatever leaves the labels
  -- alone.
  pub data Step : System K → System K → Type 0 where
    reconciled :
        (s : System K) (policy : DriverUpgradePolicySpec)
        → Step s (reconcile scaled_value client m namespace driver_labels policy s).1
    end_drain :
        (s : System K) (before after : List DrainTask) (task : DrainTask)
        → s.drain_tasks ≡ before ++ task ∷ after
        → Step s
            (run_drain_task client
              (new_node_upgrade_state_provider client driver_name)
              task
              (record s { drain_tasks = before ++ after })).1
    end_eviction :
        (s : System K) (before after : List EvictionTask) (task : EvictionTask)
        → s.eviction_tasks ≡ before ++ task ∷ after
        → Step s
            (run_eviction_task client
              (new_node_upgrade_state_provider client driver_name)
              filter
              task
              (record s { eviction_tasks = before ++ after })).1
    elsewhere :
        (s s' : System K) → ((name : String) → label s'.api name ≡ label s.api name) → Step s s'

  -- An execution from `s`.
  pub data Run (s : System K) : System K → Type 0 where
    begin : Run s s
    next : (t u : System K) → Run s t → Step t u → Run s u

  -- Somewhere on the way, the node's label was one of these.
  abbrev pub Visits : (String → Type 0) → String → (s t : System K) → Run s t → Type 0
  Visits P name s _ begin = P (label s.api name)
  Visits P name s _ (next t u run step) = Visits P name s t run ⊎ P (label u.api name)
