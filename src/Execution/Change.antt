-- ===== src/Execution/Change.antt =====
-- What one step of an execution does to the state label of a node: a handler of upgrade_state.go, or
-- the end of a goroutine of drain_manager.go or pod_manager.go.
use mathlib.Core.Path.{subst}
use k8s_operator_libs.Prelude.{String, ◌≡◌, refl, sym, ap, ◌∙◌, ◌⊎◌, inl, inr, Bool, some, ◌++◌}
use k8s_operator_libs.Act.{Result, ok, err, continue, ◌>>=◌}
use k8s_operator_libs.StringMap.{StringMap}
use k8s_operator_libs.Kube.{Pod}
use k8s_operator_libs.Api.{DriverUpgradePolicySpec}
use k8s_operator_libs.Consts.{get_upgrade_state_label_key}
use k8s_operator_libs.Client.{Client}
use k8s_operator_libs.Client.Laws.{PollLaws, LabelLaws, ListLaws}
use k8s_operator_libs.System.{System, DrainTask, EvictionTask}
use k8s_operator_libs.StateManager.{
  NodeUpgradeState, ClusterUpgradeState, ClusterUpgradeStateManager,
}
use k8s_operator_libs.StateManager.Apply.{ScaledValue, apply_state}
use k8s_operator_libs.StateManager.Build.{build_state}
use k8s_operator_libs.StateManager.Build.Fresh.{ReadsLabels, build_state-fresh, build_state-label}
use k8s_operator_libs.StateManager.Build.Groups.{build_state_groups_by_label}
use k8s_operator_libs.StateManager.Moves.{Move, Moved}
use k8s_operator_libs.StateManager.Transitions.{ManagerWrites}
use k8s_operator_libs.StateManager.Transitions.Reconcile.{apply_state-Moved}
use k8s_operator_libs.Manager.Background.{api_label}
use k8s_operator_libs.Manager.Goroutines.{
  DrainOutcome, EvictionOutcome, run_drain_task-DrainOutcome, run_eviction_task-EvictionOutcome,
}
use k8s_operator_libs.Execution.{reconcile, Step}

-- A handler moves the node called `name` from the label `old` that it has.
pub record Handled {W : Type 0} (m : ClusterUpgradeStateManager W)
    (policy : DriverUpgradePolicySpec) (name old new : String) : Type 0 where
  pub nus : NodeUpgradeState
  pub same_name : nus.node.name ≡ name
  pub move : Move m policy old nus new

module _ {W : Type 0} (state_label : W → String → String) (scaled_value : ScaledValue)
    (client : Client W) (m : ClusterUpgradeStateManager W) (laws : ManagerWrites state_label m)
    (reading : ReadsLabels state_label
      (get_upgrade_state_label_key m.driver_name)
      m.node_upgrade_state_provider)
    (lists : ListLaws client state_label) (namespace : String) (driver_labels : StringMap String)
    (policy : DriverUpgradePolicySpec) (w : W) (name : String) where
  Moved-Handled :
      (c : ClusterUpgradeState) (new : String)
      → (build_state client m namespace driver_labels w).0 ≡ ok c
      → Moved m policy c name new
      → Handled m policy name (state_label w name) new
  Moved-Handled c new e moved = record {
    nus = moved.nus;
    same_name = moved.same_name;
    move =
        subst (λ old. Move m policy old moved.nus new)
          (sym (
              build_state_groups_by_label m client namespace driver_labels w c moved.group moved.nus
                e moved.member)
            ∙ build_state-fresh client m state_label reading lists w namespace driver_labels c
                moved.group moved.nus e moved.member
            ∙ ap (state_label w) moved.same_name)
          moved.move;
  }

  continue-Handled :
      (r : Result ClusterUpgradeState) (w' : W)
      → (build_state client m namespace driver_labels w).0 ≡ r
      → state_label w' name ≡ state_label w name
      → let w'' = (continue r (λ c. apply_state scaled_value m (some c) (some policy)) w').1 in
        (state_label w'' name ≡ state_label w name)
        ⊎ Handled m policy name (state_label w name) (state_label w'' name)
  unfolding continue
  continue-Handled (err x) w' e same = inl same
  continue-Handled (ok c) w' e same =
      elim (apply_state-Moved state_label scaled_value m laws policy c w' name) [
        | inl kept ↦ inl (kept ∙ same)
        | inr moved ↦ inr (Moved-Handled c _ e moved)
      ]

  -- A reconcile on an up-to-date cache moves a node only along the state machine, from the label
  -- that the node has.
  pub reconcile-Handled :
      let w' = (reconcile scaled_value client m namespace driver_labels policy w).1 in
      (state_label w' name ≡ state_label w name)
      ⊎ Handled m policy name (state_label w name) (state_label w' name)
  unfolding reconcile ◌>>=◌
  reconcile-Handled =
      continue-Handled _ _ refl
        (build_state-label client m state_label reading lists w namespace driver_labels name)

-- How a node's label changes from `old` to `new`.
pub data Change {W : Type 0} (m : ClusterUpgradeStateManager W) (name old new : String)
    : Type 0 where
  by_handler :
      (policy : DriverUpgradePolicySpec) → Handled m policy name old new → Change m name old new
  by_drain : (task : DrainTask) → DrainOutcome task name new → Change m name old new
  by_eviction : (task : EvictionTask) → EvictionOutcome task name new → Change m name old new

-- What the steps of an execution rest on.
pub record ExecutionLaws {K : Type 0} (label : K → String → String) (client : Client (System K))
    (driver_name : String) (m : ClusterUpgradeStateManager (System K)) : Type 1 where
  pub poll : PollLaws client
  pub labels : LabelLaws client (api_label label) (get_upgrade_state_label_key driver_name)
  pub managers : ManagerWrites (api_label label) m
  pub reading :
      ReadsLabels
        (api_label label)
        (get_upgrade_state_label_key m.driver_name)
        m.node_upgrade_state_provider
  pub lists : ListLaws client (api_label label)

module _ {K : Type 0} (label : K → String → String) (scaled_value : ScaledValue)
    (client : Client (System K)) (driver_name : String) (m : ClusterUpgradeStateManager (System K))
    (filter : Pod → Bool) (namespace : String) (driver_labels : StringMap String)
    (laws : ExecutionLaws label client driver_name m) (name : String) where
  pub Step-Change :
      (s s' : System K)
      → Step label scaled_value client driver_name m filter namespace driver_labels s s'
      → (label s'.api name ≡ label s.api name)
        ⊎ Change m name (label s.api name) (label s'.api name)
  Step-Change s _ (Step.reconciled _ policy) =
      elim (reconcile-Handled (api_label label) scaled_value client m laws.managers laws.reading
        laws.lists namespace driver_labels policy s name) [
          | inl same ↦ inl same
          | inr handled ↦ inr (Change.by_handler policy handled)
        ]
  Step-Change s _ (Step.end_drain _ before after task _) =
      elim (run_drain_task-DrainOutcome client label driver_name laws.poll laws.labels task
        (record s { drain_tasks = before ++ after }) name) [
          | inl same ↦ inl same
          | inr outcome ↦ inr (Change.by_drain task outcome)
        ]
  Step-Change s _ (Step.end_eviction _ before after task _) =
      elim (run_eviction_task-EvictionOutcome client label driver_name laws.poll laws.labels filter
        task (record s { eviction_tasks = before ++ after }) name) [
          | inl same ↦ inl same
          | inr outcome ↦ inr (Change.by_eviction task outcome)
        ]
  Step-Change s s' (Step.elsewhere _ _ same) = inl (same name)
