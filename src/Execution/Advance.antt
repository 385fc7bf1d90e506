-- ===== src/Execution/Advance.antt =====
-- How often the label of a node can change in one upgrade: the states of consts.go by how far they
-- are from the end.
use mathlib.Core.Path.{subst}
use k8s_operator_libs.Prelude.{
  ℕ, suc, ◌+◌, ◌≤◌, ◌<◌, String, ◌≡◌, ◌≢◌, sym, inl, inr, Bool, ◌++◌, arith, ◌==◌, if◌then◌else◌,
}
use k8s_operator_libs.StringMap.{StringMap}
use k8s_operator_libs.Kube.{Pod}
use k8s_operator_libs.Api.{DriverUpgradePolicySpec}
use k8s_operator_libs.Consts.{
  upgrade_state_upgrade_required, upgrade_state_cordon_required,
  upgrade_state_wait_for_jobs_required, upgrade_state_pod_deletion_required,
  upgrade_state_drain_required, upgrade_state_pod_restart_required,
  upgrade_state_validation_required, upgrade_state_uncordon_required, upgrade_state_failed,
}
use k8s_operator_libs.Client.{Client}
use k8s_operator_libs.System.{System, DrainTask, EvictionTask}
use k8s_operator_libs.StateManager.{NodeUpgradeState, ClusterUpgradeStateManager}
use k8s_operator_libs.StateManager.Apply.{ScaledValue}
use k8s_operator_libs.StateManager.Moves.{Move, Ending}
use k8s_operator_libs.Manager.Background.{api_label}
use k8s_operator_libs.Manager.Goroutines.{
  DrainOutcome, EvictionOutcome, run_drain_task-DrainOutcome, run_eviction_task-EvictionOutcome,
}
use k8s_operator_libs.Execution.{Step}
use k8s_operator_libs.Execution.Change.{ExecutionLaws, reconcile-Handled}

-- How many changes of the label are left at most: a failed upgrade may still recover and be finished;
-- none are left where no upgrade is going on.
abbrev pub changes_left : String → ℕ
changes_left state =
    if state == upgrade_state_upgrade_required
    then 9
    else if state == upgrade_state_cordon_required
    then 8
    else if state == upgrade_state_wait_for_jobs_required
    then 7
    else if state == upgrade_state_pod_deletion_required
    then 6
    else if state == upgrade_state_drain_required
    then 5
    else if state == upgrade_state_pod_restart_required
    then 4
    else if state == upgrade_state_validation_required
    then 3
    else if state == upgrade_state_failed
    then 2
    else if state == upgrade_state_uncordon_required
    then 1
    else 0

abbrev IsNearer : String → String → Type 0
IsNearer old new = changes_left new < changes_left old

Ending-IsNearer : {state : String} → Ending state → changes_left state < 2
Ending-IsNearer Ending.to_uncordon = omega arith
Ending-IsNearer Ending.to_done = omega arith

Move-IsNearer :
    {W : Type 0} (m : ClusterUpgradeStateManager W) {policy : DriverUpgradePolicySpec}
    {nus : NodeUpgradeState} {old new : String}
    → Move m policy old nus new
    → 0 < changes_left old
    → IsNearer old new
Move-IsNearer m Move.settle h = absurd (omega arith)
Move-IsNearer m Move.require h = absurd (omega arith)
Move-IsNearer m Move.require_again h = absurd (omega arith)
Move-IsNearer m Move.start h = omega arith
Move-IsNearer m Move.cordon h = omega arith
Move-IsNearer m (Move.skip_jobs _ _) h = omega arith
Move-IsNearer m Move.leave_jobs h = omega arith
Move-IsNearer m (Move.skip_deletion _) h = omega arith
Move-IsNearer m (Move.skip_drain _) h = omega arith
Move-IsNearer m (Move.to_validation _ _) h = omega arith
Move-IsNearer m (Move.skip_validation _ _ ending) h = omega (arith, Ending-IsNearer ending)
Move-IsNearer m (Move.restart_failed _ _) h = omega arith
Move-IsNearer m (Move.recover _ ending) h = omega (arith, Ending-IsNearer ending)
Move-IsNearer m (Move.validate ending) h = omega (arith, Ending-IsNearer ending)
Move-IsNearer m Move.validation_failed h = omega arith
Move-IsNearer m Move.uncordon h = omega arith

drain-IsNearer :
    {task : DrainTask} {name old new : String}
    → old ≡ upgrade_state_drain_required
    → DrainOutcome task name new
    → IsNearer old new
drain-IsNearer e DrainOutcome.drained = rw e (omega arith)
drain-IsNearer e DrainOutcome.not_drained = rw e (omega arith)

eviction-IsNearer :
    {task : EvictionTask} {name old new : String}
    → old ≡ upgrade_state_pod_deletion_required
    → EvictionOutcome task name new
    → IsNearer old new
eviction-IsNearer e EvictionOutcome.evicted = rw e (omega arith)
eviction-IsNearer e (EvictionOutcome.fall_back _) = rw e (omega arith)
eviction-IsNearer e (EvictionOutcome.not_evicted _) = rw e (omega arith)

changes_left-le : (state : String) → changes_left state ≤ 9
changes_left-le state = ground arith

module _ {K : Type 0} (label : K → String → String) (scaled_value : ScaledValue)
    (client : Client (System K)) (driver_name : String) (m : ClusterUpgradeStateManager (System K))
    (filter : Pod → Bool) (namespace : String) (driver_labels : StringMap String)
    (name : String) where
  abbrev Steps : System K → System K → Type 0
  Steps = Step label scaled_value client driver_name m filter namespace driver_labels

  -- A goroutine that ends finds the node in the state for which it was started.
  abbrev pub IsTimely : (s t : System K) → Steps s t → Type 0
  IsTimely s _ (Step.reconciled _ policy) = Unit {0}
  IsTimely s _ (Step.end_drain _ before after task _) =
      label s.api name ≡ upgrade_state_drain_required
  IsTimely s _ (Step.end_eviction _ before after task _) =
      label s.api name ≡ upgrade_state_pod_deletion_required
  IsTimely s t (Step.elsewhere _ _ _) = Unit {0}

  -- One upgrade of the node, from `s`: the label has changed so often. Every state but the last is one
  -- of an upgrade that goes on, and the node's goroutines end in time.
  pub data Upgrading (s : System K) : ℕ → System K → Type 0 where
    begin : Upgrading s 0 s
    wait :
        (n : ℕ) (t u : System K)
        → Upgrading s n t
        → Steps t u
        → label u.api name ≡ label t.api name
        → Upgrading s n u
    advance :
        (n : ℕ) (t u : System K)
        → Upgrading s n t
        → (step : Steps t u) → IsTimely t u step
        → 0 < changes_left (label t.api name)
        → label u.api name ≢ label t.api name
        → Upgrading s (suc n) u

  module _ (laws : ExecutionLaws label client driver_name m) where
    step-IsNearer :
        (t u : System K) (step : Steps t u)
        → IsTimely t u step
        → 0 < changes_left (label t.api name)
        → label u.api name ≢ label t.api name
        → IsNearer (label t.api name) (label u.api name)
    step-IsNearer t _ (Step.reconciled _ policy) timely h changed =
        elim (reconcile-Handled (api_label label) scaled_value client m laws.managers laws.reading
          laws.lists namespace driver_labels policy t name) [
            | inl same ↦ absurd (changed same)
            | inr handled ↦ Move-IsNearer m handled.move h
          ]
    step-IsNearer t _ (Step.end_drain _ before after task _) timely h changed =
        elim (run_drain_task-DrainOutcome client label driver_name laws.poll laws.labels task
          (record t { drain_tasks = before ++ after }) name) [
            | inl same ↦ absurd (changed same)
            | inr outcome ↦ drain-IsNearer timely outcome
          ]
    step-IsNearer t _ (Step.end_eviction _ before after task _) timely h changed =
        elim (run_eviction_task-EvictionOutcome client label driver_name laws.poll laws.labels
          filter task (record t { eviction_tasks = before ++ after }) name) [
            | inl same ↦ absurd (changed same)
            | inr outcome ↦ eviction-IsNearer timely outcome
          ]
    step-IsNearer t u (Step.elsewhere _ _ same) timely h changed = absurd (changed (same name))

    changes_bounded :
        (s t : System K) (n : ℕ)
        → Upgrading s n t
        → n + changes_left (label t.api name) ≤ changes_left (label s.api name)
    changes_bounded s _ _ Upgrading.begin = omega arith
    changes_bounded s _ _ (Upgrading.wait n t u before step same) =
        subst (λ state. n + changes_left state ≤ changes_left (label s.api name)) (sym same)
          (changes_bounded s t n before)
    changes_bounded s _ _ (Upgrading.advance n t u before step timely h changed) =
        omega (arith, changes_bounded s t n before, step-IsNearer t u step timely h changed)

    -- On an up-to-date cache and with managers that meet the contracts of the interfaces: in one
    -- upgrade of a node, in which its goroutines end while it is in the state for which they were
    -- started, a failure and the recovery from it included, the changes of its label and those that
    -- its last state has left are together no more than those that its first state had left; so there
    -- are nine at most.
    pub upgrade_changes_bounded :
        (s t : System K) (n : ℕ)
        → Upgrading s n t
        → (n + changes_left (label t.api name) ≤ changes_left (label s.api name)) × (n ≤ 9)
    upgrade_changes_bounded s t n upgrade =
        let bounded = changes_bounded s t n upgrade in
        (bounded, omega (arith, changes_left-le (label s.api name)))
