-- ===== src/Execution/Stages.antt =====
-- The state labels of consts.go over a whole execution.
use mathlib.Core.Path.{subst}
use k8s_operator_libs.Prelude.{
  String, ◌≡◌, refl, sym, ◌⊎◌, inl, inr, Bool, true, false, ◌||◌, ◌==◌, arith,
}
use k8s_operator_libs.StringMap.{StringMap}
use k8s_operator_libs.Kube.{Pod}
use k8s_operator_libs.Api.{DriverUpgradePolicySpec}
use k8s_operator_libs.Consts.{
  upgrade_state_unknown, upgrade_state_upgrade_required, upgrade_state_cordon_required,
  upgrade_state_wait_for_jobs_required, upgrade_state_pod_deletion_required,
  upgrade_state_drain_required, upgrade_state_pod_restart_required,
  upgrade_state_validation_required, upgrade_state_uncordon_required, upgrade_state_done,
  upgrade_state_failed,
}
use k8s_operator_libs.Client.{Client}
use k8s_operator_libs.System.{System, DrainTask, EvictionTask}
use k8s_operator_libs.StateManager.{NodeUpgradeState, ClusterUpgradeStateManager}
use k8s_operator_libs.StateManager.Apply.{ScaledValue}
use k8s_operator_libs.StateManager.Moves.{Move, Ending}
use k8s_operator_libs.Manager.Goroutines.{DrainOutcome, EvictionOutcome}
use k8s_operator_libs.Execution.{Run, Visits}
use k8s_operator_libs.Execution.Change.{Change, ExecutionLaws, Step-Change}

-- An upgrade has been asked for or has begun, and the driver pod is not to be restarted yet.
abbrev pub is_underway : String → Bool
is_underway state =
    state == upgrade_state_upgrade_required
    || state == upgrade_state_cordon_required
    || state == upgrade_state_wait_for_jobs_required
    || state == upgrade_state_pod_deletion_required
    || state == upgrade_state_drain_required

-- The restart of the driver pod, or a failure.
abbrev pub is_turning_point : String → Bool
is_turning_point state =
    state == upgrade_state_pod_restart_required || state == upgrade_state_failed

-- The states of consts.go.
abbrev pub is_upgrade_state : String → Bool
is_upgrade_state state =
    state == upgrade_state_unknown
    || is_underway state
    || is_turning_point state
    || state == upgrade_state_validation_required
    || state == upgrade_state_uncordon_required
    || state == upgrade_state_done

-- What is underway stays so, or has come to the turning point.
abbrev Onward : String → Type 0
Onward state = (is_underway state ≡ true) ⊎ (is_turning_point state ≡ true)

module _ {W : Type 0} (m : ClusterUpgradeStateManager W) where
  Move-Onward :
      {policy : DriverUpgradePolicySpec} {nus : NodeUpgradeState} {old new : String}
      → Move m policy old nus new
      → is_underway old ≡ true
      → Onward new
  Move-Onward Move.settle h = cc
  Move-Onward Move.require h = cc
  Move-Onward Move.require_again h = cc
  Move-Onward Move.start h = inl refl
  Move-Onward Move.cordon h = inl refl
  Move-Onward (Move.skip_jobs _ _) h = inl refl
  Move-Onward Move.leave_jobs h = inl refl
  Move-Onward (Move.skip_deletion _) h = inl refl
  Move-Onward (Move.skip_drain _) h = inr refl
  Move-Onward (Move.to_validation _ _) h = cc
  Move-Onward (Move.skip_validation _ _ _) h = cc
  Move-Onward (Move.restart_failed _ _) h = cc
  Move-Onward (Move.recover _ _) h = cc
  Move-Onward (Move.validate _) h = cc
  Move-Onward Move.validation_failed h = cc
  Move-Onward Move.uncordon h = cc

  Ending-is_state : {state : String} → Ending state → is_upgrade_state state ≡ true
  Ending-is_state Ending.to_uncordon = refl
  Ending-is_state Ending.to_done = refl

  Move-is_state :
      {policy : DriverUpgradePolicySpec} {nus : NodeUpgradeState} {old new : String}
      → Move m policy old nus new
      → is_upgrade_state new ≡ true
  Move-is_state Move.settle = refl
  Move-is_state Move.require = refl
  Move-is_state Move.require_again = refl
  Move-is_state Move.start = refl
  Move-is_state Move.cordon = refl
  Move-is_state (Move.skip_jobs _ _) = refl
  Move-is_state Move.leave_jobs = refl
  Move-is_state (Move.skip_deletion _) = refl
  Move-is_state (Move.skip_drain _) = refl
  Move-is_state (Move.to_validation _ _) = refl
  Move-is_state (Move.skip_validation _ _ ending) = Ending-is_state ending
  Move-is_state (Move.restart_failed _ _) = refl
  Move-is_state (Move.recover _ ending) = Ending-is_state ending
  Move-is_state (Move.validate ending) = Ending-is_state ending
  Move-is_state Move.validation_failed = refl
  Move-is_state Move.uncordon = refl

  drain-Onward : {task : DrainTask} {name new : String} → DrainOutcome task name new → Onward new
  drain-Onward DrainOutcome.drained = inr refl
  drain-Onward DrainOutcome.not_drained = inr refl

  eviction-Onward :
      {task : EvictionTask} {name new : String} → EvictionOutcome task name new → Onward new
  eviction-Onward EvictionOutcome.evicted = inr refl
  eviction-Onward (EvictionOutcome.fall_back _) = inl refl
  eviction-Onward (EvictionOutcome.not_evicted _) = inr refl

  Onward-is_state : (state : String) → Onward state → is_upgrade_state state ≡ true
  Onward-is_state state h = ground arith

  Change-Onward :
      {name old new : String} → Change m name old new → is_underway old ≡ true → Onward new
  Change-Onward (Change.by_handler _ handled) h = Move-Onward handled.move h
  Change-Onward (Change.by_drain _ outcome) h = drain-Onward outcome
  Change-Onward (Change.by_eviction _ outcome) h = eviction-Onward outcome

  Change-is_state : {name old new : String} → Change m name old new → is_upgrade_state new ≡ true
  Change-is_state {new} (Change.by_handler _ handled) = Move-is_state handled.move
  Change-is_state {new} (Change.by_drain _ outcome) = Onward-is_state new (drain-Onward outcome)
  Change-is_state {new} (Change.by_eviction _ outcome) =
      Onward-is_state new (eviction-Onward outcome)

module _ {K : Type 0} (label : K → String → String) (scaled_value : ScaledValue)
    (client : Client (System K)) (driver_name : String) (m : ClusterUpgradeStateManager (System K))
    (filter : Pod → Bool) (namespace : String) (driver_labels : StringMap String)
    (laws : ExecutionLaws label client driver_name m) (name : String) where
  abbrev Execution : System K → System K → Type 0
  Execution = Run label scaled_value client driver_name m filter namespace driver_labels

  abbrev Turned : (s t : System K) → Execution s t → Type 0
  Turned =
      Visits label scaled_value client driver_name m filter namespace driver_labels
        (λ state. is_turning_point state ≡ true) name

  underway_or_Turned :
      (s t : System K) (run : Execution s t)
      → is_underway (label s.api name) ≡ true
      → (is_underway (label t.api name) ≡ true) ⊎ Turned s t run
  underway_or_Turned s _ Run.begin h = inl h
  underway_or_Turned s _ (Run.next t u run step) h = elim (underway_or_Turned s t run h) [
    | inr turned ↦ inr (inl turned)
    | inl still ↦
        elim (Step-Change label scaled_value client driver_name m filter namespace driver_labels
          laws name t u step) [
            | inl same ↦ inl (subst (λ state. is_underway state ≡ true) (sym same) still)
            | inr change ↦ elim (Change-Onward m change still) [
              | inl onward ↦ inl onward
              | inr turning ↦ inr (inr turning)
            ]
          ]
  ]

  left-Turned :
      (s t : System K) (run : Execution s t)
      → is_underway (label t.api name) ≡ false
      → (is_underway (label t.api name) ≡ true) ⊎ Turned s t run
      → Turned s t run
  left-Turned s t run left (inl still) = cc
  left-Turned s t run left (inr turned) = turned

  -- In every execution from one state of the system to another, of reconciles with any policies and
  -- of ends of goroutines, in any order, on an up-to-date cache and with managers that meet the
  -- contracts of the interfaces: a node whose upgrade is asked for or underway at the start, and at
  -- the end no longer, has come on the way to the restart of its driver pod or to a failure.
  pub restart_not_skipped :
      (s t : System K)
      (run : Run label scaled_value client driver_name m filter namespace driver_labels s t)
      → is_underway (label s.api name) ≡ true
      → is_underway (label t.api name) ≡ false
      → Visits label scaled_value client driver_name m filter namespace driver_labels
          (λ state. is_turning_point state ≡ true)
          name
          s
          t
          run
  restart_not_skipped s t run h left = left-Turned s t run left (underway_or_Turned s t run h)

  -- In every execution from one state of the system to another, of reconciles with any policies and
  -- of ends of goroutines, in any order, on an up-to-date cache and with managers that meet the
  -- contracts of the interfaces: a node whose label is one of the upgrade states at the start has
  -- one of them at the end.
  pub labels_stay_states :
      (s t : System K)
      → Run label scaled_value client driver_name m filter namespace driver_labels s t
      → is_upgrade_state (label s.api name) ≡ true
      → is_upgrade_state (label t.api name) ≡ true
  labels_stay_states s _ Run.begin h = h
  labels_stay_states s _ (Run.next t u run step) h =
      elim (Step-Change label scaled_value client driver_name m filter namespace driver_labels laws
        name t u step) [
          | inl same ↦
              subst (λ state. is_upgrade_state state ≡ true) (sym same)
                (labels_stay_states s t run h)
          | inr change ↦ Change-is_state m change
        ]
