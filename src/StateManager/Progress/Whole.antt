-- ===== src/StateManager/Progress/Whole.antt =====
-- `ApplyState` of upgrade_state.go as a whole: what a call that succeeds has finished.
use k8s_operator_libs.Prelude.{
  String, ◌≡◌, refl, sym, ap, ◌∙◌, inl, inr, Bool, true, false, not, Memᴰ, arith, ◌==◌, some,
  if◌then◌else◌,
}
use k8s_operator_libs.Prelude.Int.{ℤ}
use k8s_operator_libs.Act.{Act, ok, ◌>>◌}
use k8s_operator_libs.Act.Follows.{Preorder, Follows, follows_rules}
use k8s_operator_libs.Act.Triple.{
  Triple, Triple-bind, Triple-then, Triple-lift, Triple-of_Follows, Triple-if,
}
use k8s_operator_libs.StringMap.{StringMap}
use k8s_operator_libs.Api.{DriverUpgradePolicySpec}
use k8s_operator_libs.Consts.{
  get_upgrade_state_label_key, upgrade_state_cordon_required, upgrade_state_wait_for_jobs_required,
  upgrade_state_uncordon_required, upgrade_state_done, upgrade_state_drain_required,
  upgrade_state_pod_restart_required,
}
use k8s_operator_libs.Interfaces.Contracts.{writes}
use k8s_operator_libs.Interfaces.Successes.{ProviderSets}
use k8s_operator_libs.StateManager.{
  NodeUpgradeState, ClusterUpgradeState, ClusterUpgradeStateManager, nodes_in,
}
use k8s_operator_libs.StateManager.Apply.{ScaledValue, process_all, apply_enabled, apply_state}
use k8s_operator_libs.Client.{Client}
use k8s_operator_libs.Client.Laws.{ListLaws}
use k8s_operator_libs.StateManager.Build.{build_state}
use k8s_operator_libs.StateManager.Build.Fresh.{ReadsLabels, build_state-fresh}
use k8s_operator_libs.StateManager.Build.Groups.{build_state_groups_by_label}
use k8s_operator_libs.StateManager.Moves.{Move}
use k8s_operator_libs.StateManager.Process.{is_drain_enabled}
use k8s_operator_libs.StateManager.Progress.{
  Anything, process_cordon_required_nodes_progress, process_uncordon_required_nodes_progress,
  process_drain_nodes_progress,
}
use k8s_operator_libs.StateManager.Transitions.{ManagerWrites, Allowed}
use k8s_operator_libs.StateManager.Transitions.Reconcile.{handlers}

-- The groups whose nodes `ApplyState` moves on itself, each to the one state that follows.
pub data Finishes (policy : DriverUpgradePolicySpec) : String → String → Type 0 where
  cordoned : Finishes policy upgrade_state_cordon_required upgrade_state_wait_for_jobs_required
  not_drained :
      is_drain_enabled policy.drain_spec ≡ false
      → Finishes policy upgrade_state_drain_required upgrade_state_pod_restart_required
  uncordoned : Finishes policy upgrade_state_uncordon_required upgrade_state_done

-- The node of an entry stands in no other group.
pub record IsInGroup (c : ClusterUpgradeState) (name group : String) : Type 0 where
  pub only :
      (other : String) (nus : NodeUpgradeState)
      → Memᴰ nus (nodes_in c other)
      → nus.node.name ≡ name
      → other ≡ group

module _ {W : Type 0} (state_label : W → String → String) (client : Client W)
    (m : ClusterUpgradeStateManager W)
    (reading : ReadsLabels state_label
      (get_upgrade_state_label_key m.driver_name)
      m.node_upgrade_state_provider)
    (lists : ListLaws client state_label) (namespace : String) (driver_labels : StringMap String)
    (v : W) (c : ClusterUpgradeState) where
  group_is_label :
      (group : String) (nus : NodeUpgradeState)
      → (build_state client m namespace driver_labels v).0 ≡ ok c
      → Memᴰ nus (nodes_in c group)
      → group ≡ state_label v nus.node.name
  group_is_label group nus built mem =
      sym (build_state_groups_by_label m client namespace driver_labels v c group nus built mem)
      ∙ build_state-fresh client m state_label reading lists v namespace driver_labels c group nus
          built mem

  build_state-IsInGroup :
      (nus : NodeUpgradeState) (group : String)
      → (build_state client m namespace driver_labels v).0 ≡ ok c
      → Memᴰ nus (nodes_in c group)
      → IsInGroup c nus.node.name group
  build_state-IsInGroup nus group built mem = record {
    only = λ other another there same_name.
        group_is_label other another built there
        ∙ ap (state_label v) same_name
        ∙ sym (group_is_label group nus built mem);
  }

-- The state that a handler gives in such a group.
abbrev next_of : Bool → String → String → String
next_of drain_enabled old new =
    if old == upgrade_state_cordon_required
    then upgrade_state_wait_for_jobs_required
    else if old == upgrade_state_drain_required
    then (if drain_enabled then new else upgrade_state_pod_restart_required)
    else if old == upgrade_state_uncordon_required
    then upgrade_state_done
    else new

Move-next_of :
    {W : Type 0} {m : ClusterUpgradeStateManager W} {policy : DriverUpgradePolicySpec}
    {nus : NodeUpgradeState} {old new : String}
    → Move m policy old nus new
    → new ≡ next_of (is_drain_enabled policy.drain_spec) old new
Move-next_of Move.settle = refl
Move-next_of Move.require = refl
Move-next_of Move.require_again = refl
Move-next_of Move.start = refl
Move-next_of Move.cordon = refl
Move-next_of (Move.skip_jobs _ _) = refl
Move-next_of Move.leave_jobs = refl
Move-next_of (Move.skip_deletion _) = refl
Move-next_of (Move.skip_drain disabled) = rw disabled refl
Move-next_of (Move.to_validation _ _) = refl
Move-next_of (Move.skip_validation _ _ _) = refl
Move-next_of (Move.restart_failed _ _) = refl
Move-next_of (Move.recover _ _) = refl
Move-next_of (Move.validate _) = refl
Move-next_of Move.validation_failed = refl
Move-next_of Move.uncordon = refl

Finishes-next_of :
    {policy : DriverUpgradePolicySpec} {group target : String} (new : String)
    → Finishes policy group target
    → next_of (is_drain_enabled policy.drain_spec) group new ≡ target
Finishes-next_of new Finishes.cordoned = refl
Finishes-next_of new (Finishes.not_drained disabled) = rw disabled refl
Finishes-next_of new Finishes.uncordoned = refl

-- A handler that is called before the one that counts.
after :
    {W : Type 0} {Q : W → Type 0} (first rest : Act W Unit)
    → Triple Anything rest (λ _. Q)
    → Triple Anything (first >> rest) (λ _. Q)
after first rest k = Triple-then (λ _. Anything) first rest (record { at = λ s p a e. tt }) (λ _. k)

module _ {W : Type 0} (state_label : W → String → String) (m : ClusterUpgradeStateManager W)
    (laws : ManagerWrites state_label m) (policy : DriverUpgradePolicySpec)
    (c : ClusterUpgradeState) (name group target : String) (alone : IsInGroup c name group)
    (finishes : Finishes policy group target) where
  abbrev IsFinished : W → Type 0
  IsFinished w = state_label w name ≡ target

  abbrev allowed : Preorder W
  allowed = Allowed state_label m laws policy c

  -- No other handler takes the node out of its new state.
  stays-IsFinished : (w w' : W) → allowed.rel w w' → IsFinished w → IsFinished w'
  unfolding writes
  stays-IsFinished w w' r finished = elim (r name) [
    | inl same ↦ same ∙ finished
    | inr moved ↦
        Move-next_of moved.move
        ∙ ap (λ old. next_of (is_drain_enabled policy.drain_spec) old _)
            (alone.only moved.group moved.nus moved.member moved.same_name)
        ∙ Finishes-next_of _ finishes
  ]

  -- The handler that counts, and those behind it.
  here :
      (first rest : Act W Unit)
      → Triple Anything first (λ _. IsFinished)
      → Follows allowed rest
      → Triple Anything (first >> rest) (λ _. IsFinished)
  here first rest k follows =
      Triple-then (λ _. IsFinished) first rest k
        (λ _. Triple-of_Follows IsFinished rest follows stays-IsFinished)

module _ {W : Type 0} (state_label : W → String → String) (m : ClusterUpgradeStateManager W)
    (laws : ManagerWrites state_label m)
    (sets : ProviderSets state_label m.node_upgrade_state_provider)
    (policy : DriverUpgradePolicySpec) (c : ClusterUpgradeState) (nus : NodeUpgradeState) where
  process_all-Finishes :
      (group target : String)
      → IsInGroup c nus.node.name group
      → Finishes policy group target
      → Memᴰ nus (nodes_in c group)
      → (slots : ℤ)
      → Triple Anything (process_all m c policy slots) (λ _ w. state_label w nus.node.name ≡ target)
  unfolding process_all
  process_all-Finishes _ _ alone Finishes.cordoned mem slots =
      let cordoned = process_cordon_required_nodes_progress state_label m laws sets c in
      after _ _ (
        after _ _ (
          after _ _ (
            here state_label m laws policy c nus.node.name _ _ alone Finishes.cordoned _ _
              (record { at = λ w p a e. cordoned w nus e mem })
              (search (follows_rules, handlers) depth 20))))
  process_all-Finishes _ _ alone (Finishes.not_drained off) mem slots =
      let restarted = process_drain_nodes_progress state_label m laws sets c policy.drain_spec in
      after _ _ (
        after _ _ (
          after _ _ (
            after _ _ (
              after _ _ (
                after _ _ (
                  here state_label m laws policy c nus.node.name _ _ alone
                    (Finishes.not_drained off) _ _
                    (record { at = λ w p a e. restarted w nus off e mem })
                    (search (follows_rules, handlers) depth 20)))))))
  process_all-Finishes _ _ alone Finishes.uncordoned mem slots =
      let done = process_uncordon_required_nodes_progress state_label m laws sets c in
      after _ _ (
        after _ _ (
          after _ _ (
            after _ _ (
              after _ _ (
                after _ _ (
                  after _ _ (
                    after _ _
                      (after _ _ (after _ _ (record { at = λ w p a e. done w nus e mem }))))))))))

  apply_state-Finishes :
      (scaled_value : ScaledValue) (group target : String)
      → IsInGroup c nus.node.name group
      → Finishes policy group target
      → Memᴰ nus (nodes_in c group)
      → policy.auto_upgrade ≡ true
      → Triple Anything
          (apply_state scaled_value m (some c) (some policy))
          (λ _ w. state_label w nus.node.name ≡ target)
  unfolding apply_state apply_enabled
  apply_state-Finishes scaled_value group target alone finishes mem auto =
      Triple-if (not policy.auto_upgrade) _ _ (λ off. absurd (ground arith))
        (λ _.
          Triple-bind (λ _. Anything) _ _ (Triple-lift _)
            (λ _. process_all-Finishes group target alone finishes mem _))

-- With managers that meet the contracts of the interfaces, a provider that has written the label when
-- it reports no error, and an up-to-date cache: when `BuildState` returns a snapshot, the policy
-- upgrades automatically, and `ApplyState` on the snapshot succeeds: every node of the snapshot that
-- was to be cordoned waits for its jobs, every node that was to be drained, where the drain is not
-- enabled, goes on to the restart of its pod, and every node that was to be uncordoned is done.
pub apply_state_finishes :
    {W : Type 0} (state_label : W → String → String) (scaled_value : ScaledValue)
    (client : Client W) (m : ClusterUpgradeStateManager W) (laws : ManagerWrites state_label m)
    (sets : ProviderSets state_label m.node_upgrade_state_provider)
    (reading : ReadsLabels state_label
      (get_upgrade_state_label_key m.driver_name)
      m.node_upgrade_state_provider)
    (lists : ListLaws client state_label) (namespace : String) (driver_labels : StringMap String)
    (policy : DriverUpgradePolicySpec) (v w : W) (c : ClusterUpgradeState) (nus : NodeUpgradeState)
    (group target : String)
    → (build_state client m namespace driver_labels v).0 ≡ ok c
    → policy.auto_upgrade ≡ true
    → (apply_state scaled_value m (some c) (some policy) w).0 ≡ ok tt
    → Finishes policy group target
    → Memᴰ nus (nodes_in c group)
    → state_label (apply_state scaled_value m (some c) (some policy) w).1 nus.node.name ≡ target
apply_state_finishes state_label scaled_value client m laws sets reading lists namespace
      driver_labels policy v w c nus group target built auto succeeds finishes mem =
    let in_group =
      build_state-IsInGroup state_label client m reading lists namespace driver_labels v c nus group
        built mem in
    (apply_state-Finishes state_label m laws sets policy c nus scaled_value group target in_group
        finishes mem auto).at
      w tt tt succeeds
