-- ===== src/StateManager/Transitions/Handlers.antt =====
-- The states that the handlers give, but for those that look at the driver pod.
use k8s_operator_libs.Prelude.{
  String, ◌≡◌, ap, inl, inr, Bool, true, Bool-cases, map, Memᴰ, ◌==◌, Memᴰ-map, not-true,
}
use k8s_operator_libs.Prelude.Int.{ℤ}
use k8s_operator_libs.Act.{Act, for_each, fold_each, ignore}
use k8s_operator_libs.Act.Follows.{
  Preorder, Follows, Follows-pure, Follows-then, Follows-if, Follows-when,
}
use k8s_operator_libs.Kube.{Node}
use k8s_operator_libs.Api.{DriverUpgradePolicySpec}
use k8s_operator_libs.Consts.{
  upgrade_state_unknown, upgrade_state_upgrade_required, upgrade_state_cordon_required,
  upgrade_state_wait_for_jobs_required, upgrade_state_pod_deletion_required,
  upgrade_state_drain_required, upgrade_state_pod_restart_required, upgrade_state_uncordon_required,
  upgrade_state_done,
}
use k8s_operator_libs.Interfaces.{Held, on_node}
use k8s_operator_libs.Interfaces.Contracts.{named}
use k8s_operator_libs.StateManager.{
  NodeUpgradeState, ClusterUpgradeState, ClusterUpgradeStateManager, nodes_in,
  is_pod_deletion_enabled,
}
use k8s_operator_libs.StateManager.Process
use k8s_operator_libs.StateManager.Process.{no_pod_selector}
use k8s_operator_libs.StateManager.Moves.{Move, Moved}
use k8s_operator_libs.StateManager.Transitions.{
  ManagerWrites, Allowed, manager_rules, for_each-Follows, fold_each-Follows,
}

module _ {W : Type 0} (state_label : W → String → String) (m : ClusterUpgradeStateManager W)
    (laws : ManagerWrites state_label m) (policy : DriverUpgradePolicySpec)
    (c : ClusterUpgradeState) where
  abbrev allowed : Preorder W
  allowed = Allowed state_label m laws policy c

  abbrev IntoMoved : NodeUpgradeState → String → Type 0
  IntoMoved nus group =
      (state : String) → Move m policy group nus state → Moved m policy c nus.node.name state

  each :
      (group : String) (body : NodeUpgradeState → Act (Held W) Unit)
      → ((nus : NodeUpgradeState)
          → IntoMoved nus group
          → Follows (named nus.node.name allowed) (body nus))
      → Follows allowed (for_each (nodes_in c group) (λ nus. on_node nus.node (body nus)))
  each = for_each-Follows state_label m laws policy c

  each_with :
      {B : Type 0} (group : String) (b : B) (body : B → NodeUpgradeState → Act (Held W) B)
      → ((b : B) (nus : NodeUpgradeState)
          → IntoMoved nus group
          → Follows (named nus.node.name allowed) (body b nus))
      → Follows allowed (fold_each (nodes_in c group) b (λ b nus. on_node nus.node (body b nus)))
  each_with = fold_each-Follows state_label m laws policy c

  pub process_done_or_unknown_nodes-Follows :
      (group : String)
      → ((nus : NodeUpgradeState) → Move m policy group nus upgrade_state_upgrade_required)
      → ((group == upgrade_state_unknown) ≡ true
          → (nus : NodeUpgradeState) → Move m policy group nus upgrade_state_done)
      → Follows allowed (Process.process_done_or_unknown_nodes m c group)
  unfolding Process.process_done_or_unknown_nodes Process.process_done_or_unknown_node
  process_done_or_unknown_nodes-Follows group required done =
      each group (Process.process_done_or_unknown_node m group) λ nus to.
        let upgrade = to _ (required nus) in
        let settled = λ (e : (group == upgrade_state_unknown) ≡ true). to _ (done e nus) in
        search manager_rules depth 12

  pub process_cordon_required_nodes-Follows :
      Follows allowed (Process.process_cordon_required_nodes m c)
  unfolding Process.process_cordon_required_nodes Process.process_cordon_required_node
  process_cordon_required_nodes-Follows =
      each upgrade_state_cordon_required (λ nus. Process.process_cordon_required_node m)
        λ nus to. let edge = to _ Move.cordon in search manager_rules

  pub process_upgrade_required_nodes-Follows :
      (upgrades_available : ℤ)
      → Follows allowed (Process.process_upgrade_required_nodes m c upgrades_available)
  unfolding Process.process_upgrade_required_nodes Process.process_upgrade_required_node
  process_upgrade_required_nodes-Follows upgrades_available =
      Follows-then _ _
        (each_with upgrade_state_upgrade_required upgrades_available
          (λ left nus. Process.process_upgrade_required_node m left)
          λ left nus to. let edge = to _ Move.start in search manager_rules depth 12)
        (Follows-pure tt)

  pub process_uncordon_required_nodes-Follows :
      Follows allowed (Process.process_uncordon_required_nodes m c)
  unfolding Process.process_uncordon_required_nodes Process.process_uncordon_required_node
  process_uncordon_required_nodes-Follows =
      each upgrade_state_uncordon_required (λ nus. Process.process_uncordon_required_node m)
        λ nus to. let edge = to _ Move.uncordon in search manager_rules

  state_after_wait_for_jobs-Move :
      (nus : NodeUpgradeState)
      → no_pod_selector policy.wait_for_completion ≡ true
      → Move m policy upgrade_state_wait_for_jobs_required nus (Process.state_after_wait_for_jobs m)
  unfolding Process.state_after_wait_for_jobs
  state_after_wait_for_jobs-Move nus none_selected = elim (Bool-cases (is_pod_deletion_enabled m)) [
    | inl enabled ↦ rw enabled Move.leave_jobs
    | inr disabled ↦ rw disabled (Move.skip_jobs none_selected disabled)
  ]

  checked-Moved :
      (n : Node)
      → Memᴰ n (map (λ nus. nus.node) (nodes_in c upgrade_state_wait_for_jobs_required))
      → Moved m policy c n.name upgrade_state_pod_deletion_required
  checked-Moved n mem =
      let (nus, k, e) =
        Memᴰ-map (λ nus. nus.node) n (nodes_in c upgrade_state_wait_for_jobs_required) mem in
      record {
        group = upgrade_state_wait_for_jobs_required;
        nus = nus;
        member = k;
        same_name = ap (λ n. n.name) e;
        move = Move.leave_jobs;
      }

  pub process_wait_for_jobs_required_nodes-Follows :
      Follows allowed (Process.process_wait_for_jobs_required_nodes m c policy.wait_for_completion)
  unfolding Process.process_wait_for_jobs_required_nodes
  process_wait_for_jobs_required_nodes-Follows =
      Follows-then _ _
        (Follows-when _ _ λ none_selected.
          each upgrade_state_wait_for_jobs_required
            (λ nus. ignore (Process.change_state m (Process.state_after_wait_for_jobs m)))
            λ nus to.
              let edge = to _ (state_after_wait_for_jobs-Move nus none_selected) in
              search manager_rules)
        (Follows-when _ _ (λ _. laws.pods.schedule_check _ _ checked-Moved))

  pub process_pod_deletion_required_nodes-Follows :
      (drain_enabled : Bool)
      → Follows allowed
          (Process.process_pod_deletion_required_nodes m c policy.pod_deletion drain_enabled)
  unfolding Process.process_pod_deletion_required_nodes
  process_pod_deletion_required_nodes-Follows drain_enabled =
      Follows-if _ _ _
        (λ disabled.
          each upgrade_state_pod_deletion_required
            (λ nus. ignore (Process.change_state m upgrade_state_drain_required))
            λ nus to.
              let edge = to _ (Move.skip_deletion (not-true _ disabled)) in search manager_rules)
        (λ _. Follows-when _ _ (λ _. laws.pods.schedule_eviction _ _))

  pub process_drain_nodes-Follows :
      Follows allowed (Process.process_drain_nodes m c policy.drain_spec)
  unfolding Process.process_drain_nodes
  process_drain_nodes-Follows =
      Follows-if _ _ _
        (λ disabled.
          each upgrade_state_drain_required
            (λ nus. Process.change_state m upgrade_state_pod_restart_required)
            λ nus to.
              let edge = to _ (Move.skip_drain (not-true _ disabled)) in search manager_rules)
        (λ _. laws.drains.schedule_drain _ _)
