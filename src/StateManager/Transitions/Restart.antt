-- ===== src/StateManager/Transitions/Restart.antt =====
-- The handlers that look at the driver pod: restart, failure and validation.
use k8s_operator_libs.Prelude.{
  String, ◌≡◌, refl, sym, Bool, true, false, Bool-cases, inl, inr, Option, none, some, List, [],
  not, ◌||◌, if◌then◌else◌, is_none, not-true, not-false, or-false_right, ◌∙◌,
}
use k8s_operator_libs.Act.{pure, when}
use k8s_operator_libs.Act.Follows.{
  Preorder, Follows, Returns, Follows-bind, Follows-bind_of_Returns, Follows-then, Follows-if,
  Follows-when, Follows-pure, Returns-pure, Returns-bind, Returns-bind_of_Returns,
}
use k8s_operator_libs.Kube.{Node, Pod, DaemonSet}
use k8s_operator_libs.Api.{DriverUpgradePolicySpec}
use k8s_operator_libs.StringMap.{has}
use k8s_operator_libs.Consts.{
  upgrade_state_pod_restart_required, upgrade_state_validation_required, upgrade_state_failed,
  get_upgrade_initial_state_annotation_key,
}
use k8s_operator_libs.Interfaces.Contracts.{
  named, Follows-of_node, Returns-in_world, Returns-of_node,
}
use k8s_operator_libs.StateManager.{
  NodeUpgradeState, ClusterUpgradeState, ClusterUpgradeStateManager, is_orphaned_pod,
  is_validation_enabled,
}
use k8s_operator_libs.StateManager.Nodes.{
  is_pod_running_and_ready, is_driver_pod_failing, compare_revisions, pod_in_sync_with_ds,
  is_driver_pod_in_sync,
}
use k8s_operator_libs.StateManager.Process
use k8s_operator_libs.StateManager.Process.{uncordon_or_done}
use k8s_operator_libs.StateManager.Moves.{Ending, to_uncordon, to_done, IsRestored, Move, Moved}
use k8s_operator_libs.StateManager.Transitions.{
  ManagerWrites, Allowed, manager_rules, for_each-Follows, fold_each-Follows,
  unblock_loading-Follows,
}

module _ {W : Type 0} (m : ClusterUpgradeStateManager W) where
  uncordon_or_done-Ending : (n : Node) → Ending (uncordon_or_done m n)
  unfolding uncordon_or_done
  uncordon_or_done-Ending n =
      elim (Bool-cases
        (has (get_upgrade_initial_state_annotation_key m.driver_name) n.annotations)) [
          | inl tracked ↦ rw tracked to_done
          | inr untracked ↦ rw untracked to_uncordon
        ]

  compare_revisions-Returns :
      (pod : Pod) (ds : Option DaemonSet)
      → Returns (λ synced_orphaned. synced_orphaned.1 ≡ is_none ds) (compare_revisions m pod ds)
  unfolding compare_revisions
  compare_revisions-Returns pod none = Returns-pure _ refl
  compare_revisions-Returns pod (some ds) =
      Returns-bind _ _ (λ pod_hash. Returns-bind _ _ (λ ds_hash. Returns-pure _ refl))

  pub pod_in_sync_with_ds-Returns :
      (nus : NodeUpgradeState)
      → Returns
          (λ synced_orphaned. synced_orphaned.1 ≡ is_orphaned_pod nus)
          (pod_in_sync_with_ds m nus)
  unfolding pod_in_sync_with_ds is_orphaned_pod
  pod_in_sync_with_ds-Returns nus = compare_revisions-Returns nus.driver_pod nus.driver_daemon_set

  ready_if_synced :
      (nus : NodeUpgradeState) (synced_orphaned : Bool × Bool)
      → synced_orphaned.1 ≡ is_orphaned_pod nus
      → Returns {S = W}
          (λ in_sync. in_sync ≡ true → IsRestored nus)
          (if synced_orphaned.1
            then pure false
            else pure
                (if synced_orphaned.0 then is_pod_running_and_ready nus.driver_pod else false))
  ready_if_synced nus (synced, true) e = Returns-pure false (λ h. cc)
  ready_if_synced nus (true, false) e =
      Returns-pure _ (λ ready. record { owned = sym e; ready = ready })
  ready_if_synced nus (false, false) e = Returns-pure false (λ h. cc)

  -- A driver pod that is found in sync is owned, running and ready.
  pub is_driver_pod_in_sync-Returns :
      (nus : NodeUpgradeState)
      → Returns (λ in_sync. in_sync ≡ true → IsRestored nus) (is_driver_pod_in_sync m nus)
  unfolding is_driver_pod_in_sync
  is_driver_pod_in_sync-Returns nus =
      Returns-bind_of_Returns _ _ _ (pod_in_sync_with_ds-Returns nus) (ready_if_synced nus)

module _ {W : Type 0} (state_label : W → String → String) (m : ClusterUpgradeStateManager W)
    (laws : ManagerWrites state_label m) (policy : DriverUpgradePolicySpec)
    (c : ClusterUpgradeState) where
  abbrev allowed : Preorder W
  allowed = Allowed state_label m laws policy c

  abbrev IntoMoved : NodeUpgradeState → String → Type 0
  IntoMoved nus group =
      (state : String) → Move m policy group nus state → Moved m policy c nus.node.name state

  -- The end of an upgrade, by the annotation of the node's initial state.
  update_node_to_uncordon_or_done_state-Follows :
      (name : String)
      → ((state : String) → Ending state → Moved m policy c name state)
      → Follows (named name allowed) (Process.update_node_to_uncordon_or_done_state m)
  unfolding Process.update_node_to_uncordon_or_done_state
  update_node_to_uncordon_or_done_state-Follows name to =
      Follows-bind_of_Returns Ending _ _
        (Returns-of_node (uncordon_or_done m) (uncordon_or_done-Ending m))
        (Follows-of_node allowed name (uncordon_or_done m))
        λ state ending. let edge = to state ending in search manager_rules

  pub process_validation_required_nodes-Follows :
      Follows allowed (Process.process_validation_required_nodes m c)
  unfolding Process.process_validation_required_nodes Process.process_validation_required_node
  process_validation_required_nodes-Follows =
      for_each-Follows state_label m laws policy c upgrade_state_validation_required
        (λ nus. Process.process_validation_required_node m)
        λ nus to.
          let failed = to _ Move.validation_failed in
          let ended =
            update_node_to_uncordon_or_done_state-Follows nus.node.name
              (λ state ending. to state (Move.validate ending)) in
          search manager_rules

  pub process_upgrade_failed_nodes-Follows :
      Follows allowed (Process.process_upgrade_failed_nodes m c)
  unfolding Process.process_upgrade_failed_nodes Process.process_upgrade_failed_node
  process_upgrade_failed_nodes-Follows =
      for_each-Follows state_label m laws policy c upgrade_state_failed
        (Process.process_upgrade_failed_node m)
        λ nus to.
          Follows-bind_of_Returns _ _ _ (Returns-in_world _ (is_driver_pod_in_sync-Returns m nus))
            (search manager_rules)
            λ in_sync restored. Follows-when _ _ λ synced.
              unfold Process.update_node_to_uncordon_or_done_state in
              update_node_to_uncordon_or_done_state-Follows nus.node.name
                λ state ending. to state (Move.recover (restored synced) ending)

  -- What may follow for a node whose pod has its daemon set's revision.
  restarted_node-Follows :
      (nus : NodeUpgradeState)
      → is_orphaned_pod nus ≡ false
      → IntoMoved nus upgrade_state_pod_restart_required
      → (in_sync : Bool) → (in_sync ≡ true → IsRestored nus)
      → Follows (named nus.node.name allowed) (
          if in_sync
          then (if not (is_validation_enabled m)
              then Process.update_node_to_uncordon_or_done_state m
              else Process.change_state m upgrade_state_validation_required)
          else when
              (is_driver_pod_failing nus.driver_pod)
              (Process.change_state m upgrade_state_failed))
  restarted_node-Follows nus owned to in_sync restored =
      Follows-if _ _ _
        (λ synced.
          Follows-if _ _ _
            (λ disabled. update_node_to_uncordon_or_done_state-Follows nus.node.name λ state ending.
              to state (Move.skip_validation (not-true _ disabled) (restored synced) ending))
            (λ enabled.
              let edge = to _ (Move.to_validation (not-false _ enabled) (restored synced)) in
              search manager_rules))
        (λ _.
          Follows-when _ _
            λ failing. let edge = to _ (Move.restart_failed owned failing) in search manager_rules)

  process_synced_node-Follows :
      (nus : NodeUpgradeState)
      → is_orphaned_pod nus ≡ false
      → IntoMoved nus upgrade_state_pod_restart_required
      → Follows (named nus.node.name allowed) (Process.process_synced_node m nus)
  unfolding Process.process_synced_node
  process_synced_node-Follows nus owned to =
      Follows-then _ _ (unblock_loading-Follows state_label m laws policy c nus.node.name) (
        Follows-bind_of_Returns _ _ _ (Returns-in_world _ (is_driver_pod_in_sync-Returns m nus))
          (search manager_rules) (restarted_node-Follows nus owned to))

  process_pod_restart_node-Follows :
      (pods : List Pod) (nus : NodeUpgradeState)
      → IntoMoved nus upgrade_state_pod_restart_required
      → Follows (named nus.node.name allowed) (Process.process_pod_restart_node m pods nus)
  unfolding Process.process_pod_restart_node
  process_pod_restart_node-Follows pods nus to =
      Follows-bind_of_Returns _ _ _ (Returns-in_world _ (pod_in_sync_with_ds-Returns m nus))
        (search manager_rules)
        λ synced_orphaned orphaned.
          Follows-if (not synced_orphaned.0 || synced_orphaned.1) _ _ (λ _. Follows-pure _)
            λ owned.
              Follows-then _ _
                (process_synced_node-Follows nus
                  (sym orphaned ∙ or-false_right (not synced_orphaned.0) _ owned) to)
                (Follows-pure pods)

  pub process_pod_restart_nodes-Follows : Follows allowed (Process.process_pod_restart_nodes m c)
  unfolding Process.process_pod_restart_nodes
  process_pod_restart_nodes-Follows =
      Follows-bind _ _
        (fold_each-Follows state_label m laws policy c upgrade_state_pod_restart_required []
          (Process.process_pod_restart_node m) process_pod_restart_node-Follows)
        (λ pods. laws.pods.schedule_restart _ pods)
