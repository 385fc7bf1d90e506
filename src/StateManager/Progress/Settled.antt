-- ===== src/StateManager/Progress/Settled.antt =====
-- The nodes of upgrade_state.go that no upgrade has been asked for yet.
use k8s_operator_libs.Prelude.{
  String, ◌≡◌, sym, Option, none, some, false, true, not, ◌&&◌, ◌||◌, Memᴰ, ◌==◌,
}
use k8s_operator_libs.Act.{ok, Act, when}
use mathlib.Core.Path.{subst}
use k8s_operator_libs.Act.Follows.{Preorder, Follows, follows_rules, Follows-when, Follows-pure}
use k8s_operator_libs.Kube.{Pod, DaemonSet}
use k8s_operator_libs.StateManager.Nodes.{compare_revisions, pod_in_sync_with_ds}
use k8s_operator_libs.Act.Triple.{Triple, Triple-bind, Triple-then, Triple-if, Triple-weaken}
use k8s_operator_libs.Consts.{
  upgrade_state_unknown, upgrade_state_upgrade_required, upgrade_state_done,
}
use k8s_operator_libs.Interfaces.{Held, on_node}
use k8s_operator_libs.Interfaces.Contracts.{
  node_rules, named, Follows-on_node, Follows-in_world, Follows-of_node,
}
use k8s_operator_libs.Interfaces.Successes.{ProviderSets, IsNamed, Triple-IsNamed, Triple-on_node}
use k8s_operator_libs.StateManager.{
  NodeUpgradeState, ClusterUpgradeState, ClusterUpgradeStateManager, nodes_in,
}
use k8s_operator_libs.StateManager.Process.{
  change_state, change_annotation, process_done_or_unknown_node, process_done_or_unknown_nodes,
}
use k8s_operator_libs.StateManager.Progress.{OnlyTarget, for_each-IsThere, change_state-Triple}
use k8s_operator_libs.StateManager.Transitions.{ManagerWrites}

-- An upgrade is required, or none is.
pub data Settled : String → Type 0 where
  required : Settled upgrade_state_upgrade_required
  done : Settled upgrade_state_done

module _ {W : Type 0} (state_label : W → String → String) (m : ClusterUpgradeStateManager W)
    (laws : ManagerWrites state_label m)
    (sets : ProviderSets state_label m.node_upgrade_state_provider) where
  abbrev OnlySettled : Preorder W
  OnlySettled = OnlyTarget state_label Settled

  compare_revisions-Follows :
      (pod : Pod) (ds : Option DaemonSet) → Follows OnlySettled (compare_revisions m pod ds)
  unfolding compare_revisions
  compare_revisions-Follows pod none = Follows-pure (false, true)
  compare_revisions-Follows pod (some ds) =
      search (follows_rules, laws.pods.pod_hash, laws.pods.daemonset_hash)

  pod_in_sync-Follows : (nus : NodeUpgradeState) → Follows OnlySettled (pod_in_sync_with_ds m nus)
  unfolding pod_in_sync_with_ds
  pod_in_sync-Follows nus = compare_revisions-Follows nus.driver_pod nus.driver_daemon_set

  change_state-Follows :
      (name state : String)
      → Settled state
      → Follows (named name OnlySettled) (change_state m state)
  change_state-Follows name state settled = laws.provider.change_state _ name state settled

  change_annotation-Follows :
      (name key value : String) → Follows (named name OnlySettled) (change_annotation m key value)
  change_annotation-Follows name key value = laws.provider.change_annotation _ name key value

  is_waiting-Follows :
      (name : String)
      → Follows (named name OnlySettled) m.safe_driver_load_manager.is_waiting_for_safe_driver_load
  is_waiting-Follows name = laws.safe_load.is_waiting _ name

  abbrev body : NodeUpgradeState → Act (Held W) Unit
  body = process_done_or_unknown_node m upgrade_state_unknown

  body-Follows : (nus : NodeUpgradeState) → Follows (named nus.node.name OnlySettled) (body nus)
  unfolding process_done_or_unknown_node
  body-Follows nus =
      let upgrade = Settled.required in
      let settled = Settled.done in
      search
        (
          follows_rules, node_rules, pod_in_sync-Follows, change_state-Follows,
          change_annotation-Follows, is_waiting-Follows,
        )
        depth 14

  -- The object stays that of the node.
  stays :
      {A : Type 0} (nus : NodeUpgradeState) (act : Act (Held W) A)
      → Follows (named nus.node.name OnlySettled) act
      → Triple (IsNamed nus.node.name) act (λ _. IsNamed nus.node.name)
  stays nus act k = Triple-IsNamed OnlySettled nus.node.name act k

  settles :
      (nus : NodeUpgradeState) (state : String)
      → Settled state
      → Triple
          (IsNamed nus.node.name)
          (change_state m state)
          (λ _ h. Settled (state_label h.world nus.node.name))
  settles nus state settled =
      Triple-weaken (λ _ p. p) (λ _ h e. subst Settled (sym e) settled)
        (change_state-Triple state_label m laws sets nus.node.name state)

  settles_done :
      (nus : NodeUpgradeState)
      → Triple
          (IsNamed nus.node.name)
          (when
            (upgrade_state_unknown == upgrade_state_unknown)
            (change_state m upgrade_state_done))
          (λ _ h. Settled (state_label h.world nus.node.name))
  unfolding when
  settles_done nus = settles nus _ Settled.done

  body-Triple :
      (nus : NodeUpgradeState)
      → Triple
          (IsNamed nus.node.name)
          (body nus)
          (λ _ h. Settled (state_label h.world nus.node.name))
  unfolding process_done_or_unknown_node
  body-Triple nus =
      Triple-bind _ _ _ (stays nus _ (Follows-in_world nus.node.name _ (pod_in_sync-Follows nus)))
        λ revisions.
          Triple-bind _ _ _ (stays nus _ (Follows-of_node OnlySettled nus.node.name _)) λ requested.
            Triple-bind _ _ _ (stays nus _ (is_waiting-Follows nus.node.name)) λ waiting.
              Triple-if ((not revisions.0 && not revisions.1) || waiting || requested) _ _
                (λ _.
                  Triple-bind _ _ _ (stays nus _ (Follows-of_node OnlySettled nus.node.name _))
                    λ unschedulable.
                      Triple-then _ _ _
                        (stays nus _ (
                          Follows-when unschedulable _
                            (λ _. change_annotation-Follows nus.node.name _ _)))
                        (λ _. settles nus _ Settled.required))
                (λ _. settles_done nus)

  -- With managers that meet the contracts of the interfaces, and a provider that has written the
  -- label when it reports no error: when `ProcessDoneOrUnknownNodes` succeeds on the nodes without a
  -- state, none of them is left without one: an upgrade is required, or it is done.
  pub process_unknown_nodes_settles :
      (c : ClusterUpgradeState) (w : W) (nus : NodeUpgradeState)
      → (process_done_or_unknown_nodes m c upgrade_state_unknown w).0 ≡ ok tt
      → Memᴰ nus (nodes_in c upgrade_state_unknown)
      → Settled
          (state_label (process_done_or_unknown_nodes m c upgrade_state_unknown w).1 nus.node.name)
  unfolding process_done_or_unknown_nodes
  process_unknown_nodes_settles c w nus e mem =
      (for_each-IsThere state_label Settled (λ n. on_node n.node (body n))
          (λ n. Follows-on_node n.node _ (body-Follows n))
          (λ n. Triple-on_node n.node _ (Triple-weaken (λ _ p. p.0) (λ _ _ q. q) (body-Triple n)))
          (nodes_in c upgrade_state_unknown)).at
        w tt tt e nus mem
