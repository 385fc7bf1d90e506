-- ===== src/StateManager/Transitions.antt =====
-- The states that the handlers of upgrade_state.go give to the nodes of a snapshot.
pub mod Handlers
pub mod Restart
pub mod Reconcile
pub mod Labels
use k8s_operator_libs.Prelude.{
  String, ◌≡◌, refl, sym, ap, ◌⊎◌, inl, inr, Bool, true, false, Bool-cases, Option, none, some,
  List, [], ◌∷◌, map, Memᴰ, arith, ◌==◌,
}
use k8s_operator_libs.Prelude.Int.{ℤ}
use k8s_operator_libs.Act.{Act, pure, for_each, fold_each}
use k8s_operator_libs.Act.Follows.{
  Preorder, Follows, Returns, follows_rules, Follows-pure, Follows-ignore, Follows-bind,
  Follows-then, Follows-if, Follows-when, Follows-for_each, Follows-fold_each,
  Follows-bind_of_Returns, Returns-pure, Returns-bind, Returns-bind_of_Returns,
}
use k8s_operator_libs.Kube.{Node, Pod, DaemonSet}
use k8s_operator_libs.Api.{WaitForCompletionSpec, DriverUpgradePolicySpec}
use k8s_operator_libs.Consts.{
  upgrade_state_unknown, upgrade_state_upgrade_required, upgrade_state_cordon_required,
  upgrade_state_wait_for_jobs_required, upgrade_state_pod_deletion_required,
  upgrade_state_drain_required, upgrade_state_pod_restart_required,
  upgrade_state_validation_required, upgrade_state_uncordon_required, upgrade_state_done,
  upgrade_state_failed,
}
use k8s_operator_libs.Interfaces.{Held, on_node, in_world, of_node}
use k8s_operator_libs.Interfaces.Contracts.{
  writes, named, node_rules, Follows-on_node, Follows-in_world, Follows-of_node, ProviderWrites,
  CordonWrites, SafeDriverLoadWrites, ValidationWrites, PodManagerWrites, DrainWrites,
}
use k8s_operator_libs.StateManager.{
  NodeUpgradeState, ClusterUpgradeState, ClusterUpgradeStateManager, is_orphaned_pod, nodes_in,
}
use k8s_operator_libs.StateManager.Nodes.{
  compare_revisions, pod_in_sync_with_ds, is_driver_pod_in_sync,
}
use k8s_operator_libs.StateManager.Process
use k8s_operator_libs.StateManager.Moves.{Ending, to_uncordon, to_done, IsRestored, Move, Moved}

module _ {W : Type 0} (state_label : W → String → String) where
  -- The laws of all the managers of a state manager.
  pub record ManagerWrites (m : ClusterUpgradeStateManager W) : Type 1 where
    pub provider : ProviderWrites state_label m.node_upgrade_state_provider
    pub cordon_manager : CordonWrites state_label m.cordon_manager
    pub safe_load : SafeDriverLoadWrites state_label m.safe_driver_load_manager
    pub validation : ValidationWrites state_label m.validation_manager
    pub pods : PodManagerWrites state_label m.pod_manager
    pub drains : DrainWrites state_label m.drain_manager

module _ {W : Type 0} (state_label : W → String → String) (m : ClusterUpgradeStateManager W)
    (laws : ManagerWrites state_label m) (policy : DriverUpgradePolicySpec)
    (c : ClusterUpgradeState) where
  abbrev pub Allowed : Preorder W
  Allowed = writes state_label (Moved m policy c)

  pub compare_revisions-Follows :
      (pod : Pod) (ds : Option DaemonSet) → Follows Allowed (compare_revisions m pod ds)
  unfolding compare_revisions
  compare_revisions-Follows pod none = Follows-pure (false, true)
  compare_revisions-Follows pod (some ds) =
      search (follows_rules, laws.pods.pod_hash, laws.pods.daemonset_hash)

  pub pod_in_sync_with_ds-Follows :
      (nus : NodeUpgradeState) → Follows Allowed (pod_in_sync_with_ds m nus)
  unfolding pod_in_sync_with_ds
  pod_in_sync_with_ds-Follows nus = compare_revisions-Follows nus.driver_pod nus.driver_daemon_set

  pub is_driver_pod_in_sync-Follows :
      (nus : NodeUpgradeState) → Follows Allowed (is_driver_pod_in_sync m nus)
  unfolding is_driver_pod_in_sync
  is_driver_pod_in_sync-Follows nus = search (follows_rules, pod_in_sync_with_ds-Follows)

  module _ (name : String) where
    pub change_state-Follows :
        (state : String)
        → Moved m policy c name state
        → Follows (named name Allowed) (Process.change_state m state)
    change_state-Follows state edge = laws.provider.change_state (Moved m policy c) name state edge

    pub change_annotation-Follows :
        (key value : String) → Follows (named name Allowed) (Process.change_annotation m key value)
    change_annotation-Follows key value =
        laws.provider.change_annotation (Moved m policy c) name key value

    pub cordon-Follows : Follows (named name Allowed) m.cordon_manager.cordon
    cordon-Follows = laws.cordon_manager.cordon (Moved m policy c) name

    pub uncordon-Follows : Follows (named name Allowed) m.cordon_manager.uncordon
    uncordon-Follows = laws.cordon_manager.uncordon (Moved m policy c) name

    pub is_waiting-Follows :
        Follows (named name Allowed) m.safe_driver_load_manager.is_waiting_for_safe_driver_load
    is_waiting-Follows = laws.safe_load.is_waiting (Moved m policy c) name

    pub unblock_loading-Follows :
        Follows (named name Allowed) m.safe_driver_load_manager.unblock_loading
    unblock_loading-Follows = laws.safe_load.unblock_loading (Moved m policy c) name

    pub validate-Follows :
        Moved m policy c name upgrade_state_failed
        → Follows (named name Allowed) m.validation_manager.validate
    validate-Follows edge = laws.validation.validate (Moved m policy c) name edge

  pub for_each-Follows :
      (group : String) (body : NodeUpgradeState → Act (Held W) Unit)
      → ((nus : NodeUpgradeState)
          → ((state : String)
              → Move m policy group nus state
              → Moved m policy c nus.node.name state)
          → Follows (named nus.node.name Allowed) (body nus))
      → Follows Allowed (for_each (nodes_in c group) (λ nus. on_node nus.node (body nus)))
  for_each-Follows group body k =
      Follows-for_each (nodes_in c group) (λ nus. on_node nus.node (body nus))
        λ nus mem. Follows-on_node nus.node (body nus) (
          k nus λ state mv. record {
            group = group;
            nus = nus;
            member = mem;
            same_name = refl;
            move = mv;
          })

  pub fold_each-Follows :
      {B : Type 0} (group : String) (b : B) (body : B → NodeUpgradeState → Act (Held W) B)
      → ((b : B) (nus : NodeUpgradeState)
          → ((state : String)
              → Move m policy group nus state
              → Moved m policy c nus.node.name state)
          → Follows (named nus.node.name Allowed) (body b nus))
      → Follows Allowed (fold_each (nodes_in c group) b (λ b nus. on_node nus.node (body b nus)))
  fold_each-Follows group b body k =
      Follows-fold_each (nodes_in c group) b (λ b nus. on_node nus.node (body b nus))
        λ b nus mem. Follows-on_node nus.node (body b nus) (
          k b nus λ state mv. record {
            group = group;
            nus = nus;
            member = mem;
            same_name = refl;
            move = mv;
          })

pub ruleset manager_rules = (
  follows_rules, node_rules, pod_in_sync_with_ds-Follows, is_driver_pod_in_sync-Follows,
  change_state-Follows, change_annotation-Follows, cordon-Follows, uncordon-Follows,
  is_waiting-Follows, unblock_loading-Follows, validate-Follows,
)
