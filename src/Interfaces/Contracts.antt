-- ===== src/Interfaces/Contracts.antt =====
-- What the state manager relies on: which upgrade-state labels a manager's methods may write. The
-- labels are observed in the world by a function from node names; every law speaks of the end of a
-- call, whether it returned a result or an error.
use mathlib.Core.Path.{subst}
use k8s_operator_libs.Prelude.{String, ◌≡◌, refl, sym, ◌∙◌, ◌⊎◌, inl, inr, List, Memᴰ}
use k8s_operator_libs.Act.{Act}
use k8s_operator_libs.Act.Follows.{Preorder, Follows, Follows-gets, Returns, Returns-gets}
use k8s_operator_libs.Kube.{Node, Pod, DaemonSet}
use k8s_operator_libs.Consts.{upgrade_state_failed, upgrade_state_pod_deletion_required}
use k8s_operator_libs.Interfaces.{
  Held, on_node, in_world, of_node, NodeUpgradeStateProvider, CordonManager, SafeDriverLoadManager,
  ValidationManager, PodManagerConfig, PodManager, DrainConfiguration, DrainManager,
}

module _ {W : Type 0} (state_label : W → String → String) where
  -- Each node's label is as before, or the node was allowed to get the label that it now has.
  unfoldable pub writes : (String → String → Type 0) → Preorder W
  writes P = record {
    rel = λ w w'.
        (name : String) → (state_label w' name ≡ state_label w name) ⊎ P name (state_label w' name);
    rel_refl = λ w name. inl refl;
    rel_trans = λ w w' w'' h k name. elim (k name) [
      | inr p ↦ inr p
      | inl same ↦ elim (h name) [
        | inl same' ↦ inl (same ∙ same')
        | inr p ↦ inr (subst (P name) (sym same) p)
      ]
    ];
  }

-- As long as the object is that of the node called `name`, it stays so, and the world follows `R`.
unfoldable pub named : {W : Type 0} → String → Preorder W → Preorder (Held W)
named name R = record {
  rel = λ h h'. h.node.name ≡ name → (h'.node.name ≡ name) × R.rel h.world h'.world;
  rel_refl = λ h e. (e, R.rel_refl h.world);
  rel_trans = λ h h' h'' k l e.
      let (e', r) = k e in
      let (e'', r') = l e' in (e'', R.rel_trans h.world h'.world h''.world r r');
}

module _ {W A : Type 0} {R : Preorder W} where
  pub Follows-on_node :
      (n : Node) (m : Act (Held W) A) → Follows (named n.name R) m → Follows R (on_node n m)
  unfolding on_node named
  Follows-on_node n m k = record { at = λ w. (k.at (record { node = n; world = w }) refl).1 }

  pub Follows-in_world :
      (name : String) (m : Act W A) → Follows R m → Follows (named name R) (in_world m)
  unfolding in_world named
  Follows-in_world name m k = record { at = λ h e. (e, k.at h.world) }

pub Follows-of_node :
    {W A : Type 0} (R : Preorder W) (name : String) (f : Node → A)
    → Follows (named name R) (of_node f)
unfolding of_node
Follows-of_node R name f = Follows-gets (λ h. f h.node)

module _ {W A : Type 0} {Q : A → Type 0} where
  pub Returns-in_world : (m : Act W A) → Returns Q m → Returns Q (in_world m)
  unfolding in_world
  Returns-in_world m k = record { at = λ h. k.at h.world }

pub Returns-of_node :
    {W A : Type 0} {Q : A → Type 0} (f : Node → A)
    → ((n : Node) → Q (f n))
    → Returns {S = Held W} Q (of_node f)
unfolding of_node
Returns-of_node f k = Returns-gets (λ h. f h.node) (λ h. k h.node)

pub ruleset node_rules = (Follows-on_node, Follows-in_world, Follows-of_node)

module _ {W : Type 0} (state_label : W → String → String) where
  -- `ChangeNodeUpgradeState` writes at most the label of its node, and only the new state.
  pub record ProviderWrites (p : NodeUpgradeStateProvider W) : Type 1 where
    pub get_node :
        (P : String → String → Type 0) (name : String)
        → Follows (writes state_label P) (p.get_node name)
    pub change_state :
        (P : String → String → Type 0) (name : String) (new_state : String)
        → P name new_state
        → Follows (named name (writes state_label P)) (p.change_node_upgrade_state new_state)
    pub change_annotation :
        (P : String → String → Type 0) (name : String) (key value : String)
        → Follows (named name (writes state_label P)) (p.change_node_upgrade_annotation key value)

  -- Cordoning writes no label.
  pub record CordonWrites (c : CordonManager W) : Type 1 where
    pub cordon :
        (P : String → String → Type 0) (name : String)
        → Follows (named name (writes state_label P)) c.cordon
    pub uncordon :
        (P : String → String → Type 0) (name : String)
        → Follows (named name (writes state_label P)) c.uncordon

  -- Nor does the safe driver load.
  pub record SafeDriverLoadWrites (s : SafeDriverLoadManager W) : Type 1 where
    pub is_waiting :
        (P : String → String → Type 0) (name : String)
        → Follows (named name (writes state_label P)) s.is_waiting_for_safe_driver_load
    pub unblock_loading :
        (P : String → String → Type 0) (name : String)
        → Follows (named name (writes state_label P)) s.unblock_loading

  -- A validation may only let its node fail.
  pub record ValidationWrites (v : ValidationManager W) : Type 1 where
    pub validate :
        (P : String → String → Type 0) (name : String)
        → P name upgrade_state_failed
        → Follows (named name (writes state_label P)) v.validate

  -- The check on pod completion may move the nodes that it is given on to the deletion of pods; what
  -- evicts pods in the background has not begun when the call returns.
  pub record PodManagerWrites (p : PodManager W) : Type 1 where
    pub schedule_check :
        (P : String → String → Type 0) (config : PodManagerConfig)
        → ((n : Node) → Memᴰ n config.nodes → P n.name upgrade_state_pod_deletion_required)
        → Follows (writes state_label P) (p.schedule_check_on_pod_completion config)
    pub schedule_restart :
        (P : String → String → Type 0) (pods : List Pod)
        → Follows (writes state_label P) (p.schedule_pods_restart pods)
    pub schedule_eviction :
        (P : String → String → Type 0) (config : PodManagerConfig)
        → Follows (writes state_label P) (p.schedule_pod_eviction config)
    pub pod_hash :
        (P : String → String → Type 0) (pod : Pod)
        → Follows (writes state_label P) (p.get_pod_controller_revision_hash pod)
    pub daemonset_hash :
        (P : String → String → Type 0) (ds : DaemonSet)
        → Follows (writes state_label P) (p.get_daemonset_controller_revision_hash ds)

  pub record DrainWrites (d : DrainManager W) : Type 1 where
    pub schedule_drain :
        (P : String → String → Type 0) (config : DrainConfiguration)
        → Follows (writes state_label P) (d.schedule_nodes_drain config)
