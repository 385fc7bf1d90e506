-- ===== src/StateManager/Build/Fresh.antt =====
-- The labels that `BuildState` of upgrade_state.go reads.
use k8s_operator_libs.Prelude.{String, ◌≡◌, refl, sym, ◌∙◌, inl, inr}
use mathlib.Core.Path.{subst}
use k8s_operator_libs.Act.{ok, Act}
use k8s_operator_libs.Act.Follows.{
  Preorder, Follows, follows_rules, Follows-bind, Follows-lift, Follows-pure, Follows-wrap_error,
  Follows-fold_each,
}
use k8s_operator_libs.Act.Triple.{
  Triple, Triple-bind, Triple-pure, Triple-lift, Triple-wrap_error, Triple-fold_each, Triple-if,
  Triple-weaken,
}
use k8s_operator_libs.Prelude.{Memᴰ, Option}
use k8s_operator_libs.StringMap.{StringMap, lookup, value_of}
use k8s_operator_libs.Kube.{Node, Pod, DaemonSet}
use k8s_operator_libs.Consts.{get_upgrade_state_label_key}
use k8s_operator_libs.Interfaces.{NodeUpgradeStateProvider}
use k8s_operator_libs.Client.{Client}
use k8s_operator_libs.Client.Laws.{KeepsLabels, ListLaws}
use k8s_operator_libs.StateManager.{
  NodeUpgradeState, ClusterUpgradeState, new_cluster_upgrade_state, nodes_in,
  ClusterUpgradeStateManager,
}
use k8s_operator_libs.StateManager.Build.{
  owner_daemon_set, is_unscheduled, get_driver_daemon_sets, build_node_upgrade_state, add_to_group,
  add_pod, add_pods, build_state,
}
use k8s_operator_libs.StateManager.Build.Groups.{Memᴰ-add_to_group}

module _ {W : Type 0} (state_label : W → String → String) (label_key : String) where
  -- The operator's cache is up to date: the node that `GetNode` returns carries the state label that
  -- the node has at the API server.
  pub record ReadsLabels (p : NodeUpgradeStateProvider W) : Type 0 where
    pub reads :
        (name : String) (w : W) (n : Node)
        → (p.get_node name w).0 ≡ ok n
        → value_of label_key n.labels ≡ state_label w n.name
    pub keeps : (name : String) → KeepsLabels state_label (p.get_node name)

module _ {W : Type 0} (client : Client W) (m : ClusterUpgradeStateManager W)
    (state_label : W → String → String)
    (reading : ReadsLabels state_label
      (get_upgrade_state_label_key m.driver_name)
      m.node_upgrade_state_provider)
    (lists : ListLaws client state_label) (start : W) where
  -- No label has changed since the start.
  record IsSame (w : W) : Type 0 where
    same : (name : String) → state_label w name ≡ state_label start name

  -- Every entry carries the label that its node had at the start.
  record IsFresh (c : ClusterUpgradeState) : Type 0 where
    fresh :
        (group : String) (nus : NodeUpgradeState)
        → Memᴰ nus (nodes_in c group)
        → value_of (get_upgrade_state_label_key m.driver_name) nus.node.labels
          ≡ state_label start nus.node.name

  abbrev FreshAndSame : ClusterUpgradeState → W → Type 0
  FreshAndSame c w = IsSame w × IsFresh c

  keeps-Triple :
      {A : Type 0} (read : Act W A)
      → KeepsLabels state_label read
      → Triple IsSame read (λ _. IsSame)
  keeps-Triple read keeps = record {
    at = λ w before _ _. record { same = λ name. keeps name w ∙ before.same name };
  }

  -- The node that is read carries the label that it had at the start.
  build_node-Triple :
      (pod : Pod) (ds : Option DaemonSet)
      → Triple IsSame (build_node_upgrade_state m pod ds) (λ nus w.
        IsSame w
        × (value_of (get_upgrade_state_label_key m.driver_name) nus.node.labels
            ≡ state_label start nus.node.name))
  unfolding build_node_upgrade_state
  build_node-Triple pod ds =
      Triple-bind
        (λ n w.
          IsSame w
          × (value_of (get_upgrade_state_label_key m.driver_name) n.labels
              ≡ state_label start n.name))
        _ _
        (Triple-wrap_error _ _ (record {
          at = λ w before n e. (
            record { same = λ name. reading.keeps pod.node_name name w ∙ before.same name },
            reading.reads pod.node_name w n e ∙ before.same n.name,
          );
        }))
        (λ n. Triple-pure _ (λ w read. read))

  new-IsFresh : IsFresh new_cluster_upgrade_state
  unfolding nodes_in new_cluster_upgrade_state lookup
  new-IsFresh = record { fresh = λ group nus mem. elim mem [ ] }

  add_to_group-IsFresh :
      (nus : NodeUpgradeState) (label : String) (c : ClusterUpgradeState)
      → IsFresh c
      → value_of (get_upgrade_state_label_key m.driver_name) nus.node.labels
        ≡ state_label start nus.node.name
      → IsFresh (add_to_group label nus c)
  add_to_group-IsFresh nus label c k read = record {
    fresh = λ group other mem. elim (Memᴰ-add_to_group label group nus other c mem) [
      | inl old ↦ k.fresh group other old
      | inr (new, _) ↦
          subst
            (λ n.
              value_of (get_upgrade_state_label_key m.driver_name) n.node.labels
              ≡ state_label start n.node.name)
            (sym new) read
    ];
  }

  add_fresh_pod-Triple :
      (daemon_sets : StringMap DaemonSet) (c : ClusterUpgradeState) (pod : Pod)
      → IsFresh c
      → Triple IsSame (add_pod m daemon_sets c pod) FreshAndSame
  unfolding add_pod
  add_fresh_pod-Triple daemon_sets c pod k =
      Triple-if (is_unscheduled pod) _ _ (λ _. Triple-pure c (λ w same. (same, k)))
        λ _.
          Triple-bind _ _ _ (build_node-Triple pod (owner_daemon_set daemon_sets pod))
            λ nus. Triple-pure _ (λ w (same, read). (same, add_to_group-IsFresh nus _ c k read))

  add_pod-Triple :
      (daemon_sets : StringMap DaemonSet) (pod : Pod) (c : ClusterUpgradeState)
      → Triple (FreshAndSame c) (add_pod m daemon_sets c pod) FreshAndSame
  add_pod-Triple daemon_sets pod c = record {
    at = λ w (same, k) c' e. (add_fresh_pod-Triple daemon_sets c pod k).at w same c' e;
  }

  build_state-Triple :
      (namespace : String) (driver_labels : StringMap String)
      → Triple IsSame (build_state client m namespace driver_labels) FreshAndSame
  unfolding build_state add_pods get_driver_daemon_sets
  build_state-Triple namespace driver_labels =
      Triple-bind (λ _. IsSame) _ _
        (Triple-bind (λ _. IsSame) _ _
          (Triple-wrap_error _ _ (keeps-Triple _ (lists.list_daemon_sets-label _ _)))
          (λ _. Triple-pure _ (λ w same. same)))
        λ daemon_sets.
          Triple-bind (λ _. IsSame) _ _ (keeps-Triple _ (lists.list_driver_pods-label _ _))
            λ pods.
              Triple-bind (λ _. IsSame) _ _ (Triple-lift _)
                λ owned.
                  Triple-weaken (λ w same. (same, new-IsFresh)) (λ _ _ q. q)
                    (Triple-fold_each FreshAndSame (add_pod m daemon_sets)
                      (add_pod-Triple daemon_sets) _ new_cluster_upgrade_state)

  -- Errors included: no label changes.
  unchanged : Preorder W
  unchanged = record {
    rel = λ w w'. (name : String) → state_label w' name ≡ state_label w name;
    rel_refl = λ w name. refl;
    rel_trans = λ w w' w'' h k name. k name ∙ h name;
  }

  keeps-Follows :
      {A : Type 0} (read : Act W A) → KeepsLabels state_label read → Follows unchanged read
  unfolding unchanged
  keeps-Follows read keeps = record { at = λ w name. keeps name w }

  add_pod-Follows :
      (daemon_sets : StringMap DaemonSet) (c : ClusterUpgradeState) (pod : Pod)
      → Follows unchanged (add_pod m daemon_sets c pod)
  unfolding add_pod build_node_upgrade_state
  add_pod-Follows daemon_sets c pod =
      let read =
        keeps-Follows (m.node_upgrade_state_provider.get_node pod.node_name)
          (reading.keeps pod.node_name) in
      search follows_rules depth 12

  build_state-Follows :
      (namespace : String) (driver_labels : StringMap String)
      → Follows unchanged (build_state client m namespace driver_labels)
  unfolding build_state add_pods get_driver_daemon_sets
  build_state-Follows namespace driver_labels =
      Follows-bind _ _
        (Follows-bind _ _
          (Follows-wrap_error _ _
            (keeps-Follows _ (lists.list_daemon_sets-label namespace driver_labels)))
          (λ _. Follows-pure _))
        λ daemon_sets.
          Follows-bind _ _ (keeps-Follows _ (lists.list_driver_pods-label namespace driver_labels))
            λ listed.
              Follows-bind _ _ (Follows-lift _)
                λ owned. Follows-fold_each _ _ _ (λ c pod _. add_pod-Follows daemon_sets c pod)

  -- `BuildState` changes no label, whether it succeeds or fails.
  pub build_state-label :
      (namespace : String) (driver_labels : StringMap String) (name : String)
      → state_label (build_state client m namespace driver_labels start).1 name
        ≡ state_label start name
  unfolding unchanged
  build_state-label namespace driver_labels name =
      (build_state-Follows namespace driver_labels).at start name

  start-IsSame : IsSame start
  start-IsSame = record { same = λ name. refl }

  -- When the operator's cache is up to date and `BuildState` returns a snapshot: every entry carries
  -- the label that its node has at the API server.
  pub build_state-fresh :
      (namespace : String) (driver_labels : StringMap String) (c : ClusterUpgradeState)
      (group : String) (nus : NodeUpgradeState)
      → (build_state client m namespace driver_labels start).0 ≡ ok c
      → Memᴰ nus (nodes_in c group)
      → value_of (get_upgrade_state_label_key m.driver_name) nus.node.labels
        ≡ state_label start nus.node.name
  build_state-fresh namespace driver_labels c group nus e mem =
      ((build_state-Triple namespace driver_labels).at start start-IsSame c e).1.fresh group nus mem
