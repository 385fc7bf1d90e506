-- ===== src/StateManager/Build/Groups.antt =====
-- The snapshot that `BuildState` makes: its groups, and the driver pods in it.
use mathlib.Core.Path.{subst}
use mathlib.Core.List.Memᴰ.{append_cases, eq_of_singleton}
use k8s_operator_libs.Prelude.{
  String, ◌≡◌, sym, ap, ◌∙◌, ◌⊎◌, inl, inr, false, Bool-cases, Option, none, some, List, [], ◌∷◌,
  ◌++◌, Memᴰ, ◌==◌, eq_iff,
}
use k8s_operator_libs.Act.{ok}
use k8s_operator_libs.Act.Follows.{Returns, Returns-pure, Returns-bind}
use k8s_operator_libs.Act.Loops.{Returns-if}
use k8s_operator_libs.Act.Loops.{Returns-fold_each}
use k8s_operator_libs.StringMap.{
  StringMap, lookup, value_of, lookup-insert_same, lookup-insert_other,
}
use k8s_operator_libs.Kube.{Pod, DaemonSet}
use k8s_operator_libs.Consts.{get_upgrade_state_label_key}
use k8s_operator_libs.Client.{Client}
use k8s_operator_libs.StateManager.{
  NodeUpgradeState, ClusterUpgradeState, new_cluster_upgrade_state, nodes_in,
  ClusterUpgradeStateManager,
}
use k8s_operator_libs.StateManager.Build.{add_to_group, add_pod, add_pods, build_state}

abbrev read_group : Option (List NodeUpgradeState) → List NodeUpgradeState
read_group found = elim found [ none ↦ [] | some l ↦ l ]

nodes_in-add_same :
    (label : String) (nus : NodeUpgradeState) (c : ClusterUpgradeState)
    → nodes_in (add_to_group label nus c) label ≡ nodes_in c label ++ nus ∷ []
unfolding nodes_in add_to_group
nodes_in-add_same label nus c =
    ap read_group
      (lookup-insert_same label (read_group (lookup label c.node_states) ++ nus ∷ []) c.node_states)

nodes_in-add_other :
    (label group : String) (nus : NodeUpgradeState) (c : ClusterUpgradeState)
    → (label == group) ≡ false
    → nodes_in (add_to_group label nus c) group ≡ nodes_in c group
unfolding nodes_in add_to_group
nodes_in-add_other label group nus c other = ap read_group (
    lookup-insert_other label group (read_group (lookup label c.node_states) ++ nus ∷ [])
      c.node_states other)

-- What a group holds after an addition: an old entry of it, or the new one in its own group.
pub Memᴰ-add_to_group :
    (label group : String) (nus other : NodeUpgradeState) (c : ClusterUpgradeState)
    → Memᴰ other (nodes_in (add_to_group label nus c) group)
    → Memᴰ other (nodes_in c group) ⊎ ((other ≡ nus) × (label ≡ group))
Memᴰ-add_to_group label group nus other c mem = elim (Bool-cases (label == group)) [
  | inl same ↦
      (let e = (eq_iff label group).0 same in
        let mem' = subst (λ g. Memᴰ other (nodes_in (add_to_group label nus c) g)) (sym e) mem in
        elim (append_cases (nodes_in c label) {t = nus ∷ []}
          (subst (Memᴰ other) (nodes_in-add_same label nus c) mem')) [
            | inl old ↦ inl (subst (λ g. Memᴰ other (nodes_in c g)) e old)
            | inr new ↦ inr (eq_of_singleton new, e)
          ])
  | inr different ↦ inl (subst (Memᴰ other) (nodes_in-add_other label group nus c different) mem)
]

module _ {W : Type 0} (m : ClusterUpgradeStateManager W) where
  abbrev label_of : NodeUpgradeState → String
  label_of nus = value_of (get_upgrade_state_label_key m.driver_name) nus.node.labels

  -- Every entry stands in the group of its node's label.
  record IsGrouped (c : ClusterUpgradeState) : Type 0 where
    grouped :
        (group : String) (nus : NodeUpgradeState)
        → Memᴰ nus (nodes_in c group)
        → label_of nus ≡ group

  new-IsGrouped : IsGrouped new_cluster_upgrade_state
  unfolding nodes_in new_cluster_upgrade_state lookup
  new-IsGrouped = record { grouped = λ group nus mem. elim mem [ ] }

  add_to_group-IsGrouped :
      (nus : NodeUpgradeState) (c : ClusterUpgradeState)
      → IsGrouped c
      → IsGrouped (add_to_group (label_of nus) nus c)
  add_to_group-IsGrouped nus c k = record {
    grouped = λ group other mem. elim (Memᴰ-add_to_group (label_of nus) group nus other c mem) [
      | inl old ↦ k.grouped group other old
      | inr (same, e) ↦ ap label_of same ∙ e
    ];
  }

  add_pod-IsGrouped :
      (daemon_sets : StringMap DaemonSet) (c : ClusterUpgradeState) (pod : Pod)
      → IsGrouped c
      → Returns IsGrouped (add_pod m daemon_sets c pod)
  unfolding add_pod
  add_pod-IsGrouped daemon_sets c pod k =
      Returns-if _ _ _ (Returns-pure _ k)
        (Returns-bind _ _ (λ nus. Returns-pure _ (add_to_group-IsGrouped nus c k)))

  build_state-Returns :
      (client : Client W) (namespace : String) (driver_labels : StringMap String)
      → Returns IsGrouped (build_state client m namespace driver_labels)
  unfolding build_state add_pods
  build_state-Returns client namespace driver_labels = Returns-bind _ _ λ daemon_sets.
      Returns-bind _ _ λ pods. Returns-bind _ _ λ owned_pods.
        Returns-fold_each (λ _. IsGrouped) (add_pod m daemon_sets)
          (λ pod rest c. add_pod-IsGrouped daemon_sets c pod) _ _ new-IsGrouped

  -- When `BuildState` returns a snapshot, each entry of it stands in the group that its node's state
  -- label names.
  pub build_state_groups_by_label :
      (client : Client W) (namespace : String) (driver_labels : StringMap String) (w : W)
      (c : ClusterUpgradeState) (group : String) (nus : NodeUpgradeState)
      → (build_state client m namespace driver_labels w).0 ≡ ok c
      → Memᴰ nus (nodes_in c group)
      → value_of (get_upgrade_state_label_key m.driver_name) nus.node.labels ≡ group
  build_state_groups_by_label client namespace driver_labels w c group nus e mem =
      ((build_state-Returns client namespace driver_labels).at w c e).grouped group nus mem
