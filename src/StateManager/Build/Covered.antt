-- ===== src/StateManager/Build/Covered.antt =====
-- Which driver pods the snapshot of `BuildState` covers.
use k8s_operator_libs.Prelude.{
  ℕ, ◌+◌, String, ◌≡◌, refl, sym, ap, Bool, not, ◌&&◌, Option, none, some, List, [], ◌∷◌, ◌++◌,
  arith, eq_iff, ◌==◌, ◌∙◌, length, count_if, count_if-append, length-append, if◌then◌else◌,
}
use k8s_operator_libs.Act.{ok, wrap_error}
use k8s_operator_libs.Act.Triple.{wrap_result-eq-ok}
use k8s_operator_libs.Act.Follows.{Returns, Returns-pure, Returns-bind_of_Returns}
use k8s_operator_libs.Act.Loops.{Returns-fold_each, Returns-if_of_test}
use k8s_operator_libs.StringMap.{StringMap, lookup, insert, value_of}
use k8s_operator_libs.Kube.{Node, Pod, DaemonSet}
use k8s_operator_libs.Consts.{get_upgrade_state_label_key}
use k8s_operator_libs.StateManager.{
  NodeUpgradeState, ClusterUpgradeState, new_cluster_upgrade_state, nodes_in,
  ClusterUpgradeStateManager,
}
use k8s_operator_libs.StateManager.Counts.Bounds.{all_nodes}
use k8s_operator_libs.StateManager.Build.{
  build_node_upgrade_state, is_unscheduled, add_to_group, add_pod, add_pods,
}

read_group : Option (List NodeUpgradeState) → List NodeUpgradeState
read_group found = elim found [ none ↦ [] | some l ↦ l ]

-- One entry more in a group is one entry more in all.
length-insert_grown :
    (label : String) (nus : NodeUpgradeState) (groups : StringMap (List NodeUpgradeState))
    → length (all_nodes (insert label (read_group (lookup label groups) ++ nus ∷ []) groups))
      ≡ length (all_nodes groups) + 1
unfolding insert lookup read_group
length-insert_grown label nus [] = refl
length-insert_grown label nus ((k, l) ∷ groups) = ground (
  arith,
  eq_iff k label,
  length-insert_grown label nus groups,
  length-append l (all_nodes groups),
  length-append l (nus ∷ []),
  length-append (l ++ nus ∷ []) (all_nodes groups),
  length-append l (all_nodes (insert label (read_group (lookup label groups) ++ nus ∷ []) groups)),
)

length-add_to_group :
    (label : String) (nus : NodeUpgradeState) (c : ClusterUpgradeState)
    → length (all_nodes (add_to_group label nus c).node_states)
      ≡ length (all_nodes c.node_states) + 1
unfolding add_to_group nodes_in read_group
length-add_to_group label nus c = length-insert_grown label nus c.node_states

count_if-insert_grown :
    (q : NodeUpgradeState → Bool) (label : String) (nus : NodeUpgradeState)
    (groups : StringMap (List NodeUpgradeState))
    → count_if q (all_nodes (insert label (read_group (lookup label groups) ++ nus ∷ []) groups))
      ≡ count_if q (all_nodes groups) + (if q nus then 1 else 0)
unfolding insert lookup read_group
count_if-insert_grown q label nus [] = omega arith
count_if-insert_grown q label nus ((k, l) ∷ groups) = ground (
  arith,
  eq_iff k label,
  count_if-insert_grown q label nus groups,
  count_if-append q l (all_nodes groups),
  count_if-append q l (nus ∷ []),
  count_if-append q (l ++ nus ∷ []) (all_nodes groups),
  count_if-append q l
      (all_nodes (insert label (read_group (lookup label groups) ++ nus ∷ []) groups)),
)

count_if-add_to_group :
    (q : NodeUpgradeState → Bool) (label : String) (nus : NodeUpgradeState)
    (c : ClusterUpgradeState)
    → count_if q (all_nodes (add_to_group label nus c).node_states)
      ≡ count_if q (all_nodes c.node_states) + (if q nus then 1 else 0)
unfolding add_to_group nodes_in read_group
count_if-add_to_group q label nus c = count_if-insert_grown q label nus c.node_states

-- Neither pending nor without a node, or only one of them.
abbrev pub is_placed : Pod → Bool
is_placed pod = not (pod.node_name == "" && pod.phase == "Pending")

is_unscheduled-is_placed : (pod : Pod) → not (is_unscheduled pod) ≡ is_placed pod
unfolding is_unscheduled
is_unscheduled-is_placed pod = refl

-- The entry is of a pod with `p`, and of the node of that pod.
abbrev pub is_entry_of : (Pod → Bool) → NodeUpgradeState → Bool
is_entry_of p nus = p nus.driver_pod && nus.node.name == nus.driver_pod.node_name

module _ {W : Type 0} (m : ClusterUpgradeStateManager W)
    (named : (name : String) (w : W) (n : Node)
      → (m.node_upgrade_state_provider.get_node name w).0 ≡ ok n
      → n.name ≡ name) where
  record IsEntry (pod : Pod) (nus : NodeUpgradeState) : Type 0 where
    same_pod : nus.driver_pod ≡ pod
    same_node : nus.node.name ≡ pod.node_name

  wrapped-named :
      (pod : Pod)
      → Returns
          (λ n. n.name ≡ pod.node_name)
          (wrap_error "unable to get node" (m.node_upgrade_state_provider.get_node pod.node_name))
  unfolding wrap_error
  wrapped-named pod = record {
    at = λ w n e. named pod.node_name w n (
        wrap_result-eq-ok "unable to get node"
          (m.node_upgrade_state_provider.get_node pod.node_name w).0 n e);
  }

  build_node_upgrade_state-IsEntry :
      (pod : Pod) (ds : Option DaemonSet)
      → Returns (IsEntry pod) (build_node_upgrade_state m pod ds)
  unfolding build_node_upgrade_state
  build_node_upgrade_state-IsEntry pod ds =
      Returns-bind_of_Returns _ _ _ (wrapped-named pod)
        (λ n same. Returns-pure _ (record { same_pod = refl; same_node = same }))

  module _ (p : Pod → Bool) where
    IsEntry-counts :
        (pod : Pod) (nus : NodeUpgradeState) → IsEntry pod nus → is_entry_of p nus ≡ p pod
    IsEntry-counts pod nus k =
        let same =
          (eq_iff nus.node.name nus.driver_pod.node_name).1
            (k.same_node ∙ ap (λ x. x.node_name) (sym k.same_pod)) in
        let same_p = ap p k.same_pod in ground arith

    -- The entries so far and the pods to come make up `total`, those of pods with `p` make up `part`.
    abbrev Counted : ℕ → ℕ → List Pod → ClusterUpgradeState → Type 0
    Counted total part rest c =
        (length (all_nodes c.node_states) + count_if is_placed rest ≡ total)
        × (count_if (is_entry_of p) (all_nodes c.node_states)
              + count_if (λ pod. p pod && is_placed pod) rest
            ≡ part)

    add_pod-Counted :
        (total part : ℕ) (daemon_sets : StringMap DaemonSet) (pod : Pod) (rest : List Pod)
        (c : ClusterUpgradeState)
        → Counted total part (pod ∷ rest) c
        → Returns (Counted total part rest) (add_pod m daemon_sets c pod)
    unfolding add_pod
    add_pod-Counted total part daemon_sets pod rest c (k, l) =
        let test = is_unscheduled-is_placed pod in
        Returns-if_of_test (is_unscheduled pod) _ _
          (λ skipped. Returns-pure c (ground arith, ground arith))
          λ taken.
            Returns-bind_of_Returns (IsEntry pod) _ _ (build_node_upgrade_state-IsEntry pod _)
              λ nus entry.
                let label = value_of (get_upgrade_state_label_key m.driver_name) nus.node.labels in
                let counts = IsEntry-counts pod nus entry in
                Returns-pure _ (
                  ground (arith, length-add_to_group label nus c),
                  ground (arith, count_if-add_to_group (is_entry_of p) label nus c),
                )

    -- Where a node that is read has the name that was asked for, and the loop of `BuildState` over the
    -- driver pods succeeds: the snapshot has as many entries as the list has pods that are not both
    -- pending and without a node, and, whatever pods one counts, as many entries of such pods, each
    -- with the node that its pod names, as the list has such pods: one entry for each of them.
    pub add_pods_covers :
        (daemon_sets : StringMap DaemonSet) (pods : List Pod) (w : W) (c : ClusterUpgradeState)
        → (add_pods m daemon_sets pods w).0 ≡ ok c
        → (length (all_nodes c.node_states) ≡ count_if is_placed pods)
          × (count_if (is_entry_of p) (all_nodes c.node_states)
              ≡ count_if (λ pod. p pod && is_placed pod) pods)
    unfolding add_pods new_cluster_upgrade_state
    add_pods_covers daemon_sets pods w c e =
        let (k, l) =
          (Returns-fold_each
              (Counted (count_if is_placed pods) (count_if (λ pod. p pod && is_placed pod) pods))
              (add_pod m daemon_sets) (λ pod rest c'. add_pod-Counted _ _ daemon_sets pod rest c')
              pods (record { node_states = [] }) (omega arith, omega arith)).at
            w c e in
        (omega arith, omega arith)
