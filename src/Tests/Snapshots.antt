-- ===== src/Tests/Snapshots.antt =====
-- The snapshot of a concrete cluster.
use k8s_operator_libs.StateManager.Apply.{apply_state}
use k8s_operator_libs.System.{System}
use k8s_operator_libs.Consts.{get_upgrade_state_label_key}
use k8s_operator_libs.Provider.{new_node_upgrade_state_provider, get_node}
use k8s_operator_libs.Manager.{new_manager}
use k8s_operator_libs.Prelude.{
  some, ◌≡◌, refl, [], ◌∷◌, Memᴰ, String, Bool, length, count_if, ◌==◌, ◌&&◌,
}
use k8s_operator_libs.Act.{ok, wrap_error, fold_each, pure, ◌>>=◌, lift}
use k8s_operator_libs.StringMap.{value_of, insert, lookup}
use k8s_operator_libs.StateManager.{nodes_in, new_cluster_upgrade_state}
use k8s_operator_libs.StateManager.Counts.Bounds.{all_nodes}
use k8s_operator_libs.StateManager.Build.{
  build_state, add_pods, collect_owned_pods, get_pods_owned_by_ds, is_unscheduled,
  build_node_upgrade_state, add_to_group, owner_daemon_set, by_uid, get_orphaned_pods, has_no_owner,
  add_pod,
}
use k8s_operator_libs.StateManager.Build.Groups.{build_state_groups_by_label}
use k8s_operator_libs.StateManager.Build.Complete.{collect_owned_pods_collects}
use k8s_operator_libs.StateManager.Build.Covered.{is_placed, is_entry_of, add_pods_covers}
use k8s_operator_libs.StateManager.Build.Owned.{IsOwnedBySome, collect_owned_pods_owned}
use k8s_operator_libs.Kube.{Node, Pod}
use k8s_operator_libs.Tests.Cluster.{find-name, Cluster, client, label_key}
use k8s_operator_libs.Tests.Witnesses.{
  scaled, policy, manager, system, snapshot, at_node, node_b, driver_pod, driver_pods, daemon_set,
}

pub build_state_makes : (build_state client manager "gpu" [] system).0 ≡ ok snapshot
unfolding build_state ◌>>=◌ wrap_error pure lift by_uid insert get_pods_owned_by_ds fold_each
    is_unscheduled build_node_upgrade_state new_manager new_node_upgrade_state_provider
    get_orphaned_pods has_no_owner add_to_group new_cluster_upgrade_state value_of nodes_in
    owner_daemon_set lookup get_node get_upgrade_state_label_key add_pods add_pod collect_owned_pods
build_state_makes = refl

node_b_listed : Memᴰ (at_node node_b "old") (nodes_in snapshot "upgrade-required")
unfolding nodes_in
node_b_listed = Memᴰ.head refl

build_state_groups_by_label_example : value_of label_key node_b.labels ≡ "upgrade-required"
unfolding new_manager
build_state_groups_by_label_example =
    build_state_groups_by_label manager client "gpu" [] system snapshot "upgrade-required"
      (at_node node_b "old") build_state_makes node_b_listed

add_pods_makes : (add_pods manager (("1", daemon_set) ∷ []) driver_pods system).0 ≡ ok snapshot
unfolding add_pods fold_each ◌>>=◌ is_unscheduled build_node_upgrade_state wrap_error new_manager
    new_node_upgrade_state_provider pure add_to_group insert new_cluster_upgrade_state value_of
    get_upgrade_state_label_key nodes_in owner_daemon_set
add_pods_makes = refl

manager_reads-name :
    (name : String) (s : System Cluster) (n : Node)
    → (manager.node_upgrade_state_provider.get_node name s).0 ≡ ok n
    → n.name ≡ name
unfolding new_manager new_node_upgrade_state_provider get_node
manager_reads-name name s n e = find-name name s.api.nodes n e

abbrev on_b : Pod → Bool
on_b pod = pod.node_name == "b"

add_pods_covers_example :
    (length (all_nodes snapshot.node_states) ≡ count_if is_placed driver_pods)
    × (count_if (is_entry_of on_b) (all_nodes snapshot.node_states)
        ≡ count_if (λ pod. on_b pod && is_placed pod) driver_pods)
add_pods_covers_example =
    add_pods_covers manager manager_reads-name on_b (("1", daemon_set) ∷ []) driver_pods system
      snapshot add_pods_makes

collected_all : collect_owned_pods (("1", daemon_set) ∷ []) driver_pods [] ≡ ok driver_pods
unfolding collect_owned_pods get_pods_owned_by_ds
collected_all = refl

collect_owned_pods_owned_example :
    IsOwnedBySome (("1", daemon_set) ∷ []) driver_pods (driver_pod "a" "old")
collect_owned_pods_owned_example =
    collect_owned_pods_owned (("1", daemon_set) ∷ []) driver_pods driver_pods (driver_pod "a" "old")
      collected_all (Memᴰ.head refl)

owned_a : Memᴰ (driver_pod "a" "old") (get_pods_owned_by_ds daemon_set driver_pods)
unfolding get_pods_owned_by_ds
owned_a = Memᴰ.head refl

collect_owned_pods_collects_example : Memᴰ (driver_pod "a" "old") driver_pods
collect_owned_pods_collects_example =
    collect_owned_pods_collects (("1", daemon_set) ∷ []) driver_pods [] driver_pods "1" daemon_set
      (driver_pod "a" "old") collected_all (Memᴰ.head refl) owned_a

abbrev applied : System Cluster
applied = (apply_state scaled manager (some snapshot) (some policy) system).1
