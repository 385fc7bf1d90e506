-- ===== src/Tests/Accepted.antt =====
-- A cluster whose nodes can always be read.
use mathlib.Core.Path.{subst}
use k8s_operator_libs.Prelude.{String, ◌≡◌, refl, true, [], ◌∷◌, Memᴰ, count_if, none, sym}
use k8s_operator_libs.Prelude.Int.{pos}
use k8s_operator_libs.Act.{is_ok}
use k8s_operator_libs.StringMap.{insert}
use k8s_operator_libs.Kube.{Pod, DaemonSet}
use k8s_operator_libs.Client.{Client}
use k8s_operator_libs.System.{System}
use k8s_operator_libs.Provider.{new_node_upgrade_state_provider, get_node}
use k8s_operator_libs.Manager.{new_manager}
use k8s_operator_libs.StateManager.{ClusterUpgradeStateManager}
use k8s_operator_libs.StateManager.Build.{by_uid, build_state}
use k8s_operator_libs.StateManager.Build.Covered.{is_placed}
use k8s_operator_libs.StateManager.Build.Accepts.{is_of, HasNode, build_state_succeeds}
use k8s_operator_libs.Tests.Cluster.{Cluster, client, driver, find}
use k8s_operator_libs.Tests.Witnesses.{cluster, system, driver_pods, daemon_set}

abbrev readable : Client (System Cluster)
readable = record client { get = λ name s. (find name cluster.nodes, s) }

abbrev reading_manager : ClusterUpgradeStateManager (System Cluster)
reading_manager = new_manager readable driver none ""

three_wanted :
    (uid : String) (ds : DaemonSet)
    → Memᴰ (uid, ds) (by_uid [] (daemon_set ∷ []))
    → ds.desired_number_scheduled ≡ pos (count_if (is_of ds) driver_pods)
unfolding by_uid insert
three_wanted uid ds (Memᴰ.head e) =
    subst (λ pair. pair.1.desired_number_scheduled ≡ pos (count_if (is_of pair.1) driver_pods))
      (sym e) refl
three_wanted uid ds (Memᴰ.tail later) = elim later [ ]

nodes_read : (pod : Pod) → Memᴰ pod driver_pods → is_placed pod ≡ true → HasNode reading_manager pod
unfolding new_manager new_node_upgrade_state_provider get_node
nodes_read pod (Memᴰ.head e) placed w =
    subst (λ p. is_ok (find p.node_name cluster.nodes) ≡ true) (sym e) refl
nodes_read pod (Memᴰ.tail (Memᴰ.head e)) placed w =
    subst (λ p. is_ok (find p.node_name cluster.nodes) ≡ true) (sym e) refl
nodes_read pod (Memᴰ.tail (Memᴰ.tail (Memᴰ.head e))) placed w =
    subst (λ p. is_ok (find p.node_name cluster.nodes) ≡ true) (sym e) refl
nodes_read pod (Memᴰ.tail (Memᴰ.tail (Memᴰ.tail later))) placed w = elim later [ ]

build_state_succeeds_example : is_ok (build_state readable reading_manager "gpu" [] system).0 ≡ true
build_state_succeeds_example =
    build_state_succeeds readable reading_manager "gpu" [] system system system (daemon_set ∷ [])
      driver_pods refl refl three_wanted nodes_read
