-- ===== src/Background/Quiet.antt =====
-- What the bodies of the goroutines do to the managers' sets and tasks.
use k8s_operator_libs.Prelude.{String, Bool}
use k8s_operator_libs.Act.{Result, ok, err, Act}
use k8s_operator_libs.Act.Follows.{
  Follows, follows_rules, Follows-attempt, Follows-gets, Follows-then,
}
use k8s_operator_libs.Kube.{Node, Pod}
use k8s_operator_libs.Interfaces.{Held, on_node, in_world, of_node, NodeUpgradeStateProvider}
use k8s_operator_libs.Client.{Client, DrainHelper, reload, reloaded}
use k8s_operator_libs.Client.Laws.{PollLaws}
use k8s_operator_libs.System.{System}
use k8s_operator_libs.Provider.{
  state_is_synced, change_node_upgrade_state, new_node_upgrade_state_provider,
}
use k8s_operator_libs.Drain.{drain_node}
use k8s_operator_libs.Pods.{update_node_to_drain_or_failed, delete_pods, evict_listed, evict_pods}
use k8s_operator_libs.Background.{SameTasks, same_tasks, held_same_tasks, TaskLaws}

module _ {K A : Type 0} where
  pub Follows-world :
      (m : Act (System K) A) → Follows same_tasks m → Follows held_same_tasks (in_world m)
  unfolding in_world
  Follows-world m k = record { at = λ h. k.at h.world }

  pub Follows-node :
      (n : Node) (m : Act (Held (System K)) A)
      → Follows held_same_tasks m
      → Follows same_tasks (on_node n m)
  unfolding on_node
  Follows-node n m k = record { at = λ w. k.at (record { node = n; world = w }) }

  pub Follows-object : (f : Node → A) → Follows (held_same_tasks {K = K}) (of_node f)
  unfolding of_node
  Follows-object f = Follows-gets (λ h. f h.node)

module _ {K : Type 0} (client : Client (System K)) (laws : TaskLaws client) (poll : PollLaws client)
    (driver_name : String) where
  reloaded-SameTasks :
      (old : Node) (r : Result Node) (s w : System K)
      → SameTasks s w
      → SameTasks s (reloaded old r w).1.world
  reloaded-SameTasks old (ok n) s w k = k
  reloaded-SameTasks old (err e) s w k = k

  pub reload-Follows : Follows held_same_tasks (reload client)
  unfolding reload
  reload-Follows = record {
    at = λ h.
        let (r, w) = client.get h.node.name h.world in
        reloaded-SameTasks h.node r h.world w ((laws.get h.node.name).at h.world);
  }

  change_state-Follows :
      (new_state : String)
      → Follows held_same_tasks (change_node_upgrade_state client driver_name new_state)
  unfolding change_node_upgrade_state state_is_synced
  change_state-Follows new_state =
      Follows-then _ _ (laws.patch _)
        (poll.only_condition _ _ (search (follows_rules, reload-Follows, Follows-object)))

  abbrev provider : NodeUpgradeStateProvider (System K)
  provider = new_node_upgrade_state_provider client driver_name

  pub set_state-Follows :
      (new_state : String) → Follows held_same_tasks (provider.change_node_upgrade_state new_state)
  unfolding new_node_upgrade_state_provider
  set_state-Follows new_state = change_state-Follows new_state

  pub drain_node-Follows :
      (helper : DrainHelper) (name : String)
      → Follows held_same_tasks (drain_node client provider helper name)
  unfolding drain_node
  drain_node-Follows helper name =
      search
        (
          follows_rules, Follows-attempt, set_state-Follows, Follows-world, laws.run_node_drain,
          laws.run_cordon_or_uncordon,
        )
        depth 15

  pub evict_pods-Follows :
      (filter : Pod → Bool) (helper : DrainHelper) (drain_enabled : Bool) (name : String)
      → Follows held_same_tasks (evict_pods client provider filter helper drain_enabled name)
  unfolding evict_pods evict_listed delete_pods update_node_to_drain_or_failed
  evict_pods-Follows filter helper drain_enabled name =
      search
        (
          follows_rules, Follows-attempt, set_state-Follows, Follows-world, laws.list_pods,
          laws.get_pods_for_deletion, laws.delete_or_evict_pods,
        )
        depth 20
