-- ===== src/Background/OneTask.antt =====
-- The tasks of drain_manager.go and pod_manager.go that are under way for one node.
use mathlib.Core.Path.{subst, subst₂}
use k8s_operator_libs.Prelude.{
  String, ◌≡◌, sym, Bool, List, ◌∷◌, ◌++◌, count_if, ◌==◌, if◌then◌else◌,
}
use k8s_operator_libs.Act.{modify, ignore, ◌>>=◌, ◌>>◌, continue}
use k8s_operator_libs.Kube.{Pod}
use k8s_operator_libs.Interfaces.{NodeUpgradeStateProvider}
use k8s_operator_libs.StringSet
use k8s_operator_libs.StringSet.{StringSet, has}
use k8s_operator_libs.Client.{Client}
use k8s_operator_libs.Client.Laws.{PollLaws}
use k8s_operator_libs.System.{System, DrainTask, EvictionTask}
use k8s_operator_libs.Provider.{new_node_upgrade_state_provider}
use k8s_operator_libs.Drain
use k8s_operator_libs.Pods
use k8s_operator_libs.Background.{TaskLaws, Step, Reachable}
use k8s_operator_libs.Background.Quiet.{Follows-node, drain_node-Follows, evict_pods-Follows}
use k8s_operator_libs.Background.Ledger.{Agrees, Agrees-empty, Agrees-remove}
use k8s_operator_libs.Background.Consistent.{
  drain_name, eviction_name, IsConsistent, SameTasks-IsConsistent, schedule_drain-Follows,
  schedule_eviction-Follows,
}

module _ {K : Type 0} (client : Client (System K)) (laws : TaskLaws client) (poll : PollLaws client)
    (driver_name : String) (filter : Pod → Bool) where
  abbrev provider : NodeUpgradeStateProvider (System K)
  provider = new_node_upgrade_state_provider client driver_name

  pub drain_ended :
      (s : System K) (before after : List DrainTask) (task : DrainTask)
      → s.drain_tasks ≡ before ++ task ∷ after
      → IsConsistent s
      → IsConsistent
          (Drain.run_drain_task client provider task (record s { drain_tasks = before ++ after })).1
  unfolding Drain.run_drain_task ignore modify ◌>>◌ ◌>>=◌ continue
  drain_ended s before after task e k =
      let same =
        (Follows-node task.node _
            (drain_node-Follows client laws poll driver_name task.helper task.node.name)).at
          (record s { drain_tasks = before ++ after }) in
      record {
        drains =
            subst₂ (λ busy tasks. Agrees drain_name (StringSet.remove task.node.name busy) tasks)
              (sym same.draining_nodes) (sym same.drain_tasks)
              (Agrees-remove drain_name s.draining_nodes before after task
                (subst (Agrees drain_name s.draining_nodes) e k.drains));
        evictions =
            subst₂ (Agrees eviction_name) (sym same.nodes_in_progress) (sym same.eviction_tasks)
              k.evictions;
      }

  pub eviction_ended :
      (s : System K) (before after : List EvictionTask) (task : EvictionTask)
      → s.eviction_tasks ≡ before ++ task ∷ after
      → IsConsistent s
      → IsConsistent
          (Pods.run_eviction_task client provider filter task
            (record s { eviction_tasks = before ++ after })).1
  unfolding Pods.run_eviction_task ignore modify ◌>>◌ ◌>>=◌ continue
  eviction_ended s before after task e k =
      let same =
        (Follows-node task.node _ (
            evict_pods-Follows client laws poll driver_name filter task.helper task.drain_enabled
              task.node.name)).at
          (record s { eviction_tasks = before ++ after }) in
      record {
        drains =
            subst₂ (Agrees drain_name) (sym same.draining_nodes) (sym same.drain_tasks) k.drains;
        evictions =
            subst₂ (λ busy tasks. Agrees eviction_name (StringSet.remove task.node.name busy) tasks)
              (sym same.nodes_in_progress) (sym same.eviction_tasks)
              (Agrees-remove eviction_name s.nodes_in_progress before after task
                (subst (Agrees eviction_name s.nodes_in_progress) e k.evictions));
      }

  Step-IsConsistent :
      (s s' : System K) → Step client provider filter s s' → IsConsistent s → IsConsistent s'
  Step-IsConsistent s _ (Step.request_drain _ config) k = (schedule_drain-Follows config).at s k
  Step-IsConsistent s _ (Step.request_eviction _ config) k =
      (schedule_eviction-Follows filter config).at s k
  Step-IsConsistent s _ (Step.end_drain _ before after task e) k =
      drain_ended s before after task e k
  Step-IsConsistent s _ (Step.end_eviction _ before after task e) k =
      eviction_ended s before after task e k
  Step-IsConsistent s s' (Step.elsewhere _ _ same) k = SameTasks-IsConsistent s s' same k

  Reachable-IsConsistent : (s : System K) → Reachable client provider filter s → IsConsistent s
  Reachable-IsConsistent _ (Reachable.start api) = record {
    drains = Agrees-empty drain_name;
    evictions = Agrees-empty eviction_name;
  }
  Reachable-IsConsistent _ (Reachable.next s s' before step) =
      Step-IsConsistent s s' step (Reachable-IsConsistent s before)

  -- With clients that do not reach into the managers' own state: whatever the order of requests and
  -- of the ends of goroutines, and whatever happens in between that leaves the managers' own state
  -- alone: a node has one drain under way if it is marked as draining, and else none.
  pub one_drain_at_most :
      (s : System K) (name : String)
      → Reachable client (new_node_upgrade_state_provider client driver_name) filter s
      → count_if (λ task. drain_name task == name) s.drain_tasks
        ≡ (if has name s.draining_nodes then 1 else 0)
  one_drain_at_most s name reachable = (Reachable-IsConsistent s reachable).drains.count name

  -- With clients that do not reach into the managers' own state: in every state that requests, ends
  -- of goroutines and anything that leaves the managers' own state alone lead to, in any order: a
  -- node has one deletion of pods under way if it is marked as in progress, and else none.
  pub one_eviction_at_most :
      (s : System K) (name : String)
      → Reachable client (new_node_upgrade_state_provider client driver_name) filter s
      → count_if (λ task. eviction_name task == name) s.eviction_tasks
        ≡ (if has name s.nodes_in_progress then 1 else 0)
  one_eviction_at_most s name reachable = (Reachable-IsConsistent s reachable).evictions.count name
