-- ===== src/Background.antt =====
-- The goroutines of drain_manager.go and pod_manager.go in between everything else: the steps by which
-- the sets of busy nodes and the tasks change.
pub mod Ledger
pub mod Quiet
pub mod Consistent
pub mod OneTask
use k8s_operator_libs.Prelude.{◌≡◌, refl, ◌∙◌, Bool, List, [], ◌∷◌, ◌++◌, String}
use k8s_operator_libs.Act.{Act}
use k8s_operator_libs.Act.Follows.{Preorder, Follows}
use k8s_operator_libs.StringMap.{StringMap}
use k8s_operator_libs.Kube.{Pod}
use k8s_operator_libs.Interfaces.{
  Held, NodeUpgradeStateProvider, PodManagerConfig, DrainConfiguration,
}
use k8s_operator_libs.StringSet.{new_string_set}
use k8s_operator_libs.Client.{Client, DrainHelper, Patch}
use k8s_operator_libs.System.{System, DrainTask, EvictionTask}
use k8s_operator_libs.Drain.{schedule_nodes_drain, run_drain_task}
use k8s_operator_libs.Pods.{schedule_pod_eviction, run_eviction_task}

module _ {K : Type 0} where
  -- The managers' own state is as before; the rest of the world may have changed.
  pub record SameTasks (s s' : System K) : Type 0 where
    pub draining_nodes : s'.draining_nodes ≡ s.draining_nodes
    pub nodes_in_progress : s'.nodes_in_progress ≡ s.nodes_in_progress
    pub drain_tasks : s'.drain_tasks ≡ s.drain_tasks
    pub eviction_tasks : s'.eviction_tasks ≡ s.eviction_tasks

  abbrev pub same_tasks : Preorder (System K)
  same_tasks = record {
    rel = SameTasks;
    rel_refl = λ s. record {
      draining_nodes = refl;
      nodes_in_progress = refl;
      drain_tasks = refl;
      eviction_tasks = refl;
    };
    rel_trans = λ s t u h k. record {
      draining_nodes = k.draining_nodes ∙ h.draining_nodes;
      nodes_in_progress = k.nodes_in_progress ∙ h.nodes_in_progress;
      drain_tasks = k.drain_tasks ∙ h.drain_tasks;
      eviction_tasks = k.eviction_tasks ∙ h.eviction_tasks;
    };
  }

  abbrev pub held_same_tasks : Preorder (Held (System K))
  held_same_tasks = record {
    rel = λ h h'. SameTasks h.world h'.world;
    rel_refl = λ h. same_tasks.rel_refl h.world;
    rel_trans = λ h h' h''. same_tasks.rel_trans h.world h'.world h''.world;
  }

  -- The clients do not reach into the managers of this package.
  pub record TaskLaws (client : Client (System K)) : Type 0 where
    pub get : (name : String) → Follows same_tasks (client.get name)
    pub list_pods : (selector name : String) → Follows same_tasks (client.list_pods selector name)
    pub run_node_drain :
        (helper : DrainHelper) (name : String)
        → Follows same_tasks (client.run_node_drain helper name)
    pub get_pods_for_deletion :
        (helper : DrainHelper) (name : String)
        → Follows same_tasks (client.get_pods_for_deletion helper name)
    pub delete_or_evict_pods :
        (helper : DrainHelper) (pods : List Pod)
        → Follows same_tasks (client.delete_or_evict_pods helper pods)
    pub patch : (p : Patch) → Follows held_same_tasks (client.patch p)
    pub run_cordon_or_uncordon :
        (desired : Bool) → Follows held_same_tasks (client.run_cordon_or_uncordon desired)

module _ {K : Type 0} (client : Client (System K)) (provider : NodeUpgradeStateProvider (System K))
    (filter : Pod → Bool) where
  -- A call that starts goroutines, the end of a goroutine, or anything else.
  pub data Step : System K → System K → Type 0 where
    request_drain :
        (s : System K) (config : DrainConfiguration) → Step s (schedule_nodes_drain config s).1
    request_eviction :
        (s : System K) (config : PodManagerConfig)
        → Step s (schedule_pod_eviction filter config s).1
    end_drain :
        (s : System K) (before after : List DrainTask) (task : DrainTask)
        → s.drain_tasks ≡ before ++ task ∷ after
        → Step s
            (run_drain_task client provider task (record s { drain_tasks = before ++ after })).1
    end_eviction :
        (s : System K) (before after : List EvictionTask) (task : EvictionTask)
        → s.eviction_tasks ≡ before ++ task ∷ after
        → Step s
            (run_eviction_task client provider filter task
              (record s { eviction_tasks = before ++ after })).1
    elsewhere : (s s' : System K) → SameTasks s s' → Step s s'

  -- What the managers may come to from their start, with `api` the world then.
  pub data Reachable : System K → Type 0 where
    start :
        (api : K)
        → Reachable (record {
          api = api;
          draining_nodes = new_string_set;
          nodes_in_progress = new_string_set;
          drain_tasks = [];
          eviction_tasks = [];
        })
    next : (s s' : System K) → Reachable s → Step s s' → Reachable s'
