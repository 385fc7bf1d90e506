-- ===== src/Tests/Goroutines.antt =====
-- The goroutines at a concrete cluster.
use k8s_operator_libs.Prelude.{
  ◌≡◌, ◌⊎◌, refl, Bool, true, [], ◌∷◌, none, some, count_if, ◌==◌, if◌then◌else◌,
}
use k8s_operator_libs.Prelude.Int.{pos}
use k8s_operator_libs.Act.{Result, ok, err}
use k8s_operator_libs.Kube.{Node, Pod}
use k8s_operator_libs.Interfaces.{Held, DrainConfiguration, PodManagerConfig}
use k8s_operator_libs.StringSet.{has}
use k8s_operator_libs.Client.{DrainHelper}
use k8s_operator_libs.System.{System, DrainTask, EvictionTask}
use k8s_operator_libs.Provider.{new_node_upgrade_state_provider}
use k8s_operator_libs.Drain.{schedule_nodes_drain, run_drain_task}
use k8s_operator_libs.Pods.{schedule_pod_eviction, run_eviction_task}
use k8s_operator_libs.Background.{SameTasks, same_tasks, TaskLaws, Step, Reachable}
use k8s_operator_libs.Background.Consistent.{drain_name, eviction_name}
use k8s_operator_libs.Background.OneTask.{one_drain_at_most, one_eviction_at_most}
use k8s_operator_libs.Manager.Goroutines.{
  DrainOutcome, EvictionOutcome, run_drain_task-DrainOutcome, run_eviction_task-EvictionOutcome,
}
use k8s_operator_libs.Tests.Cluster.{
  Cluster, client, client-PollLaws, client-LabelLaws, driver, label, guarded, find, change, patched,
}
use k8s_operator_libs.Tests.Witnesses.{cluster, system, node_b, node_c}

guarded-SameTasks :
    (r : Result Node) (changed : Result (Unit {0}) × Held (System Cluster))
    (h : Held (System Cluster))
    → SameTasks h.world changed.1.world
    → SameTasks h.world (guarded r changed h).1.world
guarded-SameTasks (ok n) changed h same = same
guarded-SameTasks (err e) changed h same = same_tasks.rel_refl h.world

pub client-TaskLaws : TaskLaws client
client-TaskLaws = record {
  get = λ name. record { at = λ s. same_tasks.rel_refl s };
  list_pods = λ selector name. record { at = λ s. same_tasks.rel_refl s };
  run_node_drain = λ helper name. record { at = λ s. same_tasks.rel_refl s };
  get_pods_for_deletion = λ helper name. record { at = λ s. same_tasks.rel_refl s };
  delete_or_evict_pods = λ helper pods. record { at = λ s. same_tasks.rel_refl s };
  patch = λ p. record {
    at = λ h.
        guarded-SameTasks (find h.node.name h.world.api.nodes) (change (patched p) h) h (record {
          draining_nodes = refl;
          nodes_in_progress = refl;
          drain_tasks = refl;
          eviction_tasks = refl;
        });
  };
  run_cordon_or_uncordon = λ desired. record {
    at = λ h. record {
      draining_nodes = refl;
      nodes_in_progress = refl;
      drain_tasks = refl;
      eviction_tasks = refl;
    };
  };
}

abbrev pub helper : DrainHelper
helper = record {
  force = true;
  delete_empty_dir_data = true;
  timeout = pos 300000000000;
  pod_selector = "";
  additional_filter = none;
}

abbrev pub drain_b : DrainTask
drain_b = record { helper = helper; node = node_b }

abbrev pub evict_b : EvictionTask
evict_b = record { helper = helper; drain_enabled = true; node = node_b }

abbrev pub every_pod : Pod → Bool
every_pod _ = true

abbrev drains : DrainConfiguration
drains = record {
  spec = some (record {
    enable = true;
    force = true;
    pod_selector = "";
    timeout_second = pos 300;
    delete_empty_dir = true;
  });
  nodes = node_b ∷ node_c ∷ node_b ∷ [];
}

abbrev evictions : PodManagerConfig
evictions = record {
  nodes = node_b ∷ node_c ∷ node_b ∷ [];
  deletion_spec = some (record { force = true; timeout_second = pos 300; delete_empty_dir = true });
  wait_for_completion_spec = none;
  drain_enabled = true;
}

-- The system after the request, in which node "b" stands twice.
abbrev draining : System Cluster
draining = (schedule_nodes_drain drains system).1

abbrev evicting : System Cluster
evicting = (schedule_pod_eviction every_pod evictions system).1

one_drain_at_most_example :
    count_if (λ task. drain_name task == "b") draining.drain_tasks
    ≡ (if has "b" draining.draining_nodes then 1 else 0)
one_drain_at_most_example =
    one_drain_at_most client client-TaskLaws client-PollLaws driver every_pod draining "b"
      (Reachable.next system draining (Reachable.start cluster) (Step.request_drain system drains))

one_eviction_at_most_example :
    count_if (λ task. eviction_name task == "b") evicting.eviction_tasks
    ≡ (if has "b" evicting.nodes_in_progress then 1 else 0)
one_eviction_at_most_example =
    one_eviction_at_most client client-TaskLaws client-PollLaws driver every_pod evicting "b" (
      Reachable.next system evicting (Reachable.start cluster)
        (Step.request_eviction system evictions))

abbrev after_drain : System Cluster
after_drain =
    (run_drain_task client (new_node_upgrade_state_provider client driver) drain_b draining).1

run_drain_task-DrainOutcome_example :
    (label after_drain.api "b" ≡ label draining.api "b")
    ⊎ DrainOutcome drain_b "b" (label after_drain.api "b")
run_drain_task-DrainOutcome_example =
    run_drain_task-DrainOutcome client label driver client-PollLaws client-LabelLaws drain_b
      draining "b"

abbrev after_eviction : System Cluster
after_eviction =
    (run_eviction_task client (new_node_upgrade_state_provider client driver) every_pod evict_b
      evicting).1

run_eviction_task-EvictionOutcome_example :
    (label after_eviction.api "b" ≡ label evicting.api "b")
    ⊎ EvictionOutcome evict_b "b" (label after_eviction.api "b")
run_eviction_task-EvictionOutcome_example =
    run_eviction_task-EvictionOutcome client label driver client-PollLaws client-LabelLaws every_pod
      evict_b evicting "b"
