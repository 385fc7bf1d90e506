-- ===== src/Tests/Executions.antt =====
-- Executions of the operator at a concrete cluster.
use k8s_operator_libs.Prelude.{
  ◌+◌, ◌≤◌, ◌<◌, String, ◌≡◌, ◌≢◌, refl, sym, ap, ◌∙◌, true, false, [], ◌∷◌, arith,
}
use k8s_operator_libs.Prelude.Int.{pos}
use k8s_operator_libs.Act.{attempt, ignore, modify, pure, ◌>>=◌, ◌>>◌}
use k8s_operator_libs.StringMap.{insert, value_of}
use k8s_operator_libs.StringSet.{new_string_set}
use k8s_operator_libs.Kube.{Node}
use k8s_operator_libs.Interfaces.{on_node, in_world, of_node}
use k8s_operator_libs.Client.{reload}
use k8s_operator_libs.Client.Laws.{ListLaws}
use k8s_operator_libs.Consts.{get_upgrade_state_label_key}
use k8s_operator_libs.System.{System, DrainTask}
use k8s_operator_libs.Provider.{
  new_node_upgrade_state_provider, get_node, change_node_upgrade_state, state_is_synced,
}
use k8s_operator_libs.Drain.{run_drain_task, drain_node}
use k8s_operator_libs.Manager.{
  new_manager, new_cluster_upgrade_state_manager, with_pod_deletion_enabled,
  with_validation_enabled,
}
use k8s_operator_libs.Manager.Background.{api_label}
use k8s_operator_libs.StateManager.Build.Fresh.{ReadsLabels}
use k8s_operator_libs.Execution.{Step, Run, Visits, reconcile}
use k8s_operator_libs.Execution.Change.{ExecutionLaws}
use k8s_operator_libs.Execution.Stages.{
  is_underway, is_turning_point, is_upgrade_state, restart_not_skipped, labels_stay_states,
}
use k8s_operator_libs.Execution.Advance.{Upgrading, changes_left, upgrade_changes_bounded}
use k8s_operator_libs.Tests.Cluster.{
  Cluster, client, client-PollLaws, client-LabelLaws, driver, label, label_key, label_of, find-name,
}
use k8s_operator_libs.Tests.Witnesses.{node, scaled, policy, manager, manager-ManagerWrites}
use k8s_operator_libs.Tests.Goroutines.{helper, every_pod}

pub client-ListLaws : ListLaws client (api_label label)
client-ListLaws = record {
  list_daemon_sets-label = λ namespace labels other s. refl;
  list_driver_pods-label = λ namespace labels other s. refl;
}

pub manager-ReadsLabels :
    ReadsLabels (api_label label) label_key manager.node_upgrade_state_provider
unfolding new_manager new_cluster_upgrade_state_manager with_pod_deletion_enabled
    with_validation_enabled new_node_upgrade_state_provider get_node
manager-ReadsLabels = record {
  reads =
      λ name s n e. ap label_of (sym e) ∙ ap (label s.api) (sym (find-name name s.api.nodes n e));
  keeps = λ name other s. refl;
}

pub manager-ExecutionLaws : ExecutionLaws label client driver manager
unfolding new_manager new_cluster_upgrade_state_manager with_pod_deletion_enabled
    with_validation_enabled
manager-ExecutionLaws = record {
  poll = client-PollLaws;
  labels = client-LabelLaws;
  managers = manager-ManagerWrites;
  reading = manager-ReadsLabels;
  lists = client-ListLaws;
}

abbrev node_d : Node
node_d = node "a" "drain-required" true

abbrev drain_d : DrainTask
drain_d = record { helper = helper; node = node_d }

-- The drain of node "a" is under way.
abbrev started : System Cluster
started = record {
  api = record {
    nodes = node_d ∷ [];
    pods = [];
    daemon_sets = [];
    revisions = [];
    clock = pos 1000;
  };
  draining_nodes = new_string_set;
  nodes_in_progress = new_string_set;
  drain_tasks = drain_d ∷ [];
  eviction_tasks = [];
}

abbrev drained : System Cluster
drained =
    (run_drain_task client (new_node_upgrade_state_provider client driver) drain_d
      (record started { drain_tasks = [] })).1

abbrev step : Step label scaled client driver manager every_pod "gpu" [] started drained
step = Step.end_drain started [] [] drain_d refl

abbrev run : Run label scaled client driver manager every_pod "gpu" [] started drained
run = Run.next started drained Run.begin step

drained_label : label drained.api "a" ≡ "pod-restart-required"
unfolding run_drain_task drain_node on_node ignore attempt in_world modify
    new_node_upgrade_state_provider change_node_upgrade_state state_is_synced reload of_node pure
    value_of insert get_upgrade_state_label_key ◌>>=◌ ◌>>◌
drained_label = refl

started_label : label started.api "a" ≡ "drain-required"
unfolding value_of get_upgrade_state_label_key
started_label = refl

started_is_underway : is_underway (label started.api "a") ≡ true
started_is_underway = rw started_label refl

started_is_state : is_upgrade_state (label started.api "a") ≡ true
started_is_state = rw started_label refl

drained_is_not_underway : is_underway (label drained.api "a") ≡ false
drained_is_not_underway = rw drained_label refl

restart_not_skipped_example :
    Visits label scaled client driver manager every_pod "gpu" []
      (λ state. is_turning_point state ≡ true)
      "a"
      started
      drained
      run
restart_not_skipped_example =
    restart_not_skipped label scaled client driver manager every_pod "gpu" [] manager-ExecutionLaws
      "a" started drained run started_is_underway drained_is_not_underway

abbrev reconciled : System Cluster
reconciled = (reconcile scaled client manager "gpu" [] policy drained).1

labels_stay_states_example : is_upgrade_state (label reconciled.api "a") ≡ true
labels_stay_states_example =
    labels_stay_states label scaled client driver manager every_pod "gpu" [] manager-ExecutionLaws
      "a" started reconciled (Run.next drained reconciled run (Step.reconciled drained policy))
      started_is_state

pub states_differ : ◌≢◌ {A = String} "pod-restart-required" "drain-required"
states_differ e = cc

drained_changes : label drained.api "a" ≢ label started.api "a"
drained_changes = rw (drained_label, started_label) states_differ

goes_on : 0 < changes_left (label started.api "a")
goes_on = rw started_label (omega arith)

upgrading : Upgrading label scaled client driver manager every_pod "gpu" [] "a" started 1 drained
upgrading =
    Upgrading.advance 0 started drained Upgrading.begin step started_label goes_on drained_changes

upgrade_changes_bounded_example :
    (1 + changes_left (label drained.api "a") ≤ changes_left (label started.api "a")) × (1 ≤ 9)
upgrade_changes_bounded_example =
    upgrade_changes_bounded label scaled client driver manager every_pod "gpu" [] "a"
      manager-ExecutionLaws started drained 1 upgrading
