-- ===== src/Tests/Witnesses.antt =====
-- The theorems at a concrete cluster.
use k8s_operator_libs.Prelude.{List, String, ◌≡◌, ◌⊎◌, Bool, true, false, none, some, [], ◌∷◌}
use k8s_operator_libs.Prelude.Int.{pos}
use k8s_operator_libs.Act.{Result, ok}
use k8s_operator_libs.Kube.{Node, Pod, DaemonSet, IntOrString, pod_running}
use k8s_operator_libs.Api.{DriverUpgradePolicySpec}
use k8s_operator_libs.StringSet.{new_string_set}
use k8s_operator_libs.System.{System}
use k8s_operator_libs.StateManager.{
  ClusterUpgradeState, NodeUpgradeState, ClusterUpgradeStateManager,
}
use k8s_operator_libs.StateManager.Apply.{ScaledValue, apply_state}
use k8s_operator_libs.StateManager.Moves.{Moved}
use k8s_operator_libs.StateManager.Transitions.{ManagerWrites}
use k8s_operator_libs.StateManager.Transitions.Reconcile.{apply_state-Moved}
use k8s_operator_libs.Manager.{new_manager}
use k8s_operator_libs.Manager.Reconcile.{new_manager-Moved}
use k8s_operator_libs.Manager.Background.{api_label}
use k8s_operator_libs.Manager.Contract.{new_manager-ManagerWrites}
use k8s_operator_libs.Tests.Cluster.{
  Cluster, client, client-PollLaws, client-LabelLaws, driver, label, label_key,
}

abbrev pub node : String → String → Bool → Node
node name state unschedulable = record {
  name = name;
  labels = (label_key, state) ∷ [];
  annotations = [];
  unschedulable = unschedulable;
  conditions = [];
}

abbrev pub driver_pod : String → String → Pod
driver_pod node_name hash = record {
  name = "driver-pod";
  namespace = "gpu";
  labels = ("controller-revision-hash", hash) ∷ [];
  owner_references = record { name = "driver"; uid = "1" } ∷ [];
  node_name = node_name;
  phase = pod_running;
  container_statuses = record { ready = true; restart_count = pos 0 } ∷ [];
  init_container_statuses = [];
  deletion_timestamp = none;
}

abbrev pub daemon_set : DaemonSet
daemon_set = record {
  name = "driver";
  namespace = "gpu";
  uid = "1";
  match_labels = [];
  desired_number_scheduled = pos 3;
}

abbrev pub at_node : Node → String → NodeUpgradeState
at_node n hash = record {
  node = n;
  driver_pod = driver_pod n.name hash;
  driver_daemon_set = some daemon_set;
}

abbrev pub node_a : Node
node_a = node "a" "cordon-required" false

abbrev pub node_b : Node
node_b = node "b" "upgrade-required" false

abbrev pub node_c : Node
node_c = node "c" "upgrade-required" false

abbrev pub driver_pods : List Pod
driver_pods = driver_pod "a" "old" ∷ driver_pod "b" "old" ∷ driver_pod "c" "old" ∷ []

abbrev pub cluster : Cluster
cluster = record {
  nodes = node_a ∷ node_b ∷ node_c ∷ [];
  pods = driver_pods;
  daemon_sets = daemon_set ∷ [];
  revisions =
      record { name = "driver-old"; revision = pos 1 }
      ∷ record { name = "driver-new"; revision = pos 2 }
      ∷ [];
  clock = pos 1000;
}

abbrev pub system : System Cluster
system = record {
  api = cluster;
  draining_nodes = new_string_set;
  nodes_in_progress = new_string_set;
  drain_tasks = [];
  eviction_tasks = [];
}

abbrev pub snapshot : ClusterUpgradeState
snapshot = record {
  node_states =
      ("cordon-required", at_node node_a "old" ∷ [])
      ∷ ("upgrade-required", at_node node_b "old" ∷ at_node node_c "old" ∷ [])
      ∷ [];
}

-- Every absolute value scales to itself; percentages do not occur here.
abbrev pub scaled : ScaledValue
scaled (IntOrString.int_value n) total round_up = ok n
scaled (IntOrString.string_value s) total round_up = ok total

abbrev pub policy : DriverUpgradePolicySpec
policy = record {
  auto_upgrade = true;
  max_parallel_upgrades = pos 2;
  max_unavailable = none;
  pod_deletion = none;
  wait_for_completion = none;
  drain_spec = none;
}

abbrev pub manager : ClusterUpgradeStateManager (System Cluster)
manager = new_manager client driver none ""

pub manager-ManagerWrites : ManagerWrites (api_label label) manager
manager-ManagerWrites =
    new_manager-ManagerWrites client label driver client-PollLaws client-LabelLaws none ""

abbrev pub reconciled : Result (Unit {0}) × System Cluster
reconciled = apply_state scaled manager (some snapshot) (some policy) system

apply_state-Moved_example :
    (label reconciled.1.api "b" ≡ label cluster "b")
    ⊎ Moved manager policy snapshot "b" (label reconciled.1.api "b")
apply_state-Moved_example =
    apply_state-Moved (api_label label) scaled manager manager-ManagerWrites policy snapshot system
      "b"

new_manager-Moved_example :
    (label reconciled.1.api "b" ≡ label cluster "b")
    ⊎ Moved manager policy snapshot "b" (label reconciled.1.api "b")
new_manager-Moved_example =
    new_manager-Moved client label driver client-PollLaws client-LabelLaws none "" scaled policy
      snapshot system "b"
