-- ===== src/Tests/Outcomes.antt =====
-- Revisions, validation, the safe load, slots and a failing drain, at concrete inputs.
use k8s_operator_libs.Manager.{new_manager}
use k8s_operator_libs.StringMap.{delete, has, value_of, insert, lookup}
use mathlib.Core.Path.{subst}
use k8s_operator_libs.Prelude.{
  String, ◌≡◌, ◌≢◌, eq_iff, ◌⊎◌, refl, sym, true, false, List, [], ◌∷◌, Memᴰ, count_if, arith, ap,
  ◌==◌,
}
use k8s_operator_libs.Prelude.Int.{pos, negsuc, ◌+ℤ◌, ◌≤ℤ◌, ◌-ℤ◌}
use k8s_operator_libs.Act.{Error, ok, err, ◌>>◌, when, ◌>>=◌, pure, fold_each, gets, continue}
use k8s_operator_libs.Kube.{Node, Pod, ControllerRevision}
use k8s_operator_libs.Consts.{
  get_upgrade_driver_wait_for_safe_load_annotation_key, get_upgrade_state_label_key,
  get_upgrade_skip_node_label_key, get_upgrade_requested_annotation_key,
  get_upgrade_initial_state_annotation_key,
}
use k8s_operator_libs.Interfaces.{Held, of_node, on_node}
use k8s_operator_libs.Client.{Client, reload}
use k8s_operator_libs.Client.Laws.{PollLaws, LabelLaws}
use k8s_operator_libs.System.{System}
use k8s_operator_libs.Provider.{
  new_node_upgrade_state_provider, annotation_is_synced, annotation_patch_of, state_is_synced,
  change_node_upgrade_state,
}
use k8s_operator_libs.Validation.{is_pod_ready, validate_pods}
use k8s_operator_libs.Validation.Ready.{IsRunningReady, validate_pods_all_ready}
use k8s_operator_libs.SafeDriverLoad.{waits_for_safe_load, unblock_loading}
use k8s_operator_libs.SafeDriverLoad.Unblocked.{unblock_loading_unblocks}
use k8s_operator_libs.StateManager.{NodeUpgradeState}
use k8s_operator_libs.StateManager.Nodes.{
  is_upgrade_requested, skip_node_upgrade, is_node_unschedulable,
}
use k8s_operator_libs.StateManager.Process.{start_upgrades, process_upgrade_required_node}
use k8s_operator_libs.StateManager.Slots.{is_cordoned}
use k8s_operator_libs.StateManager.Slots.Started.{NoTwice, started, started_within_slots}
use k8s_operator_libs.Drain.{run_drain_task}
use k8s_operator_libs.Manager.Background.{api_label}
use k8s_operator_libs.Manager.Goroutines.{failed_drain_not_restarted}
use k8s_operator_libs.Tests.Cluster.{
  Cluster, client, client-PollLaws, client-LabelLaws, driver, label, label_key,
}
use k8s_operator_libs.Tests.Witnesses.{
  cluster, system, manager, manager-ManagerWrites, driver_pod, node_b, node_c, at_node,
}
use k8s_operator_libs.Tests.Goroutines.{drain_b}

abbrev old_revision : ControllerRevision
old_revision = record { name = "driver-old"; revision = pos 1 }

abbrev new_revision : ControllerRevision
new_revision = record { name = "driver-new"; revision = pos 2 }

-- The newest of all, but of another daemon set.
abbrev other_revision : ControllerRevision
other_revision = record { name = "network-new"; revision = pos 3 }

abbrev revisions : List ControllerRevision
revisions = other_revision ∷ new_revision ∷ old_revision ∷ []

abbrev held_b : Held (System Cluster)
held_b = record { node = node_b; world = system }

abbrev pod_b : Pod
pod_b = driver_pod "b" "old"

b_validated :
    (validate_pods client
      (new_node_upgrade_state_provider client driver)
      driver
      (pod_b ∷ [])
      held_b).0
    ≡ ok true
unfolding validate_pods is_pod_ready ◌>>◌ new_node_upgrade_state_provider annotation_is_synced
    reload annotation_patch_of of_node has delete pure
b_validated = refl

validate_pods_all_ready_example : IsRunningReady pod_b
validate_pods_all_ready_example =
    validate_pods_all_ready client (new_node_upgrade_state_provider client driver) driver
      (pod_b ∷ []) held_b pod_b b_validated (Memᴰ.head refl)

-- A node whose driver waits.
abbrev waiting : Node
waiting = record node_b {
  annotations = (get_upgrade_driver_wait_for_safe_load_annotation_key driver, "true") ∷ [];
}

abbrev held_waiting : Held (System Cluster)
held_waiting = record {
  node = waiting;
  world = record system { api = record cluster { nodes = waiting ∷ [] } };
}

unblocked :
    (unblock_loading (new_node_upgrade_state_provider client driver) driver held_waiting).0 ≡ ok tt
unfolding unblock_loading ◌>>=◌ of_node when value_of
    get_upgrade_driver_wait_for_safe_load_annotation_key new_node_upgrade_state_provider ◌>>◌
    annotation_is_synced reload annotation_patch_of has delete
unblocked = refl

unblock_loading_unblocks_example :
    waits_for_safe_load driver
      (unblock_loading (new_node_upgrade_state_provider client driver) driver held_waiting).1.node
    ≡ false
unblock_loading_unblocks_example =
    unblock_loading_unblocks client client-PollLaws driver held_waiting unblocked

-- Two nodes for one slot; the second is cordoned already.
abbrev cordoned_c : NodeUpgradeState
cordoned_c = at_node (record node_c { unschedulable = true }) "old"

abbrev two_nodes : List NodeUpgradeState
two_nodes = at_node node_b "old" ∷ cordoned_c ∷ []

one_started : (start_upgrades manager two_nodes (pos 1) system).0 ≡ ok (negsuc 0)
unfolding start_upgrades fold_each ◌>>=◌ on_node process_upgrade_required_node of_node ◌>>◌ when
    is_upgrade_requested value_of skip_node_upgrade get_upgrade_state_label_key
    get_upgrade_skip_node_label_key new_manager new_node_upgrade_state_provider state_is_synced
    reload insert lookup pure gets is_node_unschedulable continue change_node_upgrade_state
    get_upgrade_requested_annotation_key ◌-ℤ◌ get_upgrade_initial_state_annotation_key
one_started = refl

nobody_asked :
    (nus : NodeUpgradeState) → Memᴰ nus two_nodes → is_upgrade_requested manager nus.node ≡ false
unfolding is_upgrade_requested value_of
nobody_asked nus (Memᴰ.head e) =
    subst (λ n. is_upgrade_requested manager n.node ≡ false) (sym e) refl
nobody_asked nus (Memᴰ.tail (Memᴰ.head e)) =
    subst (λ n. is_upgrade_requested manager n.node ≡ false) (sym e) refl
nobody_asked nus (Memᴰ.tail (Memᴰ.tail m)) = elim m [ ]

b_is_not_c : ◌≢◌ {A = String} "b" "c"
b_is_not_c e = let apart = ap (λ s. s == "b") e in cc

b_and_c_once : NoTwice ("b" ∷ "c" ∷ [])
b_and_c_once name = ground (arith, eq_iff "b" name, eq_iff "c" name, b_is_not_c)

started_within_slots_example :
    pos (
      started
        (api_label label (start_upgrades manager two_nodes (pos 1) system).1)
        ("b" ∷ "c" ∷ []))
    ≤ℤ (pos (started (api_label label system) ("b" ∷ "c" ∷ [])) +ℤ pos 1)
      +ℤ pos (count_if is_cordoned two_nodes)
started_within_slots_example =
    started_within_slots (api_label label) manager manager-ManagerWrites ("b" ∷ "c" ∷ []) two_nodes
      (pos 1) (negsuc 0) system b_and_c_once (omega arith) nobody_asked one_started

-- A cluster in which no drain and no deletion of pods succeeds, with a pod on every node.
abbrev pub stuck : Client (System Cluster)
stuck = record client {
  run_node_drain = λ helper name s. (err (Error.client_error "pods remain"), s);
  delete_or_evict_pods = λ helper pods s. (err (Error.client_error "pods remain"), s);
  list_pods = λ selector name s. (ok (driver_pod name "old" ∷ []), s);
}

pub stuck-PollLaws : PollLaws stuck
stuck-PollLaws = record {
  satisfied = client-PollLaws.satisfied;
  only_condition = client-PollLaws.only_condition;
}

pub stuck-LabelLaws : LabelLaws stuck (api_label label) label_key
stuck-LabelLaws = record {
  get-name = client-LabelLaws.get-name;
  get-label = client-LabelLaws.get-label;
  patch-name = client-LabelLaws.patch-name;
  patch-label = client-LabelLaws.patch-label;
  annotation_patch-label = client-LabelLaws.annotation_patch-label;
  annotation_removal-label = client-LabelLaws.annotation_removal-label;
  cordon-name = client-LabelLaws.cordon-name;
  cordon-label = client-LabelLaws.cordon-label;
  get_pods_for_deletion-label = client-LabelLaws.get_pods_for_deletion-label;
  delete_or_evict_pods-label = λ helper pods other s. refl;
  list_pods-label = λ selector name other s. refl;
  delete_pod-label = client-LabelLaws.delete_pod-label;
  list_controller_revisions-label = client-LabelLaws.list_controller_revisions-label;
  now-label = client-LabelLaws.now-label;
  run_node_drain-label = λ helper name other s. refl;
}

abbrev after_stuck : System Cluster
after_stuck = (run_drain_task stuck (new_node_upgrade_state_provider stuck driver) drain_b system).1

failed_drain_not_restarted_example :
    (label after_stuck.api "b" ≡ label cluster "b")
    ⊎ ((◌≡◌ {A = String} "b" "b") × (label after_stuck.api "b" ≡ "upgrade-failed"))
failed_drain_not_restarted_example =
    failed_drain_not_restarted stuck label driver stuck-PollLaws stuck-LabelLaws drain_b system "b"
      (λ w. refl)
