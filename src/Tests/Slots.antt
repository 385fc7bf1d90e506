-- ===== src/Tests/Slots.antt =====
-- The number of upgrade slots at concrete snapshots.
use k8s_operator_libs.Prelude.{◌≡◌, refl, arith}
use k8s_operator_libs.Prelude.Int.{pos, ◌+ℤ◌, ◌-ℤ◌, ◌≤ℤ◌, ltb_ℤ}
use k8s_operator_libs.Prelude.{count_if, if◌then◌else◌}
use k8s_operator_libs.StateManager.{nodes_in}
use k8s_operator_libs.StateManager.Nodes.{is_node_unschedulable, is_node_condition_ready}
use k8s_operator_libs.StateManager.Counts.{
  get_upgrades_available, get_upgrades_in_progress, get_current_unavailable_nodes,
  get_total_managed_nodes,
}
use k8s_operator_libs.StateManager.Counts.Bounds.{
  unavailable_or_cordoning, get_upgrades_available-eq-min, slots_within_parallel,
  unavailable_within_limit, is_unavailable, all_nodes, get_current_unavailable_nodes-eq-count_if,
  min_ℤ, parallel_slots, underway,
}
use k8s_operator_libs.Tests.Witnesses.{snapshot}

-- One of three nodes is about to be cordoned; two may be upgraded in parallel, and two may be
-- unavailable.
slots_computed : get_upgrades_available snapshot (pos 2) (pos 2) ≡ pos 1
unfolding get_upgrades_available get_upgrades_in_progress ◌+ℤ◌ ◌-ℤ◌ get_current_unavailable_nodes
    get_total_managed_nodes is_node_unschedulable is_node_condition_ready nodes_in
slots_computed = refl

some_slot : pos 1 ≤ℤ get_upgrades_available snapshot (pos 2) (pos 2)
some_slot = rw slots_computed (omega arith)

few_allowed : pos 2 +ℤ pos 1 ≤ℤ pos (get_total_managed_nodes snapshot)
unfolding ◌+ℤ◌ get_total_managed_nodes nodes_in
few_allowed = omega arith

below_limit : unavailable_or_cordoning snapshot +ℤ pos 1 ≤ℤ pos 2
unfolding ◌+ℤ◌ get_current_unavailable_nodes is_node_unschedulable is_node_condition_ready nodes_in
below_limit = omega arith

slots_within_parallel_example :
    pos (underway snapshot) +ℤ get_upgrades_available snapshot (pos 2) (pos 2) ≤ℤ pos 2
slots_within_parallel_example = slots_within_parallel snapshot (pos 2) (pos 2) (λ e. cc) some_slot

unavailable_within_limit_example :
    unavailable_or_cordoning snapshot +ℤ get_upgrades_available snapshot (pos 2) (pos 2) ≤ℤ pos 2
unavailable_within_limit_example =
    unavailable_within_limit snapshot (pos 2) (pos 2) few_allowed some_slot

get_upgrades_available-eq-min_example :
    get_upgrades_available snapshot (pos 2) (pos 2)
    ≡ min_ℤ (parallel_slots snapshot (pos 2)) (
        if ltb_ℤ (pos 2) (pos (get_total_managed_nodes snapshot))
        then pos 2 -ℤ unavailable_or_cordoning snapshot
        else pos 2)
get_upgrades_available-eq-min_example =
    get_upgrades_available-eq-min snapshot (pos 2) (pos 2) below_limit

get_current_unavailable_nodes-eq-count_if_example :
    get_current_unavailable_nodes snapshot
    ≡ count_if is_unavailable (all_nodes snapshot.node_states)
get_current_unavailable_nodes-eq-count_if_example =
    get_current_unavailable_nodes-eq-count_if snapshot
