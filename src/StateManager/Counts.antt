-- ===== src/StateManager/Counts.antt =====
-- The counts of upgrade_state.go and the number of upgrades that may start. Counts are lengths of
-- slices, so Go's 64-bit ints hold them and the sums of them exactly.
pub mod Bounds
use k8s_operator_libs.Prelude.{
  ℕ, ◌+◌, Bool, true, false, not, ◌&&◌, List, [], ◌∷◌, length, if◌then◌else◌,
}
use k8s_operator_libs.Prelude.Int.{ℤ, pos, ◌+ℤ◌, ◌-ℤ◌, ltb_ℤ, leb_ℤ}
use k8s_operator_libs.Consts.{
  upgrade_state_unknown, upgrade_state_upgrade_required, upgrade_state_cordon_required,
  upgrade_state_wait_for_jobs_required, upgrade_state_pod_deletion_required,
  upgrade_state_drain_required, upgrade_state_pod_restart_required,
  upgrade_state_validation_required, upgrade_state_uncordon_required, upgrade_state_done,
  upgrade_state_failed,
}
use k8s_operator_libs.StringMap.{StringMap}
use k8s_operator_libs.StateManager.{NodeUpgradeState, ClusterUpgradeState, nodes_in}
use k8s_operator_libs.StateManager.Nodes.{is_node_unschedulable, is_node_condition_ready}

-- The inner loop of `GetCurrentUnavailableNodes`, on the count so far.
unfoldable pub count_unavailable : ℕ → List NodeUpgradeState → ℕ
count_unavailable n [] = n
count_unavailable n (nus ∷ rest) =
    count_unavailable
      (if is_node_unschedulable nus.node
        then n + 1
        else if not (is_node_condition_ready nus.node)
        then n + 1
        else n)
      rest

-- Its outer loop, over the groups of the map.
unfoldable pub count_unavailable_groups : ℕ → StringMap (List NodeUpgradeState) → ℕ
count_unavailable_groups n [] = n
count_unavailable_groups n ((_, l) ∷ groups) =
    count_unavailable_groups (count_unavailable n l) groups

unfoldable pub get_current_unavailable_nodes : ClusterUpgradeState → ℕ
unfolding count_unavailable_groups count_unavailable
get_current_unavailable_nodes c = count_unavailable_groups 0 c.node_states

unfoldable pub get_total_managed_nodes : ClusterUpgradeState → ℕ
get_total_managed_nodes c =
    length (nodes_in c upgrade_state_unknown)
    + length (nodes_in c upgrade_state_done)
    + length (nodes_in c upgrade_state_upgrade_required)
    + length (nodes_in c upgrade_state_cordon_required)
    + length (nodes_in c upgrade_state_wait_for_jobs_required)
    + length (nodes_in c upgrade_state_pod_deletion_required)
    + length (nodes_in c upgrade_state_failed)
    + length (nodes_in c upgrade_state_drain_required)
    + length (nodes_in c upgrade_state_pod_restart_required)
    + length (nodes_in c upgrade_state_uncordon_required)
    + length (nodes_in c upgrade_state_validation_required)

unfoldable pub get_upgrades_in_progress : ClusterUpgradeState → ℤ
unfolding get_total_managed_nodes
get_upgrades_in_progress c =
    pos (get_total_managed_nodes c)
    -ℤ pos (
        length (nodes_in c upgrade_state_unknown)
        + length (nodes_in c upgrade_state_done)
        + length (nodes_in c upgrade_state_upgrade_required))

unfoldable pub get_upgrades_done : ClusterUpgradeState → ℕ
get_upgrades_done c = length (nodes_in c upgrade_state_done)

unfoldable pub get_upgrades_failed : ClusterUpgradeState → ℕ
get_upgrades_failed c = length (nodes_in c upgrade_state_failed)

unfoldable pub get_upgrades_pending : ClusterUpgradeState → ℕ
get_upgrades_pending c = length (nodes_in c upgrade_state_upgrade_required)

abbrev is_zero : ℤ → Bool
is_zero a = leb_ℤ a (pos 0) && leb_ℤ (pos 0) a

-- `GetUpgradesAvailable`, with its three assignments to `upgradesAvailable` in order.
unfoldable pub get_upgrades_available : ClusterUpgradeState → ℤ → ℤ → ℤ
get_upgrades_available c max_parallel_upgrades max_unavailable =
    let upgrades_in_progress = get_upgrades_in_progress c in
    let total_nodes = pos (get_total_managed_nodes c) in
    let slots =
      if is_zero max_parallel_upgrades
      then pos (length (nodes_in c upgrade_state_upgrade_required))
      else max_parallel_upgrades -ℤ upgrades_in_progress in
    let current_unavailable_nodes =
      pos (get_current_unavailable_nodes c + length (nodes_in c upgrade_state_cordon_required)) in
    let limited = if ltb_ℤ max_unavailable slots then max_unavailable else slots in
    if leb_ℤ max_unavailable current_unavailable_nodes
    then pos 0
    else if ltb_ℤ max_unavailable total_nodes
        && ltb_ℤ max_unavailable (current_unavailable_nodes +ℤ limited)
    then max_unavailable -ℤ current_unavailable_nodes
    else limited
