-- ===== src/StateManager/Counts/Bounds.antt =====
-- The counts against independent descriptions, and the limits on the number of upgrade slots.
use k8s_operator_libs.Prelude.{
  ℕ, ◌+◌, ◌≡◌, ◌≢◌, refl, sym, ap, Bool, not, ◌||◌, ◌&&◌, ◌==◌, is_empty, select, List, [], ◌∷◌,
  ◌++◌, arith, length, count_if, count_if-append, if◌then◌else◌,
}
use k8s_operator_libs.Prelude.Int.{ℤ, pos, ◌+ℤ◌, ◌-ℤ◌, ◌≤ℤ◌, leb_ℤ, ltb_ℤ, int_laws}
use k8s_operator_libs.Consts.{upgrade_state_cordon_required}
use k8s_operator_libs.StringMap.{StringMap}
use k8s_operator_libs.StateManager.{NodeUpgradeState, ClusterUpgradeState, nodes_in}
use k8s_operator_libs.StateManager.Nodes.{
  is_node_unschedulable, is_node_condition_ready, all_conditions_ready,
}
use k8s_operator_libs.Kube.{NodeCondition}
use k8s_operator_libs.StateManager.Counts.{
  count_unavailable, count_unavailable_groups, get_current_unavailable_nodes,
  get_total_managed_nodes, get_upgrades_in_progress, get_upgrades_pending, get_upgrades_available,
}

-- A condition that says that the node is not ready.
abbrev pub is_not_ready : NodeCondition → Bool
is_not_ready condition = condition.kind == "Ready" && not (condition.status == "True")

-- The node is cordoned, or one of its conditions says that it is not ready.
abbrev pub is_unavailable : NodeUpgradeState → Bool
is_unavailable nus =
    nus.node.unschedulable || not (is_empty (select is_not_ready nus.node.conditions))

all_conditions_ready-is_empty :
    (conditions : List NodeCondition)
    → all_conditions_ready conditions ≡ is_empty (select is_not_ready conditions)
unfolding all_conditions_ready
all_conditions_ready-is_empty [] = refl
all_conditions_ready-is_empty (c ∷ rest) = ground (arith, all_conditions_ready-is_empty rest)

-- What the loop asks of a node.
asked-is_unavailable :
    (nus : NodeUpgradeState)
    → (is_node_unschedulable nus.node || not (is_node_condition_ready nus.node))
      ≡ is_unavailable nus
unfolding is_node_unschedulable is_node_condition_ready
asked-is_unavailable nus =
    ap (λ ready. nus.node.unschedulable || not ready)
      (all_conditions_ready-is_empty nus.node.conditions)

-- Every node of the snapshot, group after group.
abbrev pub all_nodes : StringMap (List NodeUpgradeState) → List NodeUpgradeState
all_nodes [] = []
all_nodes ((_, l) ∷ groups) = l ++ all_nodes groups

count_unavailable-eq-count_if :
    (n : ℕ) (l : List NodeUpgradeState) → count_unavailable n l ≡ n + count_if is_unavailable l
unfolding count_unavailable
count_unavailable-eq-count_if n [] = omega arith
count_unavailable-eq-count_if n (nus ∷ rest) = ground (
  arith,
  asked-is_unavailable nus,
  count_unavailable-eq-count_if n rest,
  count_unavailable-eq-count_if (n + 1) rest,
)

count_unavailable_groups-eq-count_if :
    (n : ℕ) (groups : StringMap (List NodeUpgradeState))
    → count_unavailable_groups n groups ≡ n + count_if is_unavailable (all_nodes groups)
unfolding count_unavailable_groups
count_unavailable_groups-eq-count_if n [] = omega arith
count_unavailable_groups-eq-count_if n ((s, l) ∷ groups) = omega (
  arith,
  count_unavailable_groups-eq-count_if (count_unavailable n l) groups,
  count_unavailable-eq-count_if n l,
  count_if-append is_unavailable l (all_nodes groups),
)

-- The number that `GetCurrentUnavailableNodes` returns is that of the entries of the snapshot, in
-- whatever group, whose node is cordoned or has a condition "Ready" that is not "True".
pub get_current_unavailable_nodes-eq-count_if :
    (c : ClusterUpgradeState)
    → get_current_unavailable_nodes c ≡ count_if is_unavailable (all_nodes c.node_states)
unfolding get_current_unavailable_nodes
get_current_unavailable_nodes-eq-count_if c =
    omega (arith, count_unavailable_groups-eq-count_if 0 c.node_states)

-- Unavailable nodes, with the nodes that are about to be cordoned.
abbrev pub unavailable_or_cordoning : ClusterUpgradeState → ℤ
unavailable_or_cordoning c =
    pos (get_current_unavailable_nodes c + length (nodes_in c upgrade_state_cordon_required))

abbrev pub min_ℤ : ℤ → ℤ → ℤ
min_ℤ a b = if leb_ℤ a b then a else b

-- The slots that `maxParallelUpgrades` leaves, where 0 means no limit.
abbrev pub parallel_slots : ClusterUpgradeState → ℤ → ℤ
parallel_slots c (pos ℕ.zero) = pos (get_upgrades_pending c)
parallel_slots c p = p -ℤ get_upgrades_in_progress c

-- While fewer nodes are unavailable than `maxUnavailable` allows, the slots are the smaller of what
-- `maxParallelUpgrades` leaves and what `maxUnavailable` leaves; the nodes that are unavailable
-- already count against `maxUnavailable` exactly if it is below the number of managed nodes.
pub get_upgrades_available-eq-min :
    (c : ClusterUpgradeState) (max_parallel max_unavailable : ℤ)
    → unavailable_or_cordoning c +ℤ pos 1 ≤ℤ max_unavailable
    → get_upgrades_available c max_parallel max_unavailable
      ≡ min_ℤ (parallel_slots c max_parallel) (
          if ltb_ℤ max_unavailable (pos (get_total_managed_nodes c))
          then max_unavailable -ℤ unavailable_or_cordoning c
          else max_unavailable)
unfolding get_upgrades_available get_upgrades_pending ◌+ℤ◌ ◌-ℤ◌
get_upgrades_available-eq-min c (pos ℕ.zero) u h = ground arith
get_upgrades_available-eq-min c _ u h = ground arith

-- The entries in the groups between the start of an upgrade and its end, failed ones included.
abbrev pub underway : ClusterUpgradeState → ℕ
underway c =
    length (nodes_in c "cordon-required")
    + length (nodes_in c "wait-for-jobs-required")
    + length (nodes_in c "pod-deletion-required")
    + length (nodes_in c "drain-required")
    + length (nodes_in c "pod-restart-required")
    + length (nodes_in c "validation-required")
    + length (nodes_in c "uncordon-required")
    + length (nodes_in c "upgrade-failed")

get_upgrades_in_progress-underway :
    (c : ClusterUpgradeState) → get_upgrades_in_progress c ≡ pos (underway c)
unfolding get_upgrades_in_progress get_total_managed_nodes ◌-ℤ◌
get_upgrades_in_progress-underway c = ground arith

-- When some slot is free and `maxParallelUpgrades` is not 0, the entries of the snapshot in the eight
-- groups between the start of an upgrade and its end and the slots together stay within
-- `maxParallelUpgrades`.
pub slots_within_parallel :
    (c : ClusterUpgradeState) (max_parallel max_unavailable : ℤ)
    → max_parallel ≢ pos 0
    → pos 1 ≤ℤ get_upgrades_available c max_parallel max_unavailable
    → pos (underway c) +ℤ get_upgrades_available c max_parallel max_unavailable ≤ℤ max_parallel
unfolding get_upgrades_available
slots_within_parallel c p u ne h = rw (sym (get_upgrades_in_progress-underway c)) (grind int_laws)

-- When some slot is free and `maxUnavailable` is below the number of managed nodes, the unavailable
-- nodes, the nodes about to be cordoned and the slots together stay within `maxUnavailable`.
pub unavailable_within_limit :
    (c : ClusterUpgradeState) (max_parallel max_unavailable : ℤ)
    → max_unavailable +ℤ pos 1 ≤ℤ pos (get_total_managed_nodes c)
    → pos 1 ≤ℤ get_upgrades_available c max_parallel max_unavailable
    → unavailable_or_cordoning c +ℤ get_upgrades_available c max_parallel max_unavailable
      ≤ℤ max_unavailable
unfolding get_upgrades_available
unavailable_within_limit c p u few h = grind int_laws
