-- ===== src/SafeDriverLoad/Unblocked.antt =====
-- After a call that unblocks the load of the driver.
use k8s_operator_libs.Prelude.{String, ◌≡◌, sym, Bool, true, false, arith, eq_iff}
use k8s_operator_libs.Act.{ok, when}
use k8s_operator_libs.Act.Triple.{Triple, Triple-bind, Triple-gets, Triple-pure, Triple-weaken}
use k8s_operator_libs.StringMap.{value_of, value_of-missing}
use k8s_operator_libs.Kube.{Node}
use k8s_operator_libs.Consts.{null_string, get_upgrade_driver_wait_for_safe_load_annotation_key}
use k8s_operator_libs.Interfaces.{Held, of_node, NodeUpgradeStateProvider}
use k8s_operator_libs.Client.{Client}
use k8s_operator_libs.Client.Laws.{PollLaws}
use k8s_operator_libs.Provider.{annotation_matches, new_node_upgrade_state_provider}
use k8s_operator_libs.Provider.ReadBack.{Any, change_node_upgrade_annotation-Triple}
use k8s_operator_libs.SafeDriverLoad.{waits_for_safe_load, unblock_loading}

removed-not_waiting :
    (driver_name : String) (node : Node)
    → annotation_matches
        (get_upgrade_driver_wait_for_safe_load_annotation_key driver_name)
        null_string
        node
      ≡ true
    → waits_for_safe_load driver_name node ≡ false
removed-not_waiting driver_name node e =
    let key = get_upgrade_driver_wait_for_safe_load_annotation_key driver_name in
    let nothing = value_of-missing key node.annotations in
    ground (arith, eq_iff (value_of key node.annotations) "")

module _ {W : Type 0} (client : Client W) (poll : PollLaws client) (driver_name : String) where
  abbrev provider : NodeUpgradeStateProvider W
  provider = new_node_upgrade_state_provider client driver_name

  if_waiting :
      (waiting : Bool)
      → Triple
          (λ h. Any h × (waiting ≡ waits_for_safe_load driver_name h.node))
          (when waiting (
            provider.change_node_upgrade_annotation
              (get_upgrade_driver_wait_for_safe_load_annotation_key driver_name)
              null_string))
          (λ _ h. waits_for_safe_load driver_name h.node ≡ false)
  unfolding when new_node_upgrade_state_provider
  if_waiting true =
      Triple-weaken (λ _ _. tt) (λ _ h matches. removed-not_waiting driver_name h.node matches)
        (change_node_upgrade_annotation-Triple client poll
          (get_upgrade_driver_wait_for_safe_load_annotation_key driver_name) null_string)
  if_waiting false = Triple-pure tt (λ h p. sym p.1)

  unblock_loading-Triple :
      Triple Any
        (unblock_loading provider driver_name)
        (λ _ h. waits_for_safe_load driver_name h.node ≡ false)
  unfolding unblock_loading of_node
  unblock_loading-Triple =
      Triple-bind _ _ _ (Triple-gets λ h. waits_for_safe_load driver_name h.node) if_waiting

  -- Where a poll succeeds only when its condition has just held: when `UnblockLoading` returns no
  -- error, the driver on the node no longer waits for a safe load.
  pub unblock_loading_unblocks :
      (h : Held W)
      → (unblock_loading (new_node_upgrade_state_provider client driver_name) driver_name h).0
        ≡ ok tt
      → waits_for_safe_load driver_name
          (unblock_loading
            (new_node_upgrade_state_provider client driver_name)
            driver_name
            h).1.node
        ≡ false
  unblock_loading_unblocks h e = unblock_loading-Triple.at h tt tt e
