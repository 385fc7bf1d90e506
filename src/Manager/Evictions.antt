-- ===== src/Manager/Evictions.antt =====
-- An eviction goroutine of pod_manager.go whose deletion of pods fails.
use k8s_operator_libs.Prelude.{
  ℕ, leb, ◌&&◌, String, ◌≡◌, ◌≢◌, arith, refl, sym, ◌∙◌, ◌⊎◌, Bool, true, false, not, List,
  count_if,
}
use k8s_operator_libs.Act.{
  ok, Act, attempt, is_ok, ok-injective, modify, ignore, continue, ◌>>◌, ◌>>=◌,
}
use k8s_operator_libs.Act.Follows.{
  Follows, Follows-bind, Follows-bind_of_Returns, Returns, Follows-if, Follows-attempt,
  Follows-ignore,
}
use k8s_operator_libs.Kube.{Pod}
use k8s_operator_libs.Consts.{
  get_upgrade_state_label_key, upgrade_state_failed, upgrade_state_drain_required,
}
use k8s_operator_libs.Interfaces.{Held, in_world}
use k8s_operator_libs.Interfaces.Contracts.{
  writes, named, Follows-on_node, Follows-in_world, Returns-in_world,
}
use k8s_operator_libs.Client.{Client, DrainHelper}
use k8s_operator_libs.Client.Laws.{PollLaws, LabelLaws}
use k8s_operator_libs.System.{System, EvictionTask}
use k8s_operator_libs.Provider.{new_node_upgrade_state_provider}
use k8s_operator_libs.Pods.{
  update_node_to_drain_or_failed, delete_pods, evict_listed, evict_pods, run_eviction_task,
}
use k8s_operator_libs.Manager.Background.{api_label}
use k8s_operator_libs.Manager.Goroutines.{
  clash, fall_back-Follows, list_pods-Follows, get_pods_for_deletion-Follows,
  delete_or_evict_pods-Follows,
}

-- Where a node goes whose pods were not deleted.
pub data FallsBack (drain_enabled : Bool) : String → Type 0 where
  to_drain : drain_enabled ≡ true → FallsBack drain_enabled upgrade_state_drain_required
  to_failed : drain_enabled ≡ false → FallsBack drain_enabled upgrade_state_failed

zero_of_test : (n : ℕ) → (leb n 0 && leb 0 n) ≡ true → n ≡ 0
zero_of_test n h = ground arith

module _ {K : Type 0} (client : Client (System K)) (label : K → String → String)
    (driver_name : String) (poll : PollLaws client)
    (laws : LabelLaws client (api_label label) (get_upgrade_state_label_key driver_name))
    (filter : Pod → Bool) (helper : DrainHelper) (drain_enabled : Bool) (name : String)
    (fails : (pods : List Pod) (w : System K)
      → is_ok (client.delete_or_evict_pods helper pods w).0 ≡ false)
    (listed : (pods : List Pod) (w : System K)
      → (client.list_pods "" name w).0 ≡ ok pods
      → count_if filter pods ≢ 0) where
  -- At most the node's own label is written, and only to fall back.
  abbrev OnlyFallsBack : Act (Held (System K)) Unit → Type 0
  OnlyFallsBack =
      Follows (
        named name (writes (api_label label) λ n state. (n ≡ name) × FallsBack drain_enabled state))

  falling_back : OnlyFallsBack (
      update_node_to_drain_or_failed
        (new_node_upgrade_state_provider client driver_name)
        drain_enabled)
  falling_back =
      fall_back-Follows client label driver_name poll laws _ name drain_enabled
        (λ e. (refl, FallsBack.to_drain e)) (λ e. (refl, FallsBack.to_failed e))

  failing_deletion-Returns :
      (pods : List Pod)
      → Returns
          (λ result. result ≡ false)
          (attempt (in_world (client.delete_or_evict_pods helper pods)))
  unfolding attempt in_world
  failing_deletion-Returns pods = record {
    at = λ h result e. sym (ok-injective e) ∙ fails pods h.world;
  }

  delete_pods-Follows :
      (pods : List Pod)
      → OnlyFallsBack (
          delete_pods client
            (new_node_upgrade_state_provider client driver_name)
            filter
            helper
            drain_enabled
            pods)
  unfolding delete_pods
  delete_pods-Follows pods =
      Follows-bind_of_Returns (λ result. result ≡ false) _ _ (failing_deletion-Returns pods)
        (Follows-attempt _ (
          Follows-in_world name _
            (delete_or_evict_pods-Follows client label driver_name poll laws _ helper pods)))
        λ result not_done.
          Follows-if (not result) _ _ (λ _. falling_back)
            (λ done. elim (clash result not_done done) [ ])

  evict_listed-Follows :
      (pods : List Pod)
      → count_if filter pods ≢ 0
      → OnlyFallsBack (
          evict_listed client
            (new_node_upgrade_state_provider client driver_name)
            filter
            helper
            drain_enabled
            name
            pods)
  unfolding evict_listed
  evict_listed-Follows pods some_listed =
      Follows-if _ _ _ (λ empty. absurd (some_listed (zero_of_test _ empty)))
        λ _.
          Follows-bind _ _
            (Follows-in_world name _
              (get_pods_for_deletion-Follows client label driver_name poll laws _ helper name))
            λ deletable. Follows-if _ _ _ (λ _. falling_back) (λ _. delete_pods-Follows deletable)

  evict_pods-Follows : OnlyFallsBack (
      evict_pods client
        (new_node_upgrade_state_provider client driver_name)
        filter
        helper
        drain_enabled
        name)
  unfolding evict_pods
  evict_pods-Follows = Follows-ignore _ (
      Follows-bind_of_Returns (λ pods. count_if filter pods ≢ 0) _ _
        (Returns-in_world (client.list_pods "" name) (record { at = λ w pods e. listed pods w e }))
        (Follows-in_world name _ (list_pods-Follows client label driver_name poll laws _ "" name))
        evict_listed-Follows)

-- With clients that keep the laws on labels: where every deletion of pods fails for the task's helper,
-- and every list of the pods on its node has a pod that the filter names: the eviction goroutine gives
-- no label but, to its own node, "drain-required" where the drain is enabled and "upgrade-failed" where
-- it is not.
pub failed_eviction_not_restarted :
    {K : Type 0} (client : Client (System K)) (label : K → String → String) (driver_name : String)
    (poll : PollLaws client)
    (laws : LabelLaws client (api_label label) (get_upgrade_state_label_key driver_name))
    (filter : Pod → Bool) (task : EvictionTask) (s : System K) (name : String)
    → ((pods : List Pod) (w : System K)
        → is_ok (client.delete_or_evict_pods task.helper pods w).0 ≡ false)
    → ((pods : List Pod) (w : System K)
        → (client.list_pods "" task.node.name w).0 ≡ ok pods
        → count_if filter pods ≢ 0)
    → let s' =
        (run_eviction_task client
          (new_node_upgrade_state_provider client driver_name)
          filter
          task
          s).1 in
      (label s'.api name ≡ label s.api name)
      ⊎ ((name ≡ task.node.name) × FallsBack task.drain_enabled (label s'.api name))
unfolding run_eviction_task writes ignore modify ◌>>◌ ◌>>=◌ continue
failed_eviction_not_restarted client label driver_name poll laws filter task s name fails listed =
    (Follows-on_node task.node _ (
        evict_pods-Follows client label driver_name poll laws filter task.helper task.drain_enabled
          task.node.name fails listed)).at
      s name
