-- ===== src/Manager/Goroutines.antt =====
-- The state labels that the goroutines of the drain manager and of the pod manager write.
use k8s_operator_libs.Prelude.{not, sym, ◌∙◌, String, ◌≡◌, refl, ◌⊎◌, Bool, true, false, List}
use k8s_operator_libs.Act.{attempt, is_ok, ok-injective, modify, ignore, continue, ◌>>◌, ◌>>=◌}
use k8s_operator_libs.Act.Follows.{
  Follows-bind, Follows-bind_of_Returns, Returns, Follows-if, Preorder, Follows, follows_rules,
  Follows-attempt, Follows-ignore,
}
use k8s_operator_libs.Kube.{Pod}
use k8s_operator_libs.Consts.{
  get_upgrade_state_label_key, upgrade_state_failed, upgrade_state_pod_restart_required,
  upgrade_state_drain_required,
}
use k8s_operator_libs.Interfaces.Contracts.{
  writes, named, ProviderWrites, Follows-on_node, Follows-in_world,
}
use k8s_operator_libs.Client.{Client, DrainHelper}
use k8s_operator_libs.Client.Laws.{PollLaws, LabelLaws}
use k8s_operator_libs.System.{System, DrainTask, EvictionTask}
use k8s_operator_libs.Provider.{new_node_upgrade_state_provider}
use k8s_operator_libs.Provider.Labels.{provider-ProviderWrites}
use k8s_operator_libs.Drain.{drain_node, run_drain_task}
use k8s_operator_libs.Pods.{
  update_node_to_drain_or_failed, delete_pods, evict_listed, evict_pods, run_eviction_task,
}
use k8s_operator_libs.Manager.Background.{api_label}
use k8s_operator_libs.Manager.Labels.{Follows_of_KeepsLabels, cordon-Follows}
use k8s_operator_libs.Interfaces.{NodeUpgradeStateProvider, in_world}

-- A drain ends with the restart of the driver pod, or the upgrade has failed.
pub data DrainOutcome (task : DrainTask) : String → String → Type 0 where
  drained : DrainOutcome task task.node.name upgrade_state_pod_restart_required
  not_drained : DrainOutcome task task.node.name upgrade_state_failed

-- An eviction ends with the restart of the driver pod, or it falls back to a drain if that is enabled,
-- or the upgrade has failed.
pub data EvictionOutcome (task : EvictionTask) : String → String → Type 0 where
  evicted : EvictionOutcome task task.node.name upgrade_state_pod_restart_required
  fall_back :
      task.drain_enabled ≡ true → EvictionOutcome task task.node.name upgrade_state_drain_required
  not_evicted :
      task.drain_enabled ≡ false → EvictionOutcome task task.node.name upgrade_state_failed

pub clash : (b : Bool) → b ≡ false → not b ≡ false → ⊥
clash true e k = cc
clash false e k = cc

module _ {K : Type 0} (client : Client (System K)) (label : K → String → String)
    (driver_name : String) (poll : PollLaws client)
    (laws : LabelLaws client (api_label label) (get_upgrade_state_label_key driver_name)) where
  abbrev pub provider : NodeUpgradeStateProvider (System K)
  provider = new_node_upgrade_state_provider client driver_name

  module _ (P : String → String → Type 0) where
    abbrev pub observed : Preorder (System K)
    observed = writes (api_label label) P

    provided : ProviderWrites (api_label label) provider
    provided = provider-ProviderWrites client (api_label label) driver_name poll laws

    pub set_state-Follows :
        (name state : String)
        → P name state
        → Follows (named name observed) (provider.change_node_upgrade_state state)
    set_state-Follows = provided.change_state P

    cordon_node-Follows :
        (name : String) → Follows (named name observed) (client.run_cordon_or_uncordon true)
    cordon_node-Follows name =
        cordon-Follows client (api_label label) _ laws provider provided P name true

    run_node_drain-Follows :
        (helper : DrainHelper) (name : String)
        → Follows observed (client.run_node_drain helper name)
    run_node_drain-Follows helper name =
        Follows_of_KeepsLabels P _ (laws.run_node_drain-label helper name)

    pub list_pods-Follows :
        (selector name : String) → Follows observed (client.list_pods selector name)
    list_pods-Follows selector name =
        Follows_of_KeepsLabels P _ (laws.list_pods-label selector name)

    pub get_pods_for_deletion-Follows :
        (helper : DrainHelper) (name : String)
        → Follows observed (client.get_pods_for_deletion helper name)
    get_pods_for_deletion-Follows helper name =
        Follows_of_KeepsLabels P _ (laws.get_pods_for_deletion-label helper name)

    pub delete_or_evict_pods-Follows :
        (helper : DrainHelper) (pods : List Pod)
        → Follows observed (client.delete_or_evict_pods helper pods)
    delete_or_evict_pods-Follows helper pods =
        Follows_of_KeepsLabels P _ (laws.delete_or_evict_pods-label helper pods)

    drain_node-Follows :
        (helper : DrainHelper) (name : String)
        → P name upgrade_state_failed
        → P name upgrade_state_pod_restart_required
        → Follows (named name observed) (drain_node client provider helper name)
    unfolding drain_node
    drain_node-Follows helper name failed restarted =
        search
          (
            follows_rules, Follows-attempt, Follows-in_world, set_state-Follows,
            cordon_node-Follows, run_node_drain-Follows,
          )
          depth 15

    failing_drain-Returns :
        (helper : DrainHelper) (name : String)
        → ((w : System K) → is_ok (client.run_node_drain helper name w).0 ≡ false)
        → Returns
            (λ result. result ≡ false)
            (attempt (in_world (client.run_node_drain helper name)))
    unfolding attempt in_world
    failing_drain-Returns helper name fails = record {
      at = λ h result e. sym (ok-injective e) ∙ fails h.world;
    }

    failing_drain-Follows :
        (helper : DrainHelper) (name : String)
        → ((w : System K) → is_ok (client.run_node_drain helper name w).0 ≡ false)
        → P name upgrade_state_failed
        → Follows (named name observed) (drain_node client provider helper name)
    unfolding drain_node
    failing_drain-Follows helper name fails failed =
        let failing = Follows-ignore _ (set_state-Follows name _ failed) in
        Follows-bind _ _ (Follows-attempt _ (cordon_node-Follows name)) λ cordoned.
          Follows-if (not cordoned) _ _ (λ _. failing)
            λ _.
              Follows-bind_of_Returns (λ result. result ≡ false) _ _
                (failing_drain-Returns helper name fails)
                (Follows-attempt _ (Follows-in_world name _ (run_node_drain-Follows helper name)))
                (λ result not_done.
                  Follows-if (not result) _ _ (λ _. failing)
                    (λ done. elim (clash result not_done done) [ ]))

    pub fall_back-Follows :
        (name : String) (drain_enabled : Bool)
        → (drain_enabled ≡ true → P name upgrade_state_drain_required)
        → (drain_enabled ≡ false → P name upgrade_state_failed)
        → Follows (named name observed) (update_node_to_drain_or_failed provider drain_enabled)
    unfolding update_node_to_drain_or_failed
    fall_back-Follows name true drain fail =
        Follows-ignore _ (set_state-Follows name _ (drain refl))
    fall_back-Follows name false drain fail =
        Follows-ignore _ (set_state-Follows name _ (fail refl))

    evict_pods-Follows :
        (filter : Pod → Bool) (helper : DrainHelper) (drain_enabled : Bool) (name : String)
        → P name upgrade_state_pod_restart_required
        → (drain_enabled ≡ true → P name upgrade_state_drain_required)
        → (drain_enabled ≡ false → P name upgrade_state_failed)
        → Follows
            (named name observed)
            (evict_pods client provider filter helper drain_enabled name)
    unfolding evict_pods evict_listed delete_pods
    evict_pods-Follows filter helper drain_enabled name restarted drain fail =
        let falling_back = fall_back-Follows name drain_enabled drain fail in
        search
          (
            follows_rules, Follows-attempt, Follows-in_world, set_state-Follows, list_pods-Follows,
            get_pods_for_deletion-Follows, delete_or_evict_pods-Follows,
          )
          depth 20

  -- With clients that keep the laws on labels, after a drain goroutine has ended: every state label
  -- is as before, or it is that of the task's node and "pod-restart-required" or "upgrade-failed".
  pub run_drain_task-DrainOutcome :
      (task : DrainTask) (s : System K) (name : String)
      → let s' = (run_drain_task client provider task s).1 in
        (label s'.api name ≡ label s.api name) ⊎ DrainOutcome task name (label s'.api name)
  unfolding run_drain_task writes ignore modify ◌>>◌ ◌>>=◌ continue
  run_drain_task-DrainOutcome task s name =
      (Follows-on_node task.node _ (
          drain_node-Follows (DrainOutcome task) task.helper task.node.name not_drained drained)).at
        s name

  -- With clients that keep the laws on labels, after an eviction goroutine has ended: every state
  -- label is as before, or it is that of the task's node and "pod-restart-required", or
  -- "drain-required" where the drain is enabled, or "upgrade-failed" where it is not.
  pub run_eviction_task-EvictionOutcome :
      (filter : Pod → Bool) (task : EvictionTask) (s : System K) (name : String)
      → let s' = (run_eviction_task client provider filter task s).1 in
        (label s'.api name ≡ label s.api name) ⊎ EvictionOutcome task name (label s'.api name)
  unfolding run_eviction_task writes ignore modify ◌>>◌ ◌>>=◌ continue
  run_eviction_task-EvictionOutcome filter task s name =
      (Follows-on_node task.node _ (
          evict_pods-Follows (EvictionOutcome task) filter task.helper task.drain_enabled
            task.node.name evicted fall_back not_evicted)).at
        s name

  -- With clients that keep the laws on labels: where the drain of a node fails in every state of
  -- the world, its drain goroutine gives no label but "upgrade-failed", to its own node: the driver
  -- pod of a node that is not drained is not restarted.
  pub failed_drain_not_restarted :
      (task : DrainTask) (s : System K) (name : String)
      → ((w : System K) → is_ok (client.run_node_drain task.helper task.node.name w).0 ≡ false)
      → let s' = (run_drain_task client provider task s).1 in
        (label s'.api name ≡ label s.api name)
        ⊎ ((name ≡ task.node.name) × (label s'.api name ≡ upgrade_state_failed))
  unfolding run_drain_task writes ignore modify ◌>>◌ ◌>>=◌ continue
  failed_drain_not_restarted task s name fails =
      (Follows-on_node task.node _ (
          failing_drain-Follows (λ n state. (n ≡ task.node.name) × (state ≡ upgrade_state_failed))
            task.helper task.node.name fails (refl, refl))).at
        s name
