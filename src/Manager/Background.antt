-- ===== src/Manager/Background.antt =====
-- What the managers that start tasks write, and the parts of the tasks that run at once.
use k8s_operator_libs.Prelude.{
  String, ◌≡◌, refl, ap, inl, Bool, not, is_empty, Option, none, some, List, Memᴰ,
}
use k8s_operator_libs.Prelude.Int.{ℤ}
use k8s_operator_libs.Act.{Error, modify}
use k8s_operator_libs.Act.Follows.{
  Preorder, Follows, follows_rules, Follows-pure, Follows-raise, Follows-for_each, Follows-if,
  Follows-bind, Follows-modify, Follows-lift, Follows-wrap_error, Follows-when, Follows-gets,
}
use k8s_operator_libs.Kube.{Node, Pod, DaemonSet}
use k8s_operator_libs.Api.{DrainSpec, PodDeletionSpec, WaitForCompletionSpec}
use k8s_operator_libs.Consts.{upgrade_state_pod_deletion_required}
use k8s_operator_libs.Interfaces.{NodeUpgradeStateProvider, PodManagerConfig, DrainConfiguration}
use k8s_operator_libs.Interfaces.Contracts.{writes, named, Follows-on_node, ProviderWrites}
use k8s_operator_libs.Client.{Client, DrainHelper}
use k8s_operator_libs.Client.Laws.{LabelLaws}
use k8s_operator_libs.System.{System}
use k8s_operator_libs.Drain
use k8s_operator_libs.Pods
use k8s_operator_libs.Pods.Revision.{get_daemonset_controller_revision_hash}
use k8s_operator_libs.Manager.Labels.{
  Follows_of_KeepsLabels, change_annotation-Follows, change_state-Follows, list_pods-Follows,
  handle_timeout-Follows,
}

-- The labels at the API server; the managers' own sets and tasks are not part of them.
abbrev pub api_label : {K : Type 0} → (K → String → String) → System K → String → String
api_label label s = label s.api

module _ {K : Type 0} (label : K → String → String) (P : String → String → Type 0) where
  abbrev observed : Preorder (System K)
  observed = writes (api_label label) P

  same_api_Follows :
      (f : System K → System K) → ((s : System K) → (f s).api ≡ s.api) → Follows observed (modify f)
  unfolding writes
  same_api_Follows f same =
      Follows-modify f (λ s name. inl (ap (λ (api : K). label api name) (same s)))

  drain_schedule_node-Follows :
      (helper : DrainHelper) (node : Node) → Follows observed (Drain.schedule_node helper node)
  unfolding Drain.schedule_node
  drain_schedule_node-Follows helper node =
      Follows-bind _ _ (Follows-gets _)
        (λ draining. Follows-when _ _ (λ _. same_api_Follows _ (λ s. refl)))

  drain_schedule_with-Follows :
      (spec : Option DrainSpec) (nodes : List Node)
      → Follows observed (Drain.schedule_with spec nodes)
  unfolding Drain.schedule_with
  drain_schedule_with-Follows none nodes = Follows-raise _
  drain_schedule_with-Follows (some spec) nodes =
      Follows-if (not spec.enable) _ _ (λ _. Follows-pure tt)
        (λ _.
          Follows-for_each nodes (Drain.schedule_node (Drain.drain_helper_of spec))
            (λ node _. drain_schedule_node-Follows (Drain.drain_helper_of spec) node))

  pub schedule_nodes_drain-Follows :
      (config : DrainConfiguration) → Follows observed (Drain.schedule_nodes_drain config)
  unfolding Drain.schedule_nodes_drain
  schedule_nodes_drain-Follows config =
      Follows-if _ _ _ (λ _. Follows-pure tt)
        (λ _. drain_schedule_with-Follows config.spec config.nodes)

  eviction_schedule_node-Follows :
      (helper : DrainHelper) (drain_enabled : Bool) (node : Node)
      → Follows observed (Pods.schedule_node helper drain_enabled node)
  unfolding Pods.schedule_node
  eviction_schedule_node-Follows helper drain_enabled node =
      Follows-bind _ _ (Follows-gets _)
        (λ in_progress. Follows-when _ _ (λ _. same_api_Follows _ (λ s. refl)))

  eviction_schedule_with-Follows :
      (filter : Pod → Bool) (spec : Option PodDeletionSpec) (drain_enabled : Bool)
      (nodes : List Node)
      → Follows observed (Pods.schedule_with filter spec drain_enabled nodes)
  unfolding Pods.schedule_with
  eviction_schedule_with-Follows filter none drain_enabled nodes = Follows-raise _
  eviction_schedule_with-Follows filter (some spec) drain_enabled nodes =
      Follows-for_each _ _ (λ node _. eviction_schedule_node-Follows _ drain_enabled node)

  pub schedule_pod_eviction-Follows :
      (filter : Pod → Bool) (config : PodManagerConfig)
      → Follows observed (Pods.schedule_pod_eviction filter config)
  unfolding Pods.schedule_pod_eviction
  schedule_pod_eviction-Follows filter config =
      Follows-if _ _ _ (λ _. Follows-pure tt)
        (λ _.
          eviction_schedule_with-Follows filter config.deletion_spec config.drain_enabled
            config.nodes)

module _ {W : Type 0} (client : Client W) (state_label : W → String → String) (label_key : String)
    (laws : LabelLaws client state_label label_key) (provider : NodeUpgradeStateProvider W)
    (provided : ProviderWrites state_label provider) (P : String → String → Type 0) where
  -- A node whose pods have completed, or whose time is over, goes on to the deletion of pods.
  check_pod_completion-Follows :
      (driver_name name : String) (timeout : ℤ) (pods : List Pod)
      → P name upgrade_state_pod_deletion_required
      → Follows
          (named name (writes state_label P))
          (Pods.check_pod_completion client provider driver_name timeout pods)
  unfolding Pods.check_pod_completion
  check_pod_completion-Follows driver_name name timeout pods p =
      let timed = λ (key : String).
        handle_timeout-Follows client state_label label_key laws provider provided P name key
          upgrade_state_pod_deletion_required timeout p in
      let annotation =
        change_annotation-Follows client state_label label_key laws provider provided P name in
      let moved =
        change_state-Follows client state_label label_key laws provider provided P name _ p in
      search follows_rules depth 12

  pub check_with-Follows :
      (driver_name : String) (spec : Option WaitForCompletionSpec) (nodes : List Node)
      → ((n : Node) → Memᴰ n nodes → P n.name upgrade_state_pod_deletion_required)
      → Follows (writes state_label P) (Pods.check_with client provider driver_name spec nodes)
  unfolding Pods.check_with
  check_with-Follows driver_name none nodes p =
      Follows-when (not (is_empty nodes)) _ (λ _. Follows-raise (Error.panic "nil dereference"))
  check_with-Follows driver_name (some spec) nodes p = Follows-for_each _ _ λ node mem.
      Follows-bind _ _
        (list_pods-Follows client state_label label_key laws provider provided P spec.pod_selector
          node.name)
        λ pods.
          Follows-on_node node _ (
            check_pod_completion-Follows driver_name node.name spec.timeout_second pods
              (p node mem))

  pub schedule_pods_restart-Follows :
      (pods : List Pod) → Follows (writes state_label P) (Pods.schedule_pods_restart client pods)
  unfolding Pods.schedule_pods_restart
  schedule_pods_restart-Follows pods =
      Follows-for_each _ _
        (λ pod _. Follows_of_KeepsLabels P _ (laws.delete_pod-label pod.namespace pod.name))

  pub daemonset_hash-Follows :
      (ds : DaemonSet)
      → Follows (writes state_label P) (get_daemonset_controller_revision_hash client ds)
  unfolding get_daemonset_controller_revision_hash
  daemonset_hash-Follows ds =
      Follows-bind _ _
        (Follows-wrap_error _ _ (
          Follows_of_KeepsLabels P _
            (laws.list_controller_revisions-label ds.namespace ds.match_labels)))
        (λ all. Follows-lift _)
