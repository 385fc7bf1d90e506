-- ===== src/Background/Consistent.antt =====
-- The calls of drain_manager.go and pod_manager.go that start goroutines, and the sets of busy nodes.
use mathlib.Core.Path.{subst₂}
use k8s_operator_libs.Prelude.{
  String, ◌≡◌, refl, sym, Bool, true, false, not, List, [], ◌∷◌, ◌++◌, Option, none, some,
}
use k8s_operator_libs.Act.{pure, gets, modify, when, ◌>>=◌, continue}
use k8s_operator_libs.Act.Follows.{
  Preorder, Follows, Follows-for_each, Follows-if, Follows-pure, Follows-raise,
}
use k8s_operator_libs.Kube.{Node, Pod}
use k8s_operator_libs.Api.{DrainSpec, PodDeletionSpec}
use k8s_operator_libs.Interfaces.{PodManagerConfig, DrainConfiguration}
use k8s_operator_libs.StringSet
use k8s_operator_libs.StringSet.{StringSet, has}
use k8s_operator_libs.Client.{DrainHelper}
use k8s_operator_libs.System.{System, DrainTask, EvictionTask}
use k8s_operator_libs.Drain
use k8s_operator_libs.Pods
use k8s_operator_libs.Background.{SameTasks}
use k8s_operator_libs.Background.Ledger.{Agrees, Agrees-add}

abbrev pub drain_name : DrainTask → String
drain_name task = task.node.name

abbrev pub eviction_name : EvictionTask → String
eviction_name task = task.node.name

module _ {K : Type 0} where
  pub record IsConsistent (s : System K) : Type 0 where
    pub drains : Agrees drain_name s.draining_nodes s.drain_tasks
    pub evictions : Agrees eviction_name s.nodes_in_progress s.eviction_tasks

  pub SameTasks-IsConsistent : (s s' : System K) → SameTasks s s' → IsConsistent s → IsConsistent s'
  SameTasks-IsConsistent s s' same k = record {
    drains = subst₂ (Agrees drain_name) (sym same.draining_nodes) (sym same.drain_tasks) k.drains;
    evictions =
        subst₂ (Agrees eviction_name) (sym same.nodes_in_progress) (sym same.eviction_tasks)
          k.evictions;
  }

  -- Consistent states are left consistent.
  abbrev pub keeps_consistent : Preorder (System K)
  keeps_consistent = record {
    rel = λ s s'. IsConsistent s → IsConsistent s';
    rel_refl = λ s k. k;
    rel_trans = λ s t u f g k. g (f k);
  }

  drain_scheduled :
      (helper : DrainHelper) (node : Node) (s : System K) (draining : Bool)
      → has node.name s.draining_nodes ≡ draining
      → IsConsistent s
      → IsConsistent
          (when
            (not draining)
            (modify λ s. record s {
              draining_nodes = StringSet.add node.name s.draining_nodes;
              drain_tasks = s.drain_tasks ++ record { helper = helper; node = node } ∷ [];
            })
            s).1
  unfolding when modify pure
  drain_scheduled helper node s true e k = k
  drain_scheduled helper node s false e k = record {
    drains = Agrees-add drain_name s.draining_nodes s.drain_tasks _ e k.drains;
    evictions = k.evictions;
  }

  eviction_scheduled :
      (helper : DrainHelper) (drain_enabled : Bool) (node : Node) (s : System K)
      (in_progress : Bool)
      → has node.name s.nodes_in_progress ≡ in_progress
      → IsConsistent s
      → IsConsistent
          (when
            (not in_progress)
            (modify λ s. record s {
              nodes_in_progress = StringSet.add node.name s.nodes_in_progress;
              eviction_tasks =
                  s.eviction_tasks
                  ++ record { helper = helper; drain_enabled = drain_enabled; node = node } ∷ [];
            })
            s).1
  unfolding when modify pure
  eviction_scheduled helper drain_enabled node s true e k = k
  eviction_scheduled helper drain_enabled node s false e k = record {
    drains = k.drains;
    evictions = Agrees-add eviction_name s.nodes_in_progress s.eviction_tasks _ e k.evictions;
  }

  schedule_drain_node-Follows :
      (helper : DrainHelper) (node : Node)
      → Follows keeps_consistent (Drain.schedule_node helper node)
  unfolding Drain.schedule_node ◌>>=◌ gets continue
  schedule_drain_node-Follows helper node = record {
    at = λ s. drain_scheduled helper node s (has node.name s.draining_nodes) refl;
  }

  schedule_drain_with-Follows :
      (spec : Option DrainSpec) (nodes : List Node)
      → Follows keeps_consistent (Drain.schedule_with spec nodes)
  unfolding Drain.schedule_with
  schedule_drain_with-Follows none nodes = Follows-raise _
  schedule_drain_with-Follows (some spec) nodes =
      Follows-if (not spec.enable) _ _ (λ _. Follows-pure tt)
        (λ _.
          Follows-for_each nodes (Drain.schedule_node (Drain.drain_helper_of spec))
            (λ node _. schedule_drain_node-Follows (Drain.drain_helper_of spec) node))

  pub schedule_drain-Follows :
      (config : DrainConfiguration) → Follows keeps_consistent (Drain.schedule_nodes_drain config)
  unfolding Drain.schedule_nodes_drain
  schedule_drain-Follows config =
      Follows-if _ _ _ (λ _. Follows-pure tt)
        (λ _. schedule_drain_with-Follows config.spec config.nodes)

  schedule_eviction_node-Follows :
      (helper : DrainHelper) (drain_enabled : Bool) (node : Node)
      → Follows keeps_consistent (Pods.schedule_node helper drain_enabled node)
  unfolding Pods.schedule_node ◌>>=◌ gets continue
  schedule_eviction_node-Follows helper drain_enabled node = record {
    at = λ s.
        eviction_scheduled helper drain_enabled node s (has node.name s.nodes_in_progress) refl;
  }

  schedule_eviction_with-Follows :
      (filter : Pod → Bool) (spec : Option PodDeletionSpec) (drain_enabled : Bool)
      (nodes : List Node)
      → Follows keeps_consistent (Pods.schedule_with filter spec drain_enabled nodes)
  unfolding Pods.schedule_with
  schedule_eviction_with-Follows filter none drain_enabled nodes = Follows-raise _
  schedule_eviction_with-Follows filter (some spec) drain_enabled nodes =
      Follows-for_each nodes _ (λ node _. schedule_eviction_node-Follows _ drain_enabled node)

  pub schedule_eviction-Follows :
      (filter : Pod → Bool) (config : PodManagerConfig)
      → Follows keeps_consistent (Pods.schedule_pod_eviction filter config)
  unfolding Pods.schedule_pod_eviction
  schedule_eviction-Follows filter config =
      Follows-if _ _ _ (λ _. Follows-pure tt)
        (λ _.
          schedule_eviction_with-Follows filter config.deletion_spec config.drain_enabled
            config.nodes)
