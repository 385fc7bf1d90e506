-- ===== src/System.antt =====
-- The state that the drain manager and the pod manager share with their goroutines. A goroutine that
-- has been started and has not run yet is a task; the scheduler runs the tasks in any order.
use k8s_operator_libs.Prelude.{Bool, List}
use k8s_operator_libs.StringSet.{StringSet}
use k8s_operator_libs.Kube.{Node}
use k8s_operator_libs.Client.{DrainHelper}

pub record DrainTask : Type 0 where
  pub helper : DrainHelper
  pub node : Node

pub record EvictionTask : Type 0 where
  pub helper : DrainHelper
  pub drain_enabled : Bool
  pub node : Node

-- `K` is the world of the clients: the API server, the operator's cache and the clock.
pub record System (K : Type 0) : Type 0 where
  pub api : K
  pub draining_nodes : StringSet
  pub nodes_in_progress : StringSet
  pub drain_tasks : List DrainTask
  pub eviction_tasks : List EvictionTask
