-- ===== src/Client.antt =====
-- The client libraries, which are not part of this repository: controller-runtime's client,
-- client-go, kubectl's drain package and `wait.PollImmediateUntil`. The library's code takes them as
-- this record, and what it relies on is stated as laws over it.
pub mod Laws
use k8s_operator_libs.Prelude.{String, Bool, Option, List}
use k8s_operator_libs.Prelude.Int.{ℤ}
use k8s_operator_libs.Act.{Result, ok, err, Act, ◌>>=◌, ◌>>◌, pure}
use k8s_operator_libs.StringMap.{StringMap}
use k8s_operator_libs.Kube.{Node, Pod, DaemonSet, ControllerRevision}
use k8s_operator_libs.Interfaces.{Held}

-- The merge patches that `fmt.Sprintf` writes, `{"metadata":{…}}`.
pub data Patch : Type 0 where
  label_patch : String → String → Patch
  annotation_patch : String → String → Patch
  annotation_removal : String → Patch

-- The fields of `drain.Helper` that the library sets to different values. It always sets
-- `IgnoreAllDaemonSets` to true and `GracePeriodSeconds` to -1.
pub record DrainHelper : Type 0 where
  pub force : Bool
  pub delete_empty_dir_data : Bool
  -- In nanoseconds.
  pub timeout : ℤ
  pub pod_selector : String
  pub additional_filter : Option (Pod → Bool)

pub record Client (W : Type 0) : Type 0 where
  -- `K8sClient.Get` of a node, from the operator's cache.
  pub get : String → Act W Node
  -- `K8sClient.Patch`: the response is written into the object.
  pub patch : Patch → Act (Held W) Unit
  -- `wait.PollImmediateUntil(time.Second, condition, …)` with the timeout of ten seconds.
  pub poll_immediate_until : Act (Held W) Bool → Act (Held W) Unit
  -- `drain.RunCordonOrUncordon(helper, node, desired)`
  pub run_cordon_or_uncordon : Bool → Act (Held W) Unit
  -- `drain.RunNodeDrain(helper, nodeName)`
  pub run_node_drain : DrainHelper → String → Act W Unit
  -- The pods of `helper.GetPodsForDeletion(nodeName)`; its errors are only logged.
  pub get_pods_for_deletion : DrainHelper → String → Act W (List Pod)
  pub delete_or_evict_pods : DrainHelper → List Pod → Act W Unit
  -- `Pods("").List` with a label selector, on a node.
  pub list_pods : String → String → Act W (List Pod)
  -- `Pods(namespace).Delete(name)`
  pub delete_pod : String → String → Act W Unit
  -- `ControllerRevisions(namespace).List`, of a daemon set's match labels.
  pub list_controller_revisions : String → StringMap String → Act W (List ControllerRevision)
  -- `K8sClient.List` of daemon sets and of pods, in a namespace and with labels.
  pub list_daemon_sets : String → StringMap String → Act W (List DaemonSet)
  pub list_driver_pods : String → StringMap String → Act W (List Pod)
  -- `time.Now().Unix()`
  pub now : Act W ℤ

abbrev pub reloaded : {W : Type 0} → Node → Result Node → W → Result (Unit {0}) × Held W
reloaded old (ok n) w = (ok tt, record { node = n; world = w })
reloaded old (err e) w = (err e, record { node = old; world = w })

module _ {W : Type 0} (client : Client W) where
  -- `K8sClient.Get(ctx, types.NamespacedName{Name: node.Name}, node)`, into the object.
  unfoldable pub reload : Act (Held W) Unit
  reload h = let (r, w) = client.get h.node.name h.world in reloaded h.node r w
