-- ===== src/StateManager/Restarts.antt =====
-- Which driver pods `ProcessPodRestartNodes` of upgrade_state.go restarts.
pub mod Outdated
use mathlib.Core.List.Memᴰ.{append_left, append_right, append_cases, eq_of_singleton}
use mathlib.Core.Path.{subst}
use k8s_operator_libs.Prelude.{
  ◌≡◌, ◌≢◌, refl, sym, ◌∙◌, ap, ◌⊎◌, inl, inr, Bool, true, false, not, ◌||◌, Bool-cases, List, [],
  String, Option, none, some, eq_iff, arith, ◌∷◌, ◌++◌, Memᴰ, is_none, or-false_right,
  if◌then◌else◌,
}
use k8s_operator_libs.Act.{ok, Act, ◌>>◌}
use k8s_operator_libs.Act.Follows.{Returns, Returns-pure, Returns-bind, Returns-bind_of_Returns}
use k8s_operator_libs.Act.Loops.{Returns-fold_each, Returns-if_of_test}
use k8s_operator_libs.Kube.{Node, Pod, DaemonSet}
use k8s_operator_libs.Interfaces.{Held, on_node}
use k8s_operator_libs.Interfaces.Contracts.{Returns-in_world}
use k8s_operator_libs.StateManager.{NodeUpgradeState, ClusterUpgradeStateManager, is_orphaned_pod}
use k8s_operator_libs.StateManager.Nodes.{compare_revisions, pod_in_sync_with_ds}
use k8s_operator_libs.StateManager.Process.{with_pod, process_pod_restart_node, pods_to_restart}
use k8s_operator_libs.StateManager.Transitions.Restart.{pod_in_sync_with_ds-Returns}
use k8s_operator_libs.StateManager.Restarts.Outdated.{
  IsToRestart, ReadsHashes, IsOutdated, WasRead, compare_revisions-WasRead,
}

Returns-on_node :
    {W A : Type 0} {Q : A → Type 0} (n : Node) (m : Act (Held W) A)
    → Returns Q m
    → Returns Q (on_node n m)
unfolding on_node
Returns-on_node n m k = record { at = λ w. k.at (record { node = n; world = w }) }

true_not_false : ◌≢◌ {A = Bool} true false
true_not_false e = cc

-- The pods so far, and one more unless it is terminating.
with_pod-cases :
    (pods : List Pod) (pod other : Pod)
    → Memᴰ other (with_pod pods pod)
    → Memᴰ other pods ⊎ ((other ≡ pod) × (is_none pod.deletion_timestamp ≡ true))
unfolding with_pod
with_pod-cases pods pod other mem = elim (Bool-cases (is_none pod.deletion_timestamp)) [
  | inl stays ↦
      elim (append_cases pods {t = pod ∷ []}
        (subst (λ b. Memᴰ other (if b then pods ++ pod ∷ [] else pods)) stays mem)) [
          | inl old ↦ inl old
          | inr new ↦ inr (eq_of_singleton new, stays)
        ]
  | inr terminating ↦
      inl (subst (λ b. Memᴰ other (if b then pods ++ pod ∷ [] else pods)) terminating mem)
]

with_pod-keeps :
    (pods : List Pod) (pod other : Pod) → Memᴰ other pods → Memᴰ other (with_pod pods pod)
unfolding with_pod
with_pod-keeps pods pod other mem = elim (Bool-cases (is_none pod.deletion_timestamp)) [
  | inl stays ↦ rw stays (append_left _ mem)
  | inr terminating ↦ rw terminating mem
]

with_pod-adds :
    (pods : List Pod) (pod : Pod)
    → is_none pod.deletion_timestamp ≡ true
    → Memᴰ pod (with_pod pods pod)
unfolding with_pod
with_pod-adds pods pod stays = rw stays (append_right pods (Memᴰ.head refl))

module _ {W : Type 0} (m : ClusterUpgradeStateManager W) (bucket : List NodeUpgradeState)
    (PodHash : Pod → String → Type 0) (DaemonSetHash : DaemonSet → String → Type 0)
    (reads : ReadsHashes m PodHash DaemonSetHash) where
  record IsPartial (rest : List NodeUpgradeState) (pods : List Pod) : Type 0 where
    within : (nus : NodeUpgradeState) → Memᴰ nus rest → Memᴰ nus bucket
    sound : (pod : Pod) → Memᴰ pod pods → IsToRestart PodHash DaemonSetHash bucket pod
    complete :
        (nus : NodeUpgradeState)
        → Memᴰ nus bucket
        → is_orphaned_pod nus ≡ true
        → is_none nus.driver_pod.deletion_timestamp ≡ true
        → Memᴰ nus rest ⊎ Memᴰ nus.driver_pod pods

  restarted-IsPartial :
      (nus : NodeUpgradeState) (rest : List NodeUpgradeState) (pods : List Pod)
      → IsOutdated PodHash DaemonSetHash nus.driver_pod nus.driver_daemon_set
      → IsPartial (nus ∷ rest) pods
      → IsPartial rest (with_pod pods nus.driver_pod)
  restarted-IsPartial nus rest pods outdated k = record {
    within = λ other mem. k.within other (Memᴰ.tail mem);
    sound = λ pod mem. elim (with_pod-cases pods nus.driver_pod pod mem) [
      | inl old ↦ k.sound pod old
      | inr (same, stays) ↦ record {
        nus = nus;
        member = k.within nus (Memᴰ.head refl);
        same_pod = sym same;
        stays = ap (λ p. is_none p.deletion_timestamp) same ∙ stays;
        outdated = outdated;
      }
    ];
    complete = λ other mem orphaned stays. elim (k.complete other mem orphaned stays) [
      | inl (Memᴰ.head same) ↦ inr (
          subst (λ n. Memᴰ n.driver_pod (with_pod pods nus.driver_pod)) (sym same)
            (with_pod-adds pods nus.driver_pod
              (subst (λ n. is_none n.driver_pod.deletion_timestamp ≡ true) same stays)))
      | inl (Memᴰ.tail later) ↦ inl later
      | inr listed ↦ inr (with_pod-keeps pods nus.driver_pod other.driver_pod listed)
    ];
  }

  kept-IsPartial :
      (nus : NodeUpgradeState) (rest : List NodeUpgradeState) (pods : List Pod)
      → is_orphaned_pod nus ≡ false
      → IsPartial (nus ∷ rest) pods
      → IsPartial rest pods
  kept-IsPartial nus rest pods owned k = record {
    within = λ other mem. k.within other (Memᴰ.tail mem);
    sound = k.sound;
    complete = λ other mem orphaned stays. elim (k.complete other mem orphaned stays) [
      | inl (Memᴰ.head same) ↦
          absurd (true_not_false (sym orphaned ∙ ap is_orphaned_pod same ∙ owned))
      | inl (Memᴰ.tail later) ↦ inl later
      | inr listed ↦ inr listed
    ];
  }

  pod_in_sync_with_ds-WasRead :
      (nus : NodeUpgradeState)
      → Returns
          (WasRead PodHash DaemonSetHash nus.driver_pod nus.driver_daemon_set)
          (pod_in_sync_with_ds m nus)
  unfolding pod_in_sync_with_ds
  pod_in_sync_with_ds-WasRead nus =
      compare_revisions-WasRead PodHash DaemonSetHash m reads nus.driver_pod nus.driver_daemon_set

  round-IsPartial :
      (nus : NodeUpgradeState) (rest : List NodeUpgradeState) (pods : List Pod)
      → IsPartial (nus ∷ rest) pods
      → Returns (IsPartial rest) (process_pod_restart_node m pods nus)
  unfolding process_pod_restart_node ◌>>◌ is_orphaned_pod
  round-IsPartial nus rest pods k =
      Returns-bind_of_Returns _ _ _ (Returns-in_world _ (pod_in_sync_with_ds-WasRead nus)) λ r read.
        Returns-if_of_test (not r.0 || r.1) _ _
          (λ outdated.
            Returns-pure _ (restarted-IsPartial nus rest pods (read.outdated outdated) k))
          (λ fresh. Returns-bind _ _ (λ _. Returns-pure pods (
            kept-IsPartial nus rest pods (sym read.is_orphaned ∙ or-false_right (not r.0) r.1 fresh)
              k)))

  start-IsPartial : IsPartial bucket []
  start-IsPartial = record {
    within = λ nus mem. mem;
    sound = λ pod mem. elim mem [ ];
    complete = λ nus mem _ _. inl mem;
  }

  pods_to_restart-IsPartial : Returns (IsPartial []) (pods_to_restart m bucket)
  unfolding pods_to_restart
  pods_to_restart-IsPartial =
      Returns-fold_each IsPartial _
        (λ nus rest pods k. Returns-on_node nus.node _ (round-IsPartial nus rest pods k)) bucket []
        start-IsPartial

  -- Whatever is known of the hashes that the pod manager reads for pods and for daemon sets: when the
  -- loop of `ProcessPodRestartNodes` over the nodes of its group succeeds, every pod that it gives to
  -- be restarted is the driver pod of such a node, is not terminating, and either has no daemon set
  -- or has another revision hash than its daemon set.
  pub pods_to_restart_outdated :
      (w : W) (pods : List Pod) (pod : Pod)
      → (pods_to_restart m bucket w).0 ≡ ok pods
      → Memᴰ pod pods
      → IsToRestart PodHash DaemonSetHash bucket pod
  pods_to_restart_outdated w pods pod e = (pods_to_restart-IsPartial.at w pods e).sound pod

listed :
    {nus : NodeUpgradeState} {pods : List Pod}
    → Memᴰ nus [] ⊎ Memᴰ nus.driver_pod pods
    → Memᴰ nus.driver_pod pods
listed (inl nowhere) = elim nowhere [ ]
listed (inr found) = found

-- Nothing is known.
any_hash :
    {W : Type 0} (m : ClusterUpgradeStateManager W) → ReadsHashes m (λ _ _. Unit) (λ _ _. Unit)
any_hash m = record {
  pod_hash = λ pod. record { at = λ w h e. tt };
  daemonset_hash = λ ds. record { at = λ w h e. tt };
}

module _ {W : Type 0} (m : ClusterUpgradeStateManager W) (bucket : List NodeUpgradeState) where
  -- When the loop of `ProcessPodRestartNodes` over the nodes of its group succeeds: every orphaned
  -- driver pod of such a node that is not terminating is given to be restarted.
  pub orphaned_pods_restarted :
      (w : W) (pods : List Pod) (nus : NodeUpgradeState)
      → (pods_to_restart m bucket w).0 ≡ ok pods
      → Memᴰ nus bucket
      → is_orphaned_pod nus ≡ true
      → is_none nus.driver_pod.deletion_timestamp ≡ true
      → Memᴰ nus.driver_pod pods
  orphaned_pods_restarted w pods nus e mem orphaned stays = listed (
      ((pods_to_restart-IsPartial m bucket _ _ (any_hash m)).at w pods e).complete nus mem orphaned
        stays)
