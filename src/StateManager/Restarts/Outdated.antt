-- ===== src/StateManager/Restarts/Outdated.antt =====
-- When a driver pod is out of date, by the revision hashes that `podInSyncWithDS` reads.
use k8s_operator_libs.Prelude.{
  ◌≡◌, ◌≢◌, refl, Bool, true, not, ◌||◌, String, Option, none, some, eq_iff, arith, is_none, List,
  Memᴰ,
}
use k8s_operator_libs.Act.Follows.{Returns, Returns-pure, Returns-bind_of_Returns}
use k8s_operator_libs.Kube.{Pod, DaemonSet}
use k8s_operator_libs.StateManager.{NodeUpgradeState, ClusterUpgradeStateManager}
use k8s_operator_libs.StateManager.Nodes.{compare_revisions}

-- What the two methods of the pod manager that read revision hashes may return, at any time.
pub record ReadsHashes {W : Type 0} (m : ClusterUpgradeStateManager W)
    (PodHash : Pod → String → Type 0) (DaemonSetHash : DaemonSet → String → Type 0) : Type 0 where
  pub pod_hash :
      (pod : Pod) → Returns (PodHash pod) (m.pod_manager.get_pod_controller_revision_hash pod)
  pub daemonset_hash :
      (ds : DaemonSet)
      → Returns (DaemonSetHash ds) (m.pod_manager.get_daemonset_controller_revision_hash ds)

module _ (PodHash : Pod → String → Type 0) (DaemonSetHash : DaemonSet → String → Type 0) where
  -- The pod has no daemon set, or the pod and its daemon set have different revision hashes.
  pub data IsOutdated (pod : Pod) : Option DaemonSet → Type 0 where
    no_daemon_set : IsOutdated pod none
    other_revision :
        (ds : DaemonSet) (pod_hash ds_hash : String)
        → PodHash pod pod_hash
        → DaemonSetHash ds ds_hash
        → pod_hash ≢ ds_hash
        → IsOutdated pod (some ds)

  -- The driver pod of an entry that is out of date, and not terminating.
  pub record IsToRestart (bucket : List NodeUpgradeState) (pod : Pod) : Type 0 where
    pub nus : NodeUpgradeState
    pub member : Memᴰ nus bucket
    pub same_pod : nus.driver_pod ≡ pod
    pub stays : is_none pod.deletion_timestamp ≡ true
    pub outdated : IsOutdated nus.driver_pod nus.driver_daemon_set

  -- What is known of the result of `podInSyncWithDS`.
  pub record WasRead (pod : Pod) (ds : Option DaemonSet) (synced_orphaned : Bool × Bool)
      : Type 0 where
    pub is_orphaned : synced_orphaned.1 ≡ is_none ds
    pub outdated : (not synced_orphaned.0 || synced_orphaned.1) ≡ true → IsOutdated pod ds

  pub compare_revisions-WasRead :
      {W : Type 0} (m : ClusterUpgradeStateManager W)
      → ReadsHashes m PodHash DaemonSetHash
      → (pod : Pod) (ds : Option DaemonSet) → Returns (WasRead pod ds) (compare_revisions m pod ds)
  unfolding compare_revisions
  compare_revisions-WasRead m reads pod none =
      Returns-pure _ (record { is_orphaned = refl; outdated = λ _. IsOutdated.no_daemon_set })
  compare_revisions-WasRead m reads pod (some ds) =
      Returns-bind_of_Returns _ _ _ (reads.pod_hash pod) λ pod_hash of_pod.
        Returns-bind_of_Returns _ _ _ (reads.daemonset_hash ds) λ ds_hash of_ds.
          Returns-pure _ (record {
            is_orphaned = refl;
            outdated = λ differ.
                IsOutdated.other_revision ds pod_hash ds_hash of_pod of_ds
                  (λ same. let equal = (eq_iff pod_hash ds_hash).1 same in absurd (ground arith));
          })
