-- ===== src/StateManager/Build/Rejects.antt =====
-- When `BuildState` of upgrade_state.go refuses the daemon sets.
use mathlib.Core.Path.{subst}
use k8s_operator_libs.Prelude.{
  ℕ, String, ◌≡◌, ◌≢◌, refl, ap, ◌∙◌, true, false, ◌&&◌, Bool-cases, inl, inr, List, [], ◌∷◌, ◌++◌,
  Memᴰ, arith, length,
}
use k8s_operator_libs.Prelude.Int.{ℤ, pos, negsuc, leb_ℤ}
use k8s_operator_libs.Act.{Error, Result, ok, err, continue, ◌>>=◌, lift, pure, wrap_error}
use k8s_operator_libs.StringMap.{StringMap}
use k8s_operator_libs.Kube.{Pod, DaemonSet}
use k8s_operator_libs.Client.{Client}
use k8s_operator_libs.StateManager.{ClusterUpgradeState, ClusterUpgradeStateManager}
use k8s_operator_libs.StateManager.Build.{
  is_scheduled_everywhere, get_pods_owned_by_ds, get_orphaned_pods, collect_owned_pods, by_uid,
  get_driver_daemon_sets, add_pods, build_state,
}

-- The daemon set has exactly as many pods of the list as it wants.
abbrev pub IsComplete : DaemonSet → List Pod → Type 0
IsComplete ds pods = ds.desired_number_scheduled ≡ pos (length (get_pods_owned_by_ds ds pods))

abbrev pub unscheduled : Error
unscheduled = Error.message "driver DaemonSet should not have Unscheduled pods"

same_number : (a : ℤ) (n : ℕ) → a ≡ pos n → (leb_ℤ a (pos n) && leb_ℤ (pos n) a) ≡ true
same_number a n e = rw e (ground arith)

other_number : (a : ℤ) (n : ℕ) → a ≢ pos n → (leb_ℤ a (pos n) && leb_ℤ (pos n) a) ≡ false
other_number (pos a) n h = elim (Bool-cases (leb_ℤ (pos a) (pos n) && leb_ℤ (pos n) (pos a))) [
  | inl same ↦ absurd (h (ground arith))
  | inr other ↦ other
]
other_number (negsuc a) n h = ground arith

collect_complete :
    (daemon_sets : StringMap DaemonSet) (pods filtered : List Pod)
    → ((uid : String) (ds : DaemonSet) → Memᴰ (uid, ds) daemon_sets → IsComplete ds pods)
    → (collected : List Pod) × (collect_owned_pods daemon_sets pods filtered ≡ ok collected)
unfolding collect_owned_pods
collect_complete [] pods filtered complete = (filtered, refl)
collect_complete ((uid, ds) ∷ rest) pods filtered complete =
    rw
      (same_number ds.desired_number_scheduled (length (get_pods_owned_by_ds ds pods))
        (complete uid ds (Memᴰ.head refl)))
      (collect_complete rest pods (filtered ++ get_pods_owned_by_ds ds pods)
        (λ u d mem. complete u d (Memᴰ.tail mem)))

collect_incomplete :
    (daemon_sets : StringMap DaemonSet) (pods filtered : List Pod) (uid : String) (ds : DaemonSet)
    → Memᴰ (uid, ds) daemon_sets
    → ¬ IsComplete ds pods
    → collect_owned_pods daemon_sets pods filtered ≡ err unscheduled
unfolding collect_owned_pods
collect_incomplete [] pods filtered uid ds mem missing = elim mem [ ]
collect_incomplete ((u, d) ∷ rest) pods filtered uid ds (Memᴰ.head same) missing =
    rw
      (other_number d.desired_number_scheduled (length (get_pods_owned_by_ds d pods))
        (subst (λ s. ¬ IsComplete s pods) (ap (λ p. p.1) same) missing))
      refl
collect_incomplete ((u, d) ∷ rest) pods filtered uid ds (Memᴰ.tail mem) missing =
    elim (Bool-cases (is_scheduled_everywhere d (get_pods_owned_by_ds d pods))) [
      | inl all ↦ rw all (
          collect_incomplete rest pods (filtered ++ get_pods_owned_by_ds d pods) uid ds mem missing)
      | inr some_missing ↦ rw some_missing refl
    ]

module _ {W : Type 0} (client : Client W) (m : ClusterUpgradeStateManager W) (namespace : String)
    (driver_labels : StringMap String) (w w' w'' : W) (listed : List DaemonSet) (pods : List Pod)
    (lists_sets : client.list_daemon_sets namespace driver_labels w ≡ (ok listed, w'))
    (lists_pods : client.list_driver_pods namespace driver_labels w' ≡ (ok pods, w'')) where
  -- `BuildState` after its two lists.
  after_lists :
      build_state client m namespace driver_labels w
      ≡ continue
          (collect_owned_pods (by_uid [] listed) pods [])
          (λ owned. add_pods m (by_uid [] listed) (owned ++ get_orphaned_pods pods))
          w''
  unfolding build_state get_driver_daemon_sets wrap_error ◌>>=◌ continue pure lift
  after_lists = rw lists_sets (rw lists_pods refl)

  continued : Result (List Pod) → Result ClusterUpgradeState × W
  continued r =
      continue r (λ owned. add_pods m (by_uid [] listed) (owned ++ get_orphaned_pods pods)) w''

  -- When the lists of daemon sets and of driver pods succeed, and some daemon set does not have as
  -- many pods as it wants: `BuildState` returns the error that says so, and it has done nothing but
  -- the two lists.
  pub build_state_rejects :
      (uid : String) (ds : DaemonSet)
      → Memᴰ (uid, ds) (by_uid [] listed)
      → ds.desired_number_scheduled ≢ pos (length (get_pods_owned_by_ds ds pods))
      → build_state client m namespace driver_labels w ≡ (err unscheduled, w'')
  unfolding continued continue
  build_state_rejects uid ds mem missing =
      after_lists ∙ ap continued (collect_incomplete (by_uid [] listed) pods [] uid ds mem missing)

  -- If all have, it goes on to the nodes of the pods that they own and of the orphaned pods.
  pub build_state_accepts :
      ((uid : String) (ds : DaemonSet) → Memᴰ (uid, ds) (by_uid [] listed) → IsComplete ds pods)
      → (owned : List Pod) × (collect_owned_pods (by_uid [] listed) pods [] ≡ ok owned)
        × (build_state client m namespace driver_labels w
            ≡ add_pods m (by_uid [] listed) (owned ++ get_orphaned_pods pods) w'')
  unfolding continued continue
  build_state_accepts complete =
      let (owned, e) = collect_complete (by_uid [] listed) pods [] complete in
      (owned, e, after_lists ∙ ap continued e)
