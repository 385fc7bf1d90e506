-- ===== src/StateManager/Build/Accepts.antt =====
-- When `BuildState` of upgrade_state.go succeeds.
use mathlib.Core.List.Memᴰ.{append_cases}
use k8s_operator_libs.Prelude.{
  String, ◌≡◌, refl, sym, ap, ◌∙◌, Bool, true, false, Bool-cases, inl, inr, List, [], ◌∷◌, ◌++◌,
  Memᴰ, Memᴰ-select, arith, ◌==◌, length, count_if, select,
}
use k8s_operator_libs.Prelude.Int.{pos}
use k8s_operator_libs.Act.{
  Result, ok, err, Act, is_ok, continue, ◌>>=◌, pure, wrap_error, wrap_result, fold_each,
}
use k8s_operator_libs.StringMap.{StringMap}
use k8s_operator_libs.Kube.{Pod, DaemonSet}
use k8s_operator_libs.Client.{Client}
use k8s_operator_libs.StateManager.{
  ClusterUpgradeState, ClusterUpgradeStateManager, new_cluster_upgrade_state,
}
use k8s_operator_libs.StateManager.Build.{
  is_owned_by, is_unscheduled, get_pods_owned_by_ds, get_orphaned_pods, by_uid,
  build_node_upgrade_state, add_pod, add_pods, build_state,
}
use k8s_operator_libs.StateManager.Build.Covered.{is_placed}
use k8s_operator_libs.StateManager.Build.Owned.{collect_owned_pods_owned}
use k8s_operator_libs.StateManager.Build.Rejects.{build_state_accepts}

-- The pod's first owner has the UID of the daemon set.
abbrev pub is_of : DaemonSet → Pod → Bool
is_of ds pod = elim pod.owner_references [ [] ↦ false | first ∷ _ ↦ ds.uid == first.uid ]

length-select : (p : Pod → Bool) (pods : List Pod) → length (select p pods) ≡ count_if p pods
length-select p [] = refl
length-select p (pod ∷ pods) = ground (arith, length-select p pods)

length-get_pods_owned_by_ds :
    (ds : DaemonSet) (pods : List Pod)
    → length (get_pods_owned_by_ds ds pods) ≡ count_if (is_of ds) pods
unfolding get_pods_owned_by_ds is_owned_by
length-get_pods_owned_by_ds ds pods = length-select (is_of ds) pods

is_ok-wrap_result :
    {A : Type 0} (text : String) (r : Result A) → is_ok (wrap_result text r) ≡ is_ok r
is_ok-wrap_result text (ok a) = refl
is_ok-wrap_result text (err e) = refl

module _ {W : Type 0} where
  continue_succeeds :
      {A B : Type 0} (r : Result A) (f : A → Act W B) (w : W)
      → is_ok r ≡ true
      → ((a : A) → is_ok (f a w).0 ≡ true)
      → is_ok (continue r f w).0 ≡ true
  unfolding continue
  continue_succeeds (ok a) f w e k = k a
  continue_succeeds (err x) f w e k = cc

  bind_succeeds :
      {A B : Type 0} (m : Act W A) (f : A → Act W B) (w : W)
      → is_ok (m w).0 ≡ true
      → ((a : A) (w' : W) → is_ok (f a w').0 ≡ true)
      → is_ok ((m >>= f) w).0 ≡ true
  unfolding ◌>>=◌
  bind_succeeds m f w e k = continue_succeeds (m w).0 f (m w).1 e (λ a. k a (m w).1)

module _ {W : Type 0} (m : ClusterUpgradeStateManager W) where
  -- The node of the pod can be read, at any time.
  abbrev pub HasNode : Pod → Type 0
  HasNode pod = (w : W) → is_ok (m.node_upgrade_state_provider.get_node pod.node_name w).0 ≡ true

  add_pod_succeeds :
      (daemon_sets : StringMap DaemonSet) (c : ClusterUpgradeState) (pod : Pod) (w : W)
      → (is_placed pod ≡ true → HasNode pod)
      → is_ok (add_pod m daemon_sets c pod w).0 ≡ true
  unfolding add_pod is_unscheduled build_node_upgrade_state pure wrap_error
  add_pod_succeeds daemon_sets c pod w has_node = elim (Bool-cases (is_unscheduled pod)) [
    | inl skipped ↦ rw skipped refl
    | inr taken ↦ rw taken (
        bind_succeeds _ _ w
          (bind_succeeds _ _ w (is_ok-wrap_result _ _ ∙ has_node (rw taken refl) w)
            (λ node w'. refl))
          (λ nus w'. refl))
  ]

  fold_succeeds :
      (daemon_sets : StringMap DaemonSet) (pods : List Pod) (c : ClusterUpgradeState) (w : W)
      → ((pod : Pod) → Memᴰ pod pods → is_placed pod ≡ true → HasNode pod)
      → is_ok (fold_each pods c (add_pod m daemon_sets) w).0 ≡ true
  unfolding fold_each pure
  fold_succeeds daemon_sets [] c w k = refl
  fold_succeeds daemon_sets (pod ∷ pods) c w k =
      bind_succeeds _ _ w (add_pod_succeeds daemon_sets c pod w (k pod (Memᴰ.head refl)))
        (λ c' w'. fold_succeeds daemon_sets pods c' w' (λ other mem. k other (Memᴰ.tail mem)))

-- When the lists of daemon sets and of driver pods succeed, each daemon set wants as many pods as have
-- its UID in their first owner, and of every listed pod that is not both pending and without a node
-- the node can be read at any time: `BuildState` succeeds.
pub build_state_succeeds :
    {W : Type 0} (client : Client W) (m : ClusterUpgradeStateManager W) (namespace : String)
    (driver_labels : StringMap String) (w w' w'' : W) (listed : List DaemonSet) (pods : List Pod)
    → client.list_daemon_sets namespace driver_labels w ≡ (ok listed, w')
    → client.list_driver_pods namespace driver_labels w' ≡ (ok pods, w'')
    → ((uid : String) (ds : DaemonSet)
        → Memᴰ (uid, ds) (by_uid [] listed)
        → ds.desired_number_scheduled ≡ pos (count_if (is_of ds) pods))
    → ((pod : Pod) → Memᴰ pod pods → is_placed pod ≡ true → HasNode m pod)
    → is_ok (build_state client m namespace driver_labels w).0 ≡ true
unfolding add_pods get_orphaned_pods
build_state_succeeds client m namespace driver_labels w w' w'' listed pods lists_sets lists_pods
      complete has_node =
    let (owned, collected, goes_on) =
      build_state_accepts client m namespace driver_labels w w' w'' listed pods lists_sets
        lists_pods
        (λ uid ds mem. complete uid ds mem ∙ ap pos (sym (length-get_pods_owned_by_ds ds pods))) in
    rw goes_on (
      fold_succeeds m (by_uid [] listed) (owned ++ get_orphaned_pods pods) new_cluster_upgrade_state
        w''
        (λ pod mem. has_node pod (elim (append_cases owned mem) [
          | inl of_set ↦
              (collect_owned_pods_owned (by_uid [] listed) pods owned pod collected of_set).listed
          | inr orphaned ↦ (Memᴰ-select _ pod pods orphaned).0
        ])))
