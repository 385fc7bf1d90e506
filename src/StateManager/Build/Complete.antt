-- ===== src/StateManager/Build/Complete.antt =====
-- Which pods `BuildState` collects for the daemon sets.
use mathlib.Core.Path.{subst}
use mathlib.Core.List.Memᴰ.{append_left, append_right}
use k8s_operator_libs.Prelude.{
  ℕ, String, ◌≡◌, refl, ap, Bool, true, false, not, ◌&&◌, List, [], ◌∷◌, ◌++◌, Memᴰ, arith, length,
  if◌then◌else◌,
}
use k8s_operator_libs.Prelude.Int.{ℤ, pos, negsuc, leb_ℤ}
use k8s_operator_libs.Act.{Error, Result, ok, err, ok-injective}
use k8s_operator_libs.StringMap.{StringMap}
use k8s_operator_libs.Kube.{Pod, DaemonSet}
use k8s_operator_libs.StateManager.Build.{get_pods_owned_by_ds, collect_owned_pods}

eq_of_leb : (a : ℤ) (n : ℕ) → (leb_ℤ a (pos n) && leb_ℤ (pos n) a) ≡ true → a ≡ pos n
eq_of_leb (pos a) n h = ground arith
eq_of_leb (negsuc a) n h = ground arith

accepted :
    {A : Type 0} (b : Bool) (x : Error) (r : Result A) (a : A)
    → (if not b then err x else r) ≡ ok a
    → (b ≡ true) × (r ≡ ok a)
accepted true x r a e = (refl, e)
accepted false x r a e = cc

-- One round of the loop that was passed.
pub collect_round :
    (uid : String) (ds : DaemonSet) (rest : StringMap DaemonSet)
    (pods filtered collected : List Pod)
    → collect_owned_pods ((uid, ds) ∷ rest) pods filtered ≡ ok collected
    → (ds.desired_number_scheduled ≡ pos (length (get_pods_owned_by_ds ds pods)))
      × (collect_owned_pods rest pods (filtered ++ get_pods_owned_by_ds ds pods) ≡ ok collected)
unfolding collect_owned_pods
collect_round uid ds rest pods filtered collected e =
    let (all, next) =
      accepted _ _ (collect_owned_pods rest pods (filtered ++ get_pods_owned_by_ds ds pods))
        collected e in
    (eq_of_leb ds.desired_number_scheduled (length (get_pods_owned_by_ds ds pods)) all, next)

collect_owned_pods-keeps :
    (daemon_sets : StringMap DaemonSet) (pods filtered collected : List Pod) (pod : Pod)
    → collect_owned_pods daemon_sets pods filtered ≡ ok collected
    → Memᴰ pod filtered
    → Memᴰ pod collected
unfolding collect_owned_pods
collect_owned_pods-keeps [] pods filtered collected pod e mem =
    subst (Memᴰ pod) (ok-injective e) mem
collect_owned_pods-keeps ((u, ds) ∷ rest) pods filtered collected pod e mem =
    collect_owned_pods-keeps rest pods _ collected pod
      (collect_round u ds rest pods filtered collected e).1 (append_left _ mem)

-- When `BuildState` accepts the daemon sets, every pod that one of them owns is collected.
pub collect_owned_pods_collects :
    (daemon_sets : StringMap DaemonSet) (pods filtered collected : List Pod) (uid : String)
    (ds : DaemonSet) (pod : Pod)
    → collect_owned_pods daemon_sets pods filtered ≡ ok collected
    → Memᴰ (uid, ds) daemon_sets
    → Memᴰ pod (get_pods_owned_by_ds ds pods)
    → Memᴰ pod collected
collect_owned_pods_collects [] pods filtered collected uid ds pod e mem owned = elim mem [ ]
collect_owned_pods_collects ((u, ds') ∷ rest) pods filtered collected uid ds pod e (Memᴰ.head same)
      owned =
    collect_owned_pods-keeps rest pods _ collected pod
      (collect_round u ds' rest pods filtered collected e).1
      (append_right filtered
        (subst (λ d. Memᴰ pod (get_pods_owned_by_ds d pods)) (ap (λ p. p.1) same) owned))
collect_owned_pods_collects ((u, ds') ∷ rest) pods filtered collected uid ds pod e (Memᴰ.tail mem)
      owned =
    collect_owned_pods_collects rest pods _ collected uid ds pod
      (collect_round u ds' rest pods filtered collected e).1 mem owned
