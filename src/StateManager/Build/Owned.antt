-- ===== src/StateManager/Build/Owned.antt =====
-- The pods that `BuildState` collects belong to the daemon sets.
use mathlib.Core.Path.{subst}
use mathlib.Core.List.Memᴰ.{append_cases}
use k8s_operator_libs.Prelude.{
  String, ◌≡◌, refl, sym, Bool, true, false, List, [], ◌∷◌, Memᴰ, eq_iff, ◌==◌, ◌⊎◌, inl, inr,
  Memᴰ-select,
}
use k8s_operator_libs.Act.{ok, ok-injective}
use k8s_operator_libs.StringMap.{StringMap}
use k8s_operator_libs.Kube.{Pod, DaemonSet, OwnerReference}
use k8s_operator_libs.StateManager.Build.{is_owned_by, get_pods_owned_by_ds, collect_owned_pods}
use k8s_operator_libs.StateManager.Build.Complete.{collect_round}

-- The pod is listed, and its first owner is one of the daemon sets.
pub record IsOwnedBySome (daemon_sets : StringMap DaemonSet) (pods : List Pod) (pod : Pod)
    : Type 0 where
  pub listed : Memᴰ pod pods
  pub uid : String
  pub ds : DaemonSet
  pub member : Memᴰ (uid, ds) daemon_sets
  pub first : OwnerReference
  pub others : List OwnerReference
  pub owners : pod.owner_references ≡ first ∷ others
  pub same_uid : ds.uid ≡ first.uid

is_owned_by-first :
    (ds : DaemonSet) (owners : List OwnerReference)
    → elim owners as (λ _. Bool) [ [] ↦ false | owner ∷ _ ↦ ds.uid == owner.uid ] ≡ true
    → (first : OwnerReference) × (others : List OwnerReference) × (owners ≡ first ∷ others)
      × (ds.uid ≡ first.uid)
is_owned_by-first ds [] e = cc
is_owned_by-first ds (owner ∷ others) e = (owner, others, refl, (eq_iff ds.uid owner.uid).0 e)

get_pods_owned_by_ds-IsOwnedBySome :
    (daemon_sets : StringMap DaemonSet) (uid : String) (ds : DaemonSet) (pods : List Pod)
    (pod : Pod)
    → Memᴰ (uid, ds) daemon_sets
    → Memᴰ pod (get_pods_owned_by_ds ds pods)
    → IsOwnedBySome daemon_sets pods pod
unfolding get_pods_owned_by_ds is_owned_by
get_pods_owned_by_ds-IsOwnedBySome daemon_sets uid ds pods pod member owned =
    let (listed, is_owned) = Memᴰ-select (is_owned_by ds) pod pods owned in
    let (first, others, owners, same_uid) = is_owned_by-first ds pod.owner_references is_owned in
    record {
      listed = listed;
      uid = uid;
      ds = ds;
      member = member;
      first = first;
      others = others;
      owners = owners;
      same_uid = same_uid;
    }

-- The loop on the daemon sets that are left adds only such pods.
collect_owned_pods-from :
    (all rest : StringMap DaemonSet) (pods filtered collected : List Pod) (pod : Pod)
    → ((uid : String) (ds : DaemonSet) → Memᴰ (uid, ds) rest → Memᴰ (uid, ds) all)
    → collect_owned_pods rest pods filtered ≡ ok collected
    → Memᴰ pod collected
    → Memᴰ pod filtered ⊎ IsOwnedBySome all pods pod
unfolding collect_owned_pods
collect_owned_pods-from all [] pods filtered collected pod within e mem =
    inl (subst (Memᴰ pod) (sym (ok-injective e)) mem)
collect_owned_pods-from all ((u, ds) ∷ rest) pods filtered collected pod within e mem =
    elim (collect_owned_pods-from all rest pods _ collected pod
      (λ uid other later. within uid other (Memᴰ.tail later))
      (collect_round u ds rest pods filtered collected e).1 mem) [
        | inr owned ↦ inr owned
        | inl so_far ↦ elim (append_cases filtered so_far) [
          | inl old ↦ inl old
          | inr new ↦ inr (
              get_pods_owned_by_ds-IsOwnedBySome all u ds pods pod (within u ds (Memᴰ.head refl))
                new)
        ]
      ]

no_pod :
    {daemon_sets : StringMap DaemonSet} {pods : List Pod} {pod : Pod}
    → Memᴰ pod [] ⊎ IsOwnedBySome daemon_sets pods pod
    → IsOwnedBySome daemon_sets pods pod
no_pod (inl nowhere) = elim nowhere [ ]
no_pod (inr owned) = owned

-- When `BuildState` accepts the daemon sets, every pod that it has collected is one of the driver pods
-- and belongs to one of the daemon sets, by the UID of its first owner.
pub collect_owned_pods_owned :
    (daemon_sets : StringMap DaemonSet) (pods collected : List Pod) (pod : Pod)
    → collect_owned_pods daemon_sets pods [] ≡ ok collected
    → Memᴰ pod collected
    → IsOwnedBySome daemon_sets pods pod
collect_owned_pods_owned daemon_sets pods collected pod e mem =
    no_pod
      (collect_owned_pods-from daemon_sets daemon_sets pods [] collected pod (λ uid ds m. m) e mem)
