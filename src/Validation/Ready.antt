-- ===== src/Validation/Ready.antt =====
-- What a validation that is done has found.
use k8s_operator_libs.Prelude.{
  String, ◌≡◌, ◌≢◌, eq_iff, refl, ap, ◌∙◌, Bool, true, false, not, List, [], ◌∷◌, Memᴰ, arith,
  is_empty,
}
use k8s_operator_libs.Act.{ok, ◌>>◌}
use k8s_operator_libs.Act.Follows.{Returns, Returns-bind, Returns-pure}
use k8s_operator_libs.Act.Loops.{Returns-if_of_test}
use k8s_operator_libs.Kube.{Pod, ContainerStatus}
use k8s_operator_libs.StateManager.Nodes.{all_ready}
use k8s_operator_libs.Interfaces.{Held, NodeUpgradeStateProvider}
use k8s_operator_libs.Client.{Client}
use k8s_operator_libs.Validation.{is_pod_ready, validate_pods}

pub record IsRunningReady (pod : Pod) : Type 0 where
  pub phase : pod.phase ≡ "Running"
  pub some_container : pod.container_statuses ≢ []
  pub ready :
      (container : ContainerStatus) → Memᴰ container pod.container_statuses → container.ready ≡ true

all_ready-each :
    (container : ContainerStatus) (containers : List ContainerStatus)
    → all_ready containers ≡ true
    → Memᴰ container containers
    → container.ready ≡ true
unfolding all_ready
all_ready-each container [] e mem = elim mem [ ]
all_ready-each container (c ∷ rest) e (Memᴰ.head same) =
    let here : c.ready ≡ true = ground arith in ap (λ x. x.ready) same ∙ here
all_ready-each container (c ∷ rest) e (Memᴰ.tail mem) =
    all_ready-each container rest (ground arith) mem

is_pod_ready-IsRunningReady : (pod : Pod) → is_pod_ready pod ≡ true → IsRunningReady pod
unfolding is_pod_ready
is_pod_ready-IsRunningReady pod e = record {
  phase = (eq_iff pod.phase "Running").0 (ground arith);
  some_container = λ nothing. let empty = ap is_empty nothing in absurd (ground arith);
  ready = λ container. all_ready-each container pod.container_statuses (ground arith);
}

module _ {W : Type 0} (client : Client W) (provider : NodeUpgradeStateProvider W)
    (driver_name : String) where
  record AllReady (pods : List Pod) (done : Bool) : Type 0 where
    ready : done ≡ true → (pod : Pod) → Memᴰ pod pods → is_pod_ready pod ≡ true

  AllReady-front :
      (pod : Pod) (pods : List Pod) (done : Bool)
      → is_pod_ready pod ≡ true
      → AllReady pods done
      → AllReady (pod ∷ pods) done
  AllReady-front pod pods done here k = record {
    ready = λ e other mem. elim mem [
      | Memᴰ.head same ↦ ap is_pod_ready same ∙ here
      | Memᴰ.tail m ↦ k.ready e other m
    ];
  }

  validate_pods-Returns :
      (pods : List Pod) → Returns (AllReady pods) (validate_pods client provider driver_name pods)
  unfolding validate_pods ◌>>◌
  validate_pods-Returns [] = Returns-pure true (record { ready = λ e pod mem. elim mem [ ] })
  validate_pods-Returns (pod ∷ pods) =
      Returns-if_of_test (not (is_pod_ready pod)) _ _
        (λ waits. Returns-bind _ _ (λ _. Returns-pure false (record { ready = λ e other mem. cc })))
        (λ here. Returns-bind _ _ (λ _. record {
          at = λ h done e.
              AllReady-front pod pods done (ground arith)
                ((validate_pods-Returns pods).at h done e);
        }))

  -- When the loop of `Validate` reports that the validation is done, every pod that was listed is in
  -- the phase "Running", has a container, and each of its containers is ready.
  pub validate_pods_all_ready :
      (pods : List Pod) (h : Held W) (pod : Pod)
      → (validate_pods client provider driver_name pods h).0 ≡ ok true
      → Memᴰ pod pods
      → IsRunningReady pod
  validate_pods_all_ready pods h pod e mem =
      is_pod_ready-IsRunningReady pod
        (((validate_pods-Returns pods).at h true e).ready refl pod mem)
