-- ===== src/Tests/Evictions.antt =====
-- An eviction goroutine at a cluster that deletes no pod.
use k8s_operator_libs.Prelude.{String, ◌≡◌, ◌≢◌, ◌⊎◌, List, count_if, ◌∙◌, ap, refl, arith}
use k8s_operator_libs.Act.{ok, ok-injective}
use k8s_operator_libs.Kube.{Pod}
use k8s_operator_libs.System.{System}
use k8s_operator_libs.Provider.{new_node_upgrade_state_provider}
use k8s_operator_libs.Pods.{run_eviction_task}
use k8s_operator_libs.Manager.Evictions.{FallsBack, failed_eviction_not_restarted}
use k8s_operator_libs.Tests.Cluster.{Cluster, driver, label}
use k8s_operator_libs.Tests.Witnesses.{cluster, system}
use k8s_operator_libs.Tests.Goroutines.{every_pod, evict_b}
use k8s_operator_libs.Tests.Outcomes.{stuck, stuck-PollLaws, stuck-LabelLaws}

abbrev after_stuck : System Cluster
after_stuck =
    (run_eviction_task stuck (new_node_upgrade_state_provider stuck driver) every_pod evict_b
      system).1

a_pod_listed :
    (pods : List Pod) (s : System Cluster)
    → (stuck.list_pods "" "b" s).0 ≡ ok pods
    → count_if every_pod pods ≢ 0
a_pod_listed pods s e none_listed =
    absurd (omega (arith, ap (count_if every_pod) (ok-injective e) ∙ none_listed))

failed_eviction_not_restarted_example :
    (label after_stuck.api "b" ≡ label cluster "b")
    ⊎ ((◌≡◌ {A = String} "b" "b") × FallsBack evict_b.drain_enabled (label after_stuck.api "b"))
failed_eviction_not_restarted_example =
    failed_eviction_not_restarted stuck label driver stuck-PollLaws stuck-LabelLaws every_pod
      evict_b system "b" (λ pods w. refl) a_pod_listed
