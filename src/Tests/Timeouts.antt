-- ===== src/Tests/Timeouts.antt =====
-- The clock of a timeout at a concrete node.
use k8s_operator_libs.Prelude.{String, ◌≡◌, refl, false, arith, if◌then◌else◌}
use k8s_operator_libs.Prelude.Int.{pos, ◌+ℤ◌, ltb_ℤ}
use k8s_operator_libs.Act.{ok, ignore, ◌>>◌, ◌>>=◌}
use k8s_operator_libs.StringMap.{has, value_of, insert}
use k8s_operator_libs.Strconv.{format_int}
use k8s_operator_libs.Strconv.RoundTrip.{IsInt64}
use k8s_operator_libs.Consts.{null_string, get_validation_start_time_annotation_key}
use k8s_operator_libs.Interfaces.{Held, in_world, of_node}
use k8s_operator_libs.Client.{reload}
use k8s_operator_libs.System.{System}
use k8s_operator_libs.Provider.{
  new_node_upgrade_state_provider, change_node_upgrade_state, change_node_upgrade_annotation,
  annotation_patch_of, annotation_is_synced,
}
use k8s_operator_libs.Timeout.{handle_timeout}
use k8s_operator_libs.Timeout.Clock.{timeout_counts_from_first_call}
use k8s_operator_libs.Tests.Cluster.{Cluster, client, client-PollLaws, driver}
use k8s_operator_libs.Tests.Witnesses.{system, node_a}

abbrev key : String
key = get_validation_start_time_annotation_key driver

abbrev held_a : Held (System Cluster)
held_a = record { node = node_a; world = system }

-- The first call, at the time 1000.
abbrev first : Held (System Cluster)
first =
    (handle_timeout client (new_node_upgrade_state_provider client driver) key "upgrade-failed"
      (pos 600) held_a).1

-- The node at the time 2000.
abbrev later : Held (System Cluster)
later = record first {
  world = record first.world { api = record first.world.api { clock = pos 2000 } };
}

no_annotation : has key held_a.node.annotations ≡ false
unfolding has
no_annotation = refl

first_fine :
    (handle_timeout client
      (new_node_upgrade_state_provider client driver)
      key
      "upgrade-failed"
      (pos 600)
      held_a).0
    ≡ ok tt
unfolding handle_timeout ◌>>=◌ in_world of_node has new_node_upgrade_state_provider ◌>>◌
    annotation_is_synced reload annotation_patch_of format_int value_of insert
    get_validation_start_time_annotation_key
first_fine = refl

sum_fits : IsInt64 (pos 1000 +ℤ pos 600)
unfolding ◌+ℤ◌
sum_fits = omega arith

timeout_counts_from_first_call_example :
    handle_timeout client
      (new_node_upgrade_state_provider client driver)
      key
      "upgrade-failed"
      (pos 600)
      later
    ≡ (if ltb_ℤ (pos 1000 +ℤ pos 600) (pos 2000)
        then (ignore (change_node_upgrade_state client driver "upgrade-failed")
              >> change_node_upgrade_annotation client key null_string)
            later
        else (ok tt, later))
timeout_counts_from_first_call_example =
    timeout_counts_from_first_call client client-PollLaws driver key "upgrade-failed" (pos 600)
      (pos 1000) (pos 2000) held_a later system later.world (omega arith) sum_fits refl
      no_annotation first_fine refl refl
