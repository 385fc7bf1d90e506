-- ===== src/Tests/Managers.antt =====
-- The managers at concrete nodes and pods.
use k8s_operator_libs.Consts.{get_upgrade_state_label_key}
use k8s_operator_libs.Client.{reload}
use k8s_operator_libs.Prelude.{◌≡◌, refl, ◌==◌, not, ◌&&◌, ◌||◌, Bool, false, [], ◌∷◌}
use k8s_operator_libs.Act.{ok, ◌>>◌, pure}
use k8s_operator_libs.StringMap.{has, value_of, insert, delete}
use k8s_operator_libs.StringSet
use k8s_operator_libs.StringSet.{StringSet, StringSet-set_laws, new_string_set, add, remove, clear}
use k8s_operator_libs.Interfaces.{Held, of_node}
use k8s_operator_libs.System.{System}
use k8s_operator_libs.Provider.{
  change_node_upgrade_state, change_node_upgrade_annotation, annotation_is_synced, state_is_synced,
  annotation_patch_of,
}
use k8s_operator_libs.Provider.ReadBack.{
  change_node_upgrade_state_reads_back, change_node_upgrade_annotation_removes,
  change_node_upgrade_annotation_reads_back,
}
use k8s_operator_libs.Tests.Cluster.{client, client-PollLaws, driver, label_key, Cluster}
use k8s_operator_libs.Tests.Witnesses.{node_b, system}

abbrev held : Held (System Cluster)
held = record { node = node_b; world = system }

state_set : (change_node_upgrade_state client driver "upgrade-done" held).0 ≡ ok tt
unfolding change_node_upgrade_state ◌>>◌ state_is_synced reload of_node pure value_of insert
    get_upgrade_state_label_key
state_set = refl

change_node_upgrade_state_reads_back_example :
    value_of label_key (change_node_upgrade_state client driver "upgrade-done" held).1.node.labels
    ≡ "upgrade-done"
change_node_upgrade_state_reads_back_example =
    change_node_upgrade_state_reads_back client client-PollLaws driver "upgrade-done" held state_set

removed : (change_node_upgrade_annotation client "k" "null" held).0 ≡ ok tt
unfolding change_node_upgrade_annotation ◌>>◌ annotation_is_synced reload annotation_patch_of
    of_node has delete
removed = refl

change_node_upgrade_annotation_removes_example :
    has "k" (change_node_upgrade_annotation client "k" "null" held).1.node.annotations ≡ false
change_node_upgrade_annotation_removes_example =
    change_node_upgrade_annotation_removes client client-PollLaws "k" "null" held refl removed

set_to_v : (change_node_upgrade_annotation client "k" "v" held).0 ≡ ok tt
unfolding change_node_upgrade_annotation ◌>>◌ annotation_is_synced reload annotation_patch_of
    of_node value_of insert
set_to_v = refl

change_node_upgrade_annotation_reads_back_example :
    value_of "k" (change_node_upgrade_annotation client "k" "v" held).1.node.annotations ≡ "v"
change_node_upgrade_annotation_reads_back_example =
    change_node_upgrade_annotation_reads_back client client-PollLaws "k" "v" held (λ e. cc) set_to_v

abbrev two : StringSet
two = record { m = ("a", Bool.true) ∷ ("b", Bool.true) ∷ [] }

StringSet-set_laws_example :
    (StringSet.has "b" new_string_set ≡ false)
    × (StringSet.has "b" (add "a" two) ≡ ("a" == "b" || StringSet.has "b" two))
    × (StringSet.has "b" (remove "a" two) ≡ (not ("a" == "b") && StringSet.has "b" two))
    × (StringSet.has "b" (clear two) ≡ false)
StringSet-set_laws_example = StringSet-set_laws "a" "b" two
