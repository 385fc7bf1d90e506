-- ===== src/Provider/ReadBack.antt =====
-- The object that a method of the provider hands back when it returns without an error. Nothing is
-- assumed here of the API server.
use mathlib.Core.Path.{subst}
use k8s_operator_libs.Prelude.{
  String, ◌≡◌, refl, sym, ap, ◌∙◌, Bool, true, false, eq_iff, ◌≢◌, arith,
}
use k8s_operator_libs.Act.{ok, Act}
use k8s_operator_libs.Act.Triple.{
  Triple, Triple-bind, Triple-then, Triple-pure, Triple-gets, Triple-weaken,
}
use k8s_operator_libs.StringMap.{has, value_of}
use k8s_operator_libs.Consts.{null_string, get_upgrade_state_label_key}
use k8s_operator_libs.Interfaces.{Held, of_node}
use k8s_operator_libs.Client.{Client}
use k8s_operator_libs.Client.Laws.{PollLaws}
use k8s_operator_libs.Provider.{
  annotation_matches, state_is_synced, change_node_upgrade_state, annotation_is_synced,
  change_node_upgrade_annotation,
}

-- Nothing is asked of the state before.
abbrev pub Any : {S : Type 0} → S → Type 0
Any _ = Unit {0}

module _ {W : Type 0} (client : Client W) (poll : PollLaws client) where
  -- A poll that succeeds has just seen its condition hold.
  poll_immediate_until-Triple :
      (Q : Held W → Type 0) (condition : Act (Held W) Bool)
      → Triple Any condition (λ holds h. holds ≡ true → Q h)
      → Triple Any (client.poll_immediate_until condition) (λ _ h. Q h)
  poll_immediate_until-Triple Q condition k = record {
    at = λ h p a e.
        let (before, seen) = poll.satisfied condition h e in
        subst Q (ap (λ r. r.1) seen) (k.at before tt true (ap (λ r. r.0) seen) refl);
  }

  state_is_synced-Triple :
      (driver_name new_state : String)
      → Triple Any (state_is_synced client driver_name new_state) (λ synced h.
        synced ≡ true
        → value_of (get_upgrade_state_label_key driver_name) h.node.labels ≡ new_state)
  unfolding state_is_synced of_node
  state_is_synced-Triple driver_name new_state =
      Triple-then (λ _. Any) _ _ (record { at = λ _ _ _ _. tt })
        λ _.
          Triple-bind _ _ _
            (Triple-gets λ h. value_of (get_upgrade_state_label_key driver_name) h.node.labels)
            λ node_state.
              Triple-pure _ λ h read synced. sym read.1 ∙ (eq_iff node_state new_state).0 synced

  pub change_node_upgrade_state-Triple :
      (driver_name new_state : String)
      → Triple Any
          (change_node_upgrade_state client driver_name new_state)
          (λ _ h. value_of (get_upgrade_state_label_key driver_name) h.node.labels ≡ new_state)
  unfolding change_node_upgrade_state
  change_node_upgrade_state-Triple driver_name new_state =
      Triple-then (λ _. Any) _ _ (record { at = λ _ _ _ _. tt })
        (λ _. poll_immediate_until-Triple _ _ (state_is_synced-Triple driver_name new_state))

  annotation_is_synced-Triple :
      (key value : String)
      → Triple Any
          (annotation_is_synced client key value)
          (λ synced h. synced ≡ true → annotation_matches key value h.node ≡ true)
  unfolding annotation_is_synced of_node
  annotation_is_synced-Triple key value =
      Triple-then (λ _. Any) _ _ (record { at = λ _ _ _ _. tt })
        λ _.
          Triple-weaken (λ _ p. p) (λ matches h read synced. sym read.1 ∙ synced)
            (Triple-gets λ h. annotation_matches key value h.node)

  pub change_node_upgrade_annotation-Triple :
      (key value : String)
      → Triple Any
          (change_node_upgrade_annotation client key value)
          (λ _ h. annotation_matches key value h.node ≡ true)
  unfolding change_node_upgrade_annotation
  change_node_upgrade_annotation-Triple key value =
      Triple-then (λ _. Any) _ _ (record { at = λ _ _ _ _. tt })
        (λ _. poll_immediate_until-Triple _ _ (annotation_is_synced-Triple key value))

  -- Where a poll succeeds only when its condition has just held: when `ChangeNodeUpgradeState`
  -- returns no error, the node object that it hands back carries the new state in its label,
  -- whatever the API server and the cache have done.
  pub change_node_upgrade_state_reads_back :
      (driver_name new_state : String) (h : Held W)
      → (change_node_upgrade_state client driver_name new_state h).0 ≡ ok tt
      → value_of
          (get_upgrade_state_label_key driver_name)
          (change_node_upgrade_state client driver_name new_state h).1.node.labels
        ≡ new_state
  change_node_upgrade_state_reads_back driver_name new_state h e =
      (change_node_upgrade_state-Triple driver_name new_state).at h tt tt e

  -- Where a poll succeeds only when its condition has just held: when `ChangeNodeUpgradeAnnotation`
  -- is asked to remove an annotation, with the value "null", and returns no error, the node object
  -- that it hands back does not have the annotation.
  pub change_node_upgrade_annotation_removes :
      (key value : String) (h : Held W)
      → value ≡ null_string
      → (change_node_upgrade_annotation client key value h).0 ≡ ok tt
      → has key (change_node_upgrade_annotation client key value h).1.node.annotations ≡ false
  change_node_upgrade_annotation_removes key value h removed e =
      let matches = (change_node_upgrade_annotation-Triple key value).at h tt tt e in
      ground (arith, eq_iff value null_string)

  -- Where a poll succeeds only when its condition has just held: when `ChangeNodeUpgradeAnnotation`
  -- is asked for any other value and returns no error, the node object that it hands back has the
  -- value in the annotation.
  pub change_node_upgrade_annotation_reads_back :
      (key value : String) (h : Held W)
      → value ≢ null_string
      → (change_node_upgrade_annotation client key value h).0 ≡ ok tt
      → value_of key (change_node_upgrade_annotation client key value h).1.node.annotations ≡ value
  change_node_upgrade_annotation_reads_back key value h kept e =
      let node = (change_node_upgrade_annotation client key value h).1.node in
      let matches = (change_node_upgrade_annotation-Triple key value).at h tt tt e in
      ground (arith, eq_iff value null_string, eq_iff (value_of key node.annotations) value)
