-- ===== src/Provider/Labels.antt =====
-- The provider of node_upgrade_state_provider.go, and its contract on labels.
use k8s_operator_libs.Prelude.{String, ◌≡◌, refl, sym, ap, ◌∙◌, inl, inr, Bool-cases, ◌==◌}
use mathlib.Core.Path.{subst₂}
use k8s_operator_libs.Act.{Result, ok, err}
use k8s_operator_libs.Act.Follows.{Preorder, Follows, follows_rules, Follows-then}
use k8s_operator_libs.Kube.{Node}
use k8s_operator_libs.Consts.{null_string, get_upgrade_state_label_key}
use k8s_operator_libs.Interfaces.Contracts.{writes, named, Follows-of_node, ProviderWrites}
use k8s_operator_libs.Client.{Client, label_patch, reload, reloaded}
use k8s_operator_libs.Client.Laws.{PollLaws, LabelLaws}
use k8s_operator_libs.Provider.{
  get_node, state_is_synced, change_node_upgrade_state, annotation_patch_of, annotation_is_synced,
  change_node_upgrade_annotation, new_node_upgrade_state_provider,
}

module _ {W : Type 0} (client : Client W) (state_label : W → String → String) (driver_name : String)
    (poll : PollLaws client)
    (laws : LabelLaws client state_label (get_upgrade_state_label_key driver_name))
    (P : String → String → Type 0) where
  abbrev allowed : Preorder W
  allowed = writes state_label P

  get_node-Follows : (name : String) → Follows allowed (get_node client name)
  unfolding get_node writes
  get_node-Follows name = record { at = λ w other. inl (laws.get-label name other w) }

  -- The object is replaced by one of the same name, or it stays.
  reloaded_name :
      (name : String) (old : Node) (r : Result Node) (w : W)
      → old.name ≡ name
      → ((n : Node) → r ≡ ok n → n.name ≡ old.name)
      → (reloaded old r w).1.node.name ≡ name
  reloaded_name name old (ok n) w e k = k n refl ∙ e
  reloaded_name name old (err x) w e k = e

  reloaded_world : (old : Node) (r : Result Node) (w : W) → (reloaded old r w).1.world ≡ w
  reloaded_world old (ok n) w = refl
  reloaded_world old (err x) w = refl

  reload-Follows : (name : String) → Follows (named name allowed) (reload client)
  unfolding reload named writes
  reload-Follows name = record {
    at = λ h e.
        let (r, w) = client.get h.node.name h.world in
        (
          reloaded_name name h.node r w e (λ n got. laws.get-name h.node.name h.world n got),
          λ other. inl (
              ap (λ w. state_label w other) (reloaded_world h.node r w)
              ∙ laws.get-label h.node.name other h.world),
        );
  }

  pub state_is_synced-Follows :
      (name new_state : String)
      → Follows (named name allowed) (state_is_synced client driver_name new_state)
  unfolding state_is_synced
  state_is_synced-Follows name new_state = search (follows_rules, Follows-of_node, reload-Follows)

  annotation_is_synced-Follows :
      (name key value : String)
      → Follows (named name allowed) (annotation_is_synced client key value)
  unfolding annotation_is_synced
  annotation_is_synced-Follows name key value =
      search (follows_rules, Follows-of_node, reload-Follows)

  label_patch-Follows :
      (name new_state : String)
      → P name new_state
      → Follows
          (named name allowed)
          (client.patch (label_patch (get_upgrade_state_label_key driver_name) new_state))
  unfolding named writes
  label_patch-Follows name new_state p = record {
    at = λ h e. (
      laws.patch-name _ h ∙ e,
      λ other. elim (laws.patch-label new_state other h) [
        | inl same ↦ inl same
        | inr (here, written) ↦ inr (subst₂ P (sym (here ∙ e)) (sym written) p)
      ],
    );
  }

  annotation_patch-Follows :
      (name key value : String)
      → Follows (named name allowed) (client.patch (annotation_patch_of key value))
  unfolding named writes annotation_patch_of
  annotation_patch-Follows name key value = elim (Bool-cases (value == null_string)) [
    | inl removal ↦ rw removal (record {
      at = λ h e.
          (laws.patch-name _ h ∙ e, λ other. inl (laws.annotation_removal-label key other h));
    })
    | inr change ↦ rw change (record {
      at = λ h e.
          (laws.patch-name _ h ∙ e, λ other. inl (laws.annotation_patch-label key value other h));
    })
  ]

  change_node_upgrade_state-Follows :
      (name new_state : String)
      → P name new_state
      → Follows (named name allowed) (change_node_upgrade_state client driver_name new_state)
  unfolding change_node_upgrade_state
  change_node_upgrade_state-Follows name new_state p =
      Follows-then _ _ (label_patch-Follows name new_state p)
        (poll.only_condition _ _ (state_is_synced-Follows name new_state))

  change_node_upgrade_annotation-Follows :
      (name key value : String)
      → Follows (named name allowed) (change_node_upgrade_annotation client key value)
  unfolding change_node_upgrade_annotation
  change_node_upgrade_annotation-Follows name key value =
      Follows-then _ _ (annotation_patch-Follows name key value)
        (poll.only_condition _ _ (annotation_is_synced-Follows name key value))

-- The provider of this repository writes at most the state label of its node, and only the state that
-- it is asked for, whether its calls succeed or fail: it fills the contract that the state manager
-- relies on, from the laws of the clients.
pub provider-ProviderWrites :
    {W : Type 0} (client : Client W) (state_label : W → String → String) (driver_name : String)
    → PollLaws client
    → LabelLaws client state_label (get_upgrade_state_label_key driver_name)
    → ProviderWrites state_label (new_node_upgrade_state_provider client driver_name)
unfolding new_node_upgrade_state_provider
provider-ProviderWrites client state_label driver_name poll laws = record {
  get_node = get_node-Follows client state_label driver_name poll laws;
  change_state = change_node_upgrade_state-Follows client state_label driver_name poll laws;
  change_annotation =
      change_node_upgrade_annotation-Follows client state_label driver_name poll laws;
}
