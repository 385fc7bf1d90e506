-- ===== src/Provider/Sets.antt =====
-- What the provider has written at the API server when it returns without an error.
use mathlib.Core.Path.{subst}
use k8s_operator_libs.Prelude.{String, ◌≡◌, refl, ◌∙◌, inl, inr}
use k8s_operator_libs.Act.Triple.{Triple, Triple-then, Triple-of_Follows}
use k8s_operator_libs.Consts.{get_upgrade_state_label_key}
use k8s_operator_libs.Interfaces.{Held}
use k8s_operator_libs.Interfaces.Contracts.{writes, named}
use k8s_operator_libs.Interfaces.Successes.{ProviderSets, IsNamed}
use k8s_operator_libs.Client.{Client, label_patch}
use k8s_operator_libs.Client.Laws.{PatchSets, PollLaws, LabelLaws}
use k8s_operator_libs.Provider.{change_node_upgrade_state, new_node_upgrade_state_provider}
use k8s_operator_libs.Provider.Labels.{state_is_synced-Follows}

module _ {W : Type 0} (client : Client W) (state_label : W → String → String) (driver_name : String)
    (poll : PollLaws client)
    (laws : LabelLaws client state_label (get_upgrade_state_label_key driver_name))
    (sets : PatchSets client state_label (get_upgrade_state_label_key driver_name)) where
  -- The object is that of the node, and the node's label is the new state.
  record IsWritten (name new_state : String) (h : Held W) : Type 0 where
    is_named : IsNamed name h
    is_written : state_label h.world name ≡ new_state

  patch-IsWritten :
      (name new_state : String)
      → Triple
          (IsNamed name)
          (client.patch (label_patch (get_upgrade_state_label_key driver_name) new_state))
          (λ _. IsWritten name new_state)
  patch-IsWritten name new_state = record {
    at = λ h is_named _ e.
        let after =
          client.patch (label_patch (get_upgrade_state_label_key driver_name) new_state) h in
        record {
          is_named = laws.patch-name _ h ∙ is_named;
          is_written =
              subst (λ n. state_label after.1.world n ≡ new_state) is_named
                (sets.patch-sets new_state h e);
        };
  }

  change_node_upgrade_state-IsWritten :
      (name new_state : String)
      → Triple
          (IsNamed name)
          (change_node_upgrade_state client driver_name new_state)
          (λ _. IsWritten name new_state)
  unfolding change_node_upgrade_state named writes
  change_node_upgrade_state-IsWritten name new_state =
      Triple-then (λ _. IsWritten name new_state) _ _ (patch-IsWritten name new_state)
        λ _.
          Triple-of_Follows (IsWritten name new_state) _
            (poll.only_condition _ _ (
              state_is_synced-Follows client state_label driver_name poll laws
                (λ _ state. state ≡ new_state) name new_state))
            λ h h' follows before.
              let (is_named, written) = follows before.is_named in
              record {
                is_named = is_named;
                is_written = elim (written name) [
                  | inl same ↦ same ∙ before.is_written
                  | inr new ↦ new
                ];
              }

  -- When the provider of this repository reports that it has changed the state, the label of the node
  -- is the new state at the API server.
  pub provider-ProviderSets :
      ProviderSets state_label (new_node_upgrade_state_provider client driver_name)
  unfolding new_node_upgrade_state_provider
  provider-ProviderSets = record {
    change_state = λ new_state h e.
        ((change_node_upgrade_state-IsWritten h.node.name new_state).at h refl tt e).is_written;
  }
