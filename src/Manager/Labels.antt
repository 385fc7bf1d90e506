-- ===== src/Manager/Labels.antt =====
-- The managers of this repository, and the contracts on labels.
use k8s_operator_libs.Prelude.{String, ◌∙◌, inl, Bool, true, List, [], ◌∷◌}
use k8s_operator_libs.Prelude.Int.{ℤ}
use k8s_operator_libs.Act.{Act}
use k8s_operator_libs.Act.Follows.{Preorder, Follows, follows_rules, Follows-pure}
use k8s_operator_libs.Kube.{Pod}
use k8s_operator_libs.Consts.{upgrade_state_failed}
use k8s_operator_libs.Interfaces.{NodeUpgradeStateProvider}
use k8s_operator_libs.Interfaces.Contracts.{writes, named, node_rules, ProviderWrites}
use k8s_operator_libs.Client.{Client}
use k8s_operator_libs.Client.Laws.{LabelLaws, KeepsLabels}
use k8s_operator_libs.SafeDriverLoad.{unblock_loading}
use k8s_operator_libs.Timeout.{handle_timeout}
use k8s_operator_libs.Validation.{validate_pods, validate}

-- A call that keeps every label follows every such relation.
pub Follows_of_KeepsLabels :
    {W A : Type 0} {state_label : W → String → String} (P : String → String → Type 0) (m : Act W A)
    → KeepsLabels state_label m
    → Follows (writes state_label P) m
unfolding writes
Follows_of_KeepsLabels P m k = record { at = λ w other. inl (k other w) }

module _ {W : Type 0} (client : Client W) (state_label : W → String → String) (label_key : String)
    (laws : LabelLaws client state_label label_key) (provider : NodeUpgradeStateProvider W)
    (provided : ProviderWrites state_label provider) (P : String → String → Type 0) where
  abbrev allowed : Preorder W
  allowed = writes state_label P

  pub cordon-Follows :
      (name : String) (desired : Bool)
      → Follows (named name allowed) (client.run_cordon_or_uncordon desired)
  unfolding named writes
  cordon-Follows name desired = record {
    at = λ h e. (laws.cordon-name desired h ∙ e, λ other. inl (laws.cordon-label desired other h));
  }

  pub change_annotation-Follows :
      (name key value : String)
      → Follows (named name allowed) (provider.change_node_upgrade_annotation key value)
  change_annotation-Follows = provided.change_annotation P

  pub change_state-Follows :
      (name new_state : String)
      → P name new_state
      → Follows (named name allowed) (provider.change_node_upgrade_state new_state)
  change_state-Follows = provided.change_state P

  pub now-Follows : Follows allowed client.now
  now-Follows = Follows_of_KeepsLabels P _ laws.now-label

  pub list_pods-Follows :
      (selector name : String) → Follows allowed (client.list_pods selector name)
  list_pods-Follows selector name = Follows_of_KeepsLabels P _ (laws.list_pods-label selector name)

  pub unblock_loading-Follows :
      (driver_name name : String)
      → Follows (named name allowed) (unblock_loading provider driver_name)
  unfolding unblock_loading
  unblock_loading-Follows driver_name name =
      search (follows_rules, node_rules, change_annotation-Follows)

  pub handle_timeout-Follows :
      (name key next_state : String) (timeout : ℤ)
      → P name next_state
      → Follows (named name allowed) (handle_timeout client provider key next_state timeout)
  unfolding handle_timeout
  handle_timeout-Follows name key next_state timeout p =
      search
        (follows_rules, node_rules, change_annotation-Follows, change_state-Follows, now-Follows)
        depth 12

  validate_pods-Follows :
      (driver_name name : String) (pods : List Pod)
      → P name upgrade_state_failed
      → Follows (named name allowed) (validate_pods client provider driver_name pods)
  unfolding validate_pods
  validate_pods-Follows driver_name name [] p = Follows-pure true
  validate_pods-Follows driver_name name (pod ∷ pods) p =
      let rest = validate_pods-Follows driver_name name pods p in
      search (follows_rules, node_rules, change_annotation-Follows, handle_timeout-Follows) depth 12

  pub validate-Follows :
      (driver_name name selector : String)
      → P name upgrade_state_failed
      → Follows (named name allowed) (validate client provider driver_name selector)
  unfolding validate
  validate-Follows driver_name name selector p =
      search (follows_rules, node_rules, list_pods-Follows, validate_pods-Follows) depth 12
