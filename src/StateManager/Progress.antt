-- ===== src/StateManager/Progress.antt =====
-- The handlers of upgrade_state.go that move each node of their group on, when they succeed.
pub mod Settled
pub mod Whole
use mathlib.Core.Path.{subst}
use k8s_operator_libs.Prelude.{
  String, ◌≡◌, refl, sym, ◌∙◌, inl, inr, false, List, [], ◌∷◌, Memᴰ, Option,
}
use k8s_operator_libs.Act.{ok, Act, for_each, ◌>>=◌, ◌>>◌, pure}
use k8s_operator_libs.Act.Follows.{Preorder, Follows, Follows-then, Follows-for_each, Follows-pure}
use k8s_operator_libs.Act.Triple.{
  Triple, Triple-then, Triple-pure, Triple-weaken, Triple-of_Follows, Triple-both,
}
use k8s_operator_libs.Api.{DrainSpec}
use k8s_operator_libs.Consts.{
  upgrade_state_cordon_required, upgrade_state_wait_for_jobs_required,
  upgrade_state_uncordon_required, upgrade_state_done, upgrade_state_drain_required,
  upgrade_state_pod_restart_required,
}
use k8s_operator_libs.Interfaces.{Held, on_node}
use k8s_operator_libs.Interfaces.Contracts.{writes, named, Follows-on_node}
use k8s_operator_libs.Interfaces.Successes.{ProviderSets, IsNamed, Triple-IsNamed, Triple-on_node}
use k8s_operator_libs.StateManager.{
  NodeUpgradeState, ClusterUpgradeState, ClusterUpgradeStateManager, nodes_in,
}
use k8s_operator_libs.StateManager.Process.{
  change_state, process_cordon_required_node, process_cordon_required_nodes,
  process_uncordon_required_node, process_uncordon_required_nodes, is_drain_enabled,
  process_drain_nodes,
}
use k8s_operator_libs.StateManager.Transitions.{ManagerWrites}

-- Nothing is asked of the world before.
abbrev pub Anything : {W : Type 0} → W → Type 0
Anything _ = Unit {0}

module _ {W : Type 0} (state_label : W → String → String) (Target : String → Type 0) where
  -- Only states with `Target` are written.
  abbrev pub OnlyTarget : Preorder W
  OnlyTarget = writes state_label (λ _ state. Target state)

  abbrev pub IsThere : NodeUpgradeState → W → Type 0
  IsThere nus w = Target (state_label w nus.node.name)

  OnlyTarget-IsThere :
      (nus : NodeUpgradeState) (w w' : W) → OnlyTarget.rel w w' → IsThere nus w → IsThere nus w'
  unfolding writes
  OnlyTarget-IsThere nus w w' r there = elim (r nus.node.name) [
    | inl same ↦ subst Target (sym same) there
    | inr written ↦ written
  ]

  -- A loop whose rounds each bring their node to `Target`, and write nothing else, brings all there.
  pub for_each-IsThere :
      (f : NodeUpgradeState → Act W Unit)
      → ((nus : NodeUpgradeState) → Follows OnlyTarget (f nus))
      → ((nus : NodeUpgradeState) → Triple Anything (f nus) (λ _. IsThere nus))
      → (bucket : List NodeUpgradeState)
      → Triple Anything
          (for_each bucket f)
          (λ _ w. (nus : NodeUpgradeState) → Memᴰ nus bucket → IsThere nus w)
  unfolding for_each
  for_each-IsThere f only there [] = Triple-pure tt (λ w _ nus mem. elim mem [ ])
  for_each-IsThere f only there (first ∷ rest) =
      Triple-then (λ _. IsThere first) _ _ (there first)
        λ _.
          Triple-weaken (λ _ p. p)
            (λ _ w (here, behind) nus mem. elim mem [
              | Memᴰ.head same ↦ subst (λ n. IsThere n w) (sym same) here
              | Memᴰ.tail m ↦ behind nus m
            ])
            (Triple-both _
              (Triple-of_Follows (IsThere first) _ (Follows-for_each rest f (λ nus _. only nus))
                (OnlyTarget-IsThere first))
              (Triple-weaken (λ _ _. tt) (λ _ _ q. q) (for_each-IsThere f only there rest)))

module _ {W : Type 0} (state_label : W → String → String) (m : ClusterUpgradeStateManager W)
    (laws : ManagerWrites state_label m)
    (sets : ProviderSets state_label m.node_upgrade_state_provider) where
  pub change_state-Triple :
      (name target : String)
      → Triple (IsNamed name) (change_state m target) (λ _ h. state_label h.world name ≡ target)
  change_state-Triple name target = record {
    at = λ h named _ e.
        subst (λ n. state_label (change_state m target h).1.world n ≡ target) named
          (sets.change_state target h e);
  }

  module _ (target : String) (before : Act (Held W) Unit)
      (quiet : (name : String)
        → Follows (named name (OnlyTarget state_label (λ state. state ≡ target))) before) where
    body : NodeUpgradeState → Act W Unit
    body nus = on_node nus.node (before >> change_state m target)

    body-Follows :
        (nus : NodeUpgradeState)
        → Follows (OnlyTarget state_label (λ state. state ≡ target)) (body nus)
    unfolding body
    body-Follows nus = Follows-on_node nus.node _ (
        Follows-then _ _ (quiet nus.node.name)
          (laws.provider.change_state _ nus.node.name target refl))

    body-IsThere :
        (nus : NodeUpgradeState)
        → Triple Anything (body nus) (λ _. IsThere state_label (λ state. state ≡ target) nus)
    unfolding body
    body-IsThere nus = Triple-on_node nus.node _ (
        Triple-weaken (λ _ p. p.0) (λ _ _ q. q)
          (Triple-then (λ _. IsNamed nus.node.name) before _
            (Triple-IsNamed _ nus.node.name before (quiet nus.node.name))
            (λ _. change_state-Triple nus.node.name target)))

    bucket-IsThere :
        (bucket : List NodeUpgradeState) (w : W) (nus : NodeUpgradeState)
        → (for_each bucket body w).0 ≡ ok tt
        → Memᴰ nus bucket
        → state_label (for_each bucket body w).1 nus.node.name ≡ target
    bucket-IsThere bucket w nus e mem =
        (for_each-IsThere state_label (λ state. state ≡ target) body body-Follows body-IsThere
            bucket).at
          w tt tt e nus mem

  -- With managers that meet the contracts of the interfaces, and a provider that has written the
  -- label when it reports no error: when `ProcessCordonRequiredNodes` succeeds, each node of its
  -- group waits for its jobs: its label is "wait-for-jobs-required".
  pub process_cordon_required_nodes_progress :
      (c : ClusterUpgradeState) (w : W) (nus : NodeUpgradeState)
      → (process_cordon_required_nodes m c w).0 ≡ ok tt
      → Memᴰ nus (nodes_in c upgrade_state_cordon_required)
      → state_label (process_cordon_required_nodes m c w).1 nus.node.name
        ≡ upgrade_state_wait_for_jobs_required
  unfolding process_cordon_required_nodes process_cordon_required_node body
  process_cordon_required_nodes_progress c =
      bucket-IsThere upgrade_state_wait_for_jobs_required m.cordon_manager.cordon
        (λ name. laws.cordon_manager.cordon _ name) (nodes_in c upgrade_state_cordon_required)

  -- With managers that meet the contracts of the interfaces, and a provider that has written the
  -- label when it reports no error: when `ProcessUncordonRequiredNodes` succeeds, the upgrade of
  -- each node of its group is done: its label is "upgrade-done".
  pub process_uncordon_required_nodes_progress :
      (c : ClusterUpgradeState) (w : W) (nus : NodeUpgradeState)
      → (process_uncordon_required_nodes m c w).0 ≡ ok tt
      → Memᴰ nus (nodes_in c upgrade_state_uncordon_required)
      → state_label (process_uncordon_required_nodes m c w).1 nus.node.name ≡ upgrade_state_done
  unfolding process_uncordon_required_nodes process_uncordon_required_node body
  process_uncordon_required_nodes_progress c =
      bucket-IsThere upgrade_state_done m.cordon_manager.uncordon
        (λ name. laws.cordon_manager.uncordon _ name) (nodes_in c upgrade_state_uncordon_required)

  -- With managers that meet the contracts of the interfaces, and a provider that has written the
  -- label when it reports no error: when the drain is not enabled and `ProcessDrainNodes` succeeds,
  -- each node of its group goes on to the restart of its pod: its label is "pod-restart-required".
  pub process_drain_nodes_progress :
      (c : ClusterUpgradeState) (spec : Option DrainSpec) (w : W) (nus : NodeUpgradeState)
      → is_drain_enabled spec ≡ false
      → (process_drain_nodes m c spec w).0 ≡ ok tt
      → Memᴰ nus (nodes_in c upgrade_state_drain_required)
      → state_label (process_drain_nodes m c spec w).1 nus.node.name
        ≡ upgrade_state_pod_restart_required
  unfolding process_drain_nodes body ◌>>◌ ◌>>=◌ pure
  process_drain_nodes_progress c spec w nus off = rw off (
      bucket-IsThere upgrade_state_pod_restart_required (pure tt) (λ name. Follows-pure tt)
        (nodes_in c upgrade_state_drain_required) w nus)
