-- ===== src/Interfaces/Successes.antt =====
-- What the state manager relies on in a method of the provider that returns without an error.
use k8s_operator_libs.Prelude.{String, ◌≡◌, refl}
use k8s_operator_libs.Act.{ok, Act}
use k8s_operator_libs.Act.Triple.{Triple, Triple-of_Follows}
use k8s_operator_libs.Act.Follows.{Preorder, Follows}
use k8s_operator_libs.Kube.{Node}
use k8s_operator_libs.Interfaces.{Held, on_node, NodeUpgradeStateProvider}
use k8s_operator_libs.Interfaces.Contracts.{named}

module _ {W : Type 0} (state_label : W → String → String) where
  -- `ChangeNodeUpgradeState` has written the label of its node.
  pub record ProviderSets (p : NodeUpgradeStateProvider W) : Type 0 where
    pub change_state :
        (new_state : String) (h : Held W)
        → (p.change_node_upgrade_state new_state h).0 ≡ ok tt
        → state_label (p.change_node_upgrade_state new_state h).1.world h.node.name ≡ new_state

module _ {W : Type 0} where
  -- The object is that of the node called `name`.
  abbrev pub IsNamed : String → Held W → Type 0
  IsNamed name h = h.node.name ≡ name

module _ {W A : Type 0} where
  pub Triple-IsNamed :
      (R : Preorder W) (name : String) (m : Act (Held W) A)
      → Follows (named name R) m
      → Triple (IsNamed name) m (λ _. IsNamed name)
  unfolding named
  Triple-IsNamed R name m k = Triple-of_Follows (IsNamed name) m k (λ h h' r e. (r e).0)

  pub Triple-on_node :
      {P : W → Type 0} {Q : A → W → Type 0} (n : Node) (m : Act (Held W) A)
      → Triple (λ h. IsNamed n.name h × P h.world) m (λ a h. Q a h.world)
      → Triple P (on_node n m) Q
  unfolding on_node
  Triple-on_node n m k = record {
    at = λ w p a e. k.at (record { node = n; world = w }) (refl, p) a e;
  }
