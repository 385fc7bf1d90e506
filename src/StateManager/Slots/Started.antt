-- ===== src/StateManager/Slots/Started.antt =====
-- How many nodes the loop of `ProcessUpgradeRequiredNodes` of upgrade_state.go starts.
use mathlib.Core.Path.{subst}
use k8s_operator_libs.Prelude.{
  ℕ, ◌+◌, ◌≤◌, String, ◌≡◌, refl, sym, ap, ◌⊎◌, inl, inr, false, not, ◌&&◌, ◌||◌, List, [], ◌∷◌,
  Memᴰ, arith, ◌==◌, eq_iff, count_if, if◌then◌else◌,
}
use k8s_operator_libs.Prelude.Int.{ℤ, pos, ◌+ℤ◌, ◌-ℤ◌, ◌≤ℤ◌, leb_ℤ, int_laws}
use k8s_operator_libs.Act.{ok, Act}
use k8s_operator_libs.Act.Follows.{Preorder, Follows, Follows-when}
use k8s_operator_libs.Act.Triple.{
  Triple, Triple-bind, Triple-then, Triple-pure, Triple-if, Triple-of_Follows, Triple-fold_each,
}
use k8s_operator_libs.Interfaces.{Held, on_node}
use k8s_operator_libs.Interfaces.Contracts.{writes, named, Follows-of_node}
use k8s_operator_libs.StateManager.{NodeUpgradeState, ClusterUpgradeStateManager}
use k8s_operator_libs.StateManager.Nodes.{is_upgrade_requested}
use k8s_operator_libs.StateManager.Process.{
  change_state, process_upgrade_required_node, start_upgrades,
}
use k8s_operator_libs.StateManager.Slots.{is_cordoned, start_upgrades_within_slots}
use k8s_operator_libs.StateManager.Transitions.{ManagerWrites}

abbrev pub NoTwice : List String → Type 0
NoTwice names = (name : String) → count_if (λ n. n == name) names ≤ 1

-- How many of the nodes are about to be cordoned.
abbrev pub started : (String → String) → List String → ℕ
started label_of names = count_if (λ name. label_of name == "cordon-required") names

started-same :
    (before after : String → String) (names : List String)
    → ((name : String) → (after name ≡ before name) ⊎ ⊥)
    → started after names ≡ started before names
started-same before after [] same = refl
started-same before after (n ∷ names) same =
    let rest = started-same before after names same in
    elim (same n) [
      | inl e ↦ rw e (ap (λ k. (if before n == "cordon-required" then 1 else 0) + k) rest)
      | inr never ↦ absurd never
    ]

-- One node's label alone may have changed.
started-one :
    (before after : String → String) (changed : String) (names : List String)
    → ((name : String) → (after name ≡ before name) ⊎ (name ≡ changed))
    → started after names ≤ started before names + count_if (λ n. n == changed) names
started-one before after changed [] k = omega arith
started-one before after changed (n ∷ names) k =
    let rest = started-one before after changed names k in
    elim (k n) [
      | inl e ↦ (let same = ap (λ l. l == "cordon-required") e in ground arith)
      | inr here ↦ (let same = (eq_iff n changed).1 here in ground arith)
    ]

module _ {W : Type 0} (state_label : W → String → String) (m : ClusterUpgradeStateManager W)
    (laws : ManagerWrites state_label m) (names : List String) (once : NoTwice names)
    (limit : ℤ) where
  abbrev started_in : W → ℕ
  started_in w = started (state_label w) names

  -- The nodes started so far and the slots that are left stay within the limit.
  abbrev Within : ℤ → W → Type 0
  Within left w = pos (started_in w) +ℤ left ≤ℤ limit

  abbrev At : String → ℤ → Held W → Type 0
  At name left h = (h.node.name ≡ name) × Within left h.world

  abbrev quiet : Preorder W
  quiet = writes state_label (λ _ _. ⊥)

  At-quiet :
      (name : String) (left : ℤ) (h h' : Held W)
      → (named name quiet).rel h h'
      → At name left h
      → At name left h'
  unfolding named writes
  At-quiet name left h h' r (e, within) =
      let (e', same) = r e in
      (
        e',
        subst (λ k. pos k +ℤ left ≤ℤ limit)
            (sym (started-same (state_label h.world) (state_label h'.world) names same)) within,
      )

  stays :
      {A : Type 0} (name : String) (left : ℤ) (act : Act (Held W) A)
      → Follows (named name quiet) act
      → Triple (At name left) act (λ _. At name left)
  stays name left act k = Triple-of_Follows (At name left) act k (At-quiet name left)

  -- A change of the state starts one node at most.
  starts_one :
      (name state : String) (left : ℤ)
      → Triple (At name left) (change_state m state) (λ _ h. Within (left -ℤ pos 1) h.world)
  unfolding named writes
  starts_one name state left = record {
    at = λ h before _ e.
        let h' = (change_state m state h).1 in
        let (_, written) =
          (laws.provider.change_state (λ n _. n ≡ name) name state refl).at h before.0 in
        let one = started-one (state_label h.world) (state_label h'.world) name names written in
        let once' = once name in let within = before.1 in grind int_laws;
  }

  body-Within :
      (left : ℤ) (name : String)
      → Triple
          (At name left)
          (process_upgrade_required_node m left)
          (λ left' h. Within left' h.world)
  unfolding process_upgrade_required_node
  body-Within left name =
      Triple-bind _ _ _ (stays name left _ (Follows-of_node quiet name _)) λ requested.
        Triple-then _ _ _
          (stays name left _
            (Follows-when requested _ (λ _. laws.provider.change_annotation _ name _ _)))
          λ _. Triple-bind _ _ _ (stays name left _ (Follows-of_node quiet name _)) λ skip.
            Triple-bind _ _ _ (stays name left _ (Follows-of_node quiet name _)) λ unschedulable.
              Triple-if (skip || (leb_ℤ left (pos 0) && not unschedulable)) _ _
                (λ kept. Triple-pure left (λ h at. at.1))
                (λ taken.
                  Triple-then _ _ _ (starts_one name _ left)
                    (λ _. Triple-pure (left -ℤ pos 1) (λ h within. within)))

  round-Within :
      (nus : NodeUpgradeState) (left : ℤ)
      → Triple (Within left) (on_node nus.node (process_upgrade_required_node m left)) Within
  unfolding on_node
  round-Within nus left = record {
    at = λ w within left' e.
        (body-Within left nus.node.name).at (record { node = nus.node; world = w }) (refl, within)
          left' e;
  }

  start_upgrades-Within :
      (bucket : List NodeUpgradeState) (left : ℤ)
      → Triple (Within left) (start_upgrades m bucket left) Within
  unfolding start_upgrades
  start_upgrades-Within bucket left =
      Triple-fold_each Within (λ l nus. on_node nus.node (process_upgrade_required_node m l))
        (λ nus l. round-Within nus l) bucket left

-- With managers that meet the contracts of the interfaces: when the loop of
-- `ProcessUpgradeRequiredNodes` begins with no fewer than zero slots, no node of its list has the
-- annotation that requests an upgrade, and the loop succeeds: of any nodes, named once each, no more
-- have got the label "cordon-required" than there were slots and nodes of the list that were cordoned
-- already, since only these are started without a slot.
pub started_within_slots :
    {W : Type 0} (state_label : W → String → String) (m : ClusterUpgradeStateManager W)
    (laws : ManagerWrites state_label m) (names : List String) (bucket : List NodeUpgradeState)
    (upgrades_available left : ℤ) (w : W)
    → NoTwice names
    → pos 0 ≤ℤ upgrades_available
    → ((nus : NodeUpgradeState) → Memᴰ nus bucket → is_upgrade_requested m nus.node ≡ false)
    → (start_upgrades m bucket upgrades_available w).0 ≡ ok left
    → pos (started (state_label (start_upgrades m bucket upgrades_available w).1) names)
      ≤ℤ (pos (started (state_label w) names) +ℤ upgrades_available)
        +ℤ pos (count_if is_cordoned bucket)
started_within_slots state_label m laws names bucket upgrades_available left w once enough
      unrequested e =
    let start = pos (started (state_label w) names) +ℤ upgrades_available in
    let start_is_within : start ≤ℤ start = omega arith in
    let within =
      (start_upgrades-Within state_label m laws names once start bucket upgrades_available).at w
        start_is_within left e in
    let overdrawn =
      start_upgrades_within_slots m bucket upgrades_available left w enough unrequested e in
    grind int_laws
