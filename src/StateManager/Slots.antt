-- ===== src/StateManager/Slots.antt =====
-- How many nodes of "upgrade-required" are started with the slots that there are.
pub mod Started
use k8s_operator_libs.Prelude.{
  ℕ, ◌≤◌, String, ◌≡◌, refl, sym, ◌∙◌, Bool, true, false, not, ◌&&◌, ◌||◌, List, ◌∷◌, Memᴰ, arith,
  count_if, if◌then◌else◌,
}
use k8s_operator_libs.Prelude.Int.{ℤ, pos, ◌+ℤ◌, ◌-ℤ◌, ◌≤ℤ◌, leb_ℤ, int_laws}
use k8s_operator_libs.Act.{ok, pure, when, ◌>>◌}
use k8s_operator_libs.Act.Follows.{Returns}
use k8s_operator_libs.Act.Loops.{Returns-fold_each}
use k8s_operator_libs.Act.Triple.{
  Triple, Triple-bind, Triple-then, Triple-pure, Triple-if, Triple-gets, Triple-weaken,
}
use k8s_operator_libs.Interfaces.{Held, on_node, of_node}
use k8s_operator_libs.StateManager.{NodeUpgradeState, ClusterUpgradeStateManager}
use k8s_operator_libs.StateManager.Nodes.{is_node_unschedulable, is_upgrade_requested}
use k8s_operator_libs.StateManager.Process.{
  change_annotation, change_state, process_upgrade_required_node, start_upgrades,
}

abbrev pub is_cordoned : NodeUpgradeState → Bool
is_cordoned nus = is_node_unschedulable nus.node

-- What a round does to the slots: none is taken, or one is, by a node that is cordoned already or
-- because there was one.
pub data Taken (cordoned : Bool) (left : ℤ) : ℤ → Type 0 where
  untouched : Taken cordoned left left
  for_cordoned : cordoned ≡ true → Taken cordoned left (left -ℤ pos 1)
  free : pos 1 ≤ℤ left → Taken cordoned left (left -ℤ pos 1)

Taken-of_test :
    (cordoned skip unschedulable : Bool) (left : ℤ)
    → (skip || (leb_ℤ left (pos 0) && not unschedulable)) ≡ false
    → unschedulable ≡ cordoned
    → Taken cordoned left (left -ℤ pos 1)
Taken-of_test cordoned skip true left e same = for_cordoned (sym same)
Taken-of_test cordoned skip false left e same = free (ground arith)

module _ {W : Type 0} (m : ClusterUpgradeStateManager W) where
  abbrev Cordoned : Bool → Held W → Type 0
  Cordoned cordoned h =
      (is_node_unschedulable h.node ≡ cordoned) × (is_upgrade_requested m h.node ≡ false)

  -- No annotation is changed where no upgrade is requested.
  when-Cordoned :
      (cordoned requested : Bool) (key value : String)
      → Triple
          (λ h. Cordoned cordoned h × (requested ≡ is_upgrade_requested m h.node))
          (when requested (change_annotation m key value))
          (λ _. Cordoned cordoned)
  unfolding when
  when-Cordoned cordoned true key value = record {
    at = λ h before _ e. let read = before.1 in let unrequested = before.0.1 in cc;
  }
  when-Cordoned cordoned false key value = Triple-pure tt (λ h before. before.0)

  -- The last test of a round, on what it has read of the node.
  finish-Taken :
      (cordoned skip unschedulable : Bool) (left : ℤ)
      → Triple
          (λ h. Cordoned cordoned h × (unschedulable ≡ is_node_unschedulable h.node))
          (if skip || (leb_ℤ left (pos 0) && not unschedulable)
            then pure left
            else (change_state m "cordon-required" >> pure (left -ℤ pos 1)))
          (λ left' _. Taken cordoned left left')
  finish-Taken cordoned skip unschedulable left =
      Triple-if (skip || (leb_ℤ left (pos 0) && not unschedulable)) _ _
        (λ kept. Triple-pure left (λ h before. untouched))
        (λ taken.
          Triple-then (λ _ _. (unschedulable ≡ cordoned)) _ _
            (record { at = λ h before _ e. before.1 ∙ before.0.0 })
            (λ _.
              Triple-pure (left -ℤ pos 1)
                (λ h same. Taken-of_test cordoned skip unschedulable left taken same)))

  process_upgrade_required_node-Taken :
      (cordoned : Bool) (left : ℤ)
      → Triple
          (Cordoned cordoned)
          (process_upgrade_required_node m left)
          (λ left' _. Taken cordoned left left')
  unfolding process_upgrade_required_node of_node
  process_upgrade_required_node-Taken cordoned left = Triple-bind _ _ _ (Triple-gets _) λ requested.
      Triple-then _ _ _ (when-Cordoned cordoned requested _ _) λ _.
        Triple-bind _ _ _ (Triple-gets _) λ skip.
          Triple-bind _ _ _
            (Triple-weaken (λ _ before. before.0) (λ _ _ after. after)
              (Triple-gets (λ h. is_node_unschedulable h.node)))
            (λ unschedulable. finish-Taken cordoned skip unschedulable left)

  round-Returns :
      (nus : NodeUpgradeState) (left : ℤ)
      → is_upgrade_requested m nus.node ≡ false
      → Returns
          (Taken (is_cordoned nus) left)
          (on_node nus.node (process_upgrade_required_node m left))
  unfolding on_node
  round-Returns nus left unrequested = record {
    at = λ w left' e.
        (process_upgrade_required_node-Taken (is_cordoned nus) left).at
          (record { node = nus.node; world = w }) (refl, unrequested) left' e;
  }

  -- The nodes still to come, and the slots that are left, of `total` cordoned nodes in all.
  record Budget (total : ℕ) (rest : List NodeUpgradeState) (left : ℤ) : Type 0 where
    covered : pos (count_if is_cordoned rest) ≤ℤ left +ℤ pos total
    within : count_if is_cordoned rest ≤ total
    unrequested : (nus : NodeUpgradeState) → Memᴰ nus rest → is_upgrade_requested m nus.node ≡ false

  Taken-Budget :
      (total : ℕ) (nus : NodeUpgradeState) (rest : List NodeUpgradeState) (left left' : ℤ)
      → Budget total (nus ∷ rest) left
      → Taken (is_cordoned nus) left left'
      → Budget total rest left'
  Taken-Budget total nus rest left _ k untouched =
      let covered = k.covered in
      let within = k.within in
      record {
        covered = grind int_laws;
        within = grind int_laws;
        unrequested = λ other mem. k.unrequested other (Memᴰ.tail mem);
      }
  Taken-Budget total nus rest left _ k (for_cordoned here) =
      let covered = k.covered in
      let within = k.within in
      record {
        covered = grind int_laws;
        within = grind int_laws;
        unrequested = λ other mem. k.unrequested other (Memᴰ.tail mem);
      }
  Taken-Budget total nus rest left _ k (free one) =
      let covered = k.covered in
      let within = k.within in
      record {
        covered = grind int_laws;
        within = grind int_laws;
        unrequested = λ other mem. k.unrequested other (Memᴰ.tail mem);
      }

  -- When the loop of `ProcessUpgradeRequiredNodes` begins with no fewer than zero slots, no node of its
  -- list has the annotation that requests an upgrade, and the loop succeeds: it has overdrawn the slots
  -- by no more than the number of nodes of the list that were cordoned already, since only these are
  -- started without a slot.
  pub start_upgrades_within_slots :
      (bucket : List NodeUpgradeState) (upgrades_available left : ℤ) (w : W)
      → pos 0 ≤ℤ upgrades_available
      → ((nus : NodeUpgradeState) → Memᴰ nus bucket → is_upgrade_requested m nus.node ≡ false)
      → (start_upgrades m bucket upgrades_available w).0 ≡ ok left
      → pos 0 ≤ℤ left +ℤ pos (count_if is_cordoned bucket)
  unfolding start_upgrades
  start_upgrades_within_slots bucket upgrades_available left w enough unrequested e =
      let total = count_if is_cordoned bucket in
      let start : Budget total bucket upgrades_available = record {
        covered = grind int_laws;
        within = omega arith;
        unrequested = unrequested;
      } in
      let k =
        (Returns-fold_each (Budget total)
            (λ left nus. on_node nus.node (process_upgrade_required_node m left))
            (λ nus rest l b. record {
              at = λ w' l' e'.
                  Taken-Budget total nus rest l l' b
                    ((round-Returns nus l (b.unrequested nus (Memᴰ.head refl))).at w' l' e');
            })
            bucket upgrades_available start).at
          w left e in
      let covered = k.covered in grind int_laws
