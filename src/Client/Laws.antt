-- ===== src/Client/Laws.antt =====
-- What the library relies on in the clients.
use k8s_operator_libs.Prelude.{String, ◌≡◌, ◌⊎◌, Bool, true, List}
use k8s_operator_libs.Act.{ok, Act}
use k8s_operator_libs.Act.Follows.{Preorder, Follows}
use k8s_operator_libs.StringMap.{StringMap}
use k8s_operator_libs.Kube.{Node, Pod}
use k8s_operator_libs.Interfaces.{Held}
use k8s_operator_libs.Client.{
  Patch, DrainHelper, Client, label_patch, annotation_patch, annotation_removal,
}

-- `PollImmediateUntil` returns without an error only when the condition has just returned true, and
-- it does nothing but to run the condition.
pub record PollLaws {W : Type 0} (client : Client W) : Type 1 where
  pub satisfied :
      (condition : Act (Held W) Bool) (h : Held W)
      → (client.poll_immediate_until condition h).0 ≡ ok tt
      → (before : Held W) × (condition before
          ≡ (ok true, (client.poll_immediate_until condition h).1))
  pub only_condition :
      (R : Preorder (Held W)) (condition : Act (Held W) Bool)
      → Follows R condition
      → Follows R (client.poll_immediate_until condition)

abbrev pub KeepsLabels : {W A : Type 0} → (W → String → String) → Act W A → Type 0
KeepsLabels {W} state_label m =
    (other : String) (w : W) → state_label (m w).1 other ≡ state_label w other

-- Lists of daemon sets and of driver pods change no label.
pub record ListLaws {W : Type 0} (client : Client W) (state_label : W → String → String)
    : Type 0 where
  pub list_daemon_sets-label :
      (namespace : String) (labels : StringMap String)
      → KeepsLabels state_label (client.list_daemon_sets namespace labels)
  pub list_driver_pods-label :
      (namespace : String) (labels : StringMap String)
      → KeepsLabels state_label (client.list_driver_pods namespace labels)

module _ {W : Type 0} (client : Client W) (state_label : W → String → String)
    (label_key : String) where
  -- With `state_label` the value of the label `label_key` at the API server: reading changes no label,
  -- a patch of the label writes at most the label of its node, and other patches write none.
  pub record LabelLaws : Type 0 where
    pub get-name : (name : String) (w : W) (n : Node) → (client.get name w).0 ≡ ok n → n.name ≡ name
    pub get-label : (name : String) → KeepsLabels state_label (client.get name)
    pub patch-name : (p : Patch) (h : Held W) → (client.patch p h).1.node.name ≡ h.node.name
    pub patch-label :
        (new_state other : String) (h : Held W)
        → let h' = (client.patch (label_patch label_key new_state) h).1 in
          (state_label h'.world other ≡ state_label h.world other)
          ⊎ ((other ≡ h.node.name) × (state_label h'.world other ≡ new_state))
    pub annotation_patch-label :
        (key value other : String) (h : Held W)
        → state_label (client.patch (annotation_patch key value) h).1.world other
          ≡ state_label h.world other
    pub annotation_removal-label :
        (key other : String) (h : Held W)
        → state_label (client.patch (annotation_removal key) h).1.world other
          ≡ state_label h.world other
    pub cordon-name :
        (desired : Bool) (h : Held W)
        → (client.run_cordon_or_uncordon desired h).1.node.name ≡ h.node.name
    pub cordon-label :
        (desired : Bool) (other : String) (h : Held W)
        → state_label (client.run_cordon_or_uncordon desired h).1.world other
          ≡ state_label h.world other
    pub run_node_drain-label :
        (helper : DrainHelper) (name : String)
        → KeepsLabels state_label (client.run_node_drain helper name)
    pub get_pods_for_deletion-label :
        (helper : DrainHelper) (name : String)
        → KeepsLabels state_label (client.get_pods_for_deletion helper name)
    pub delete_or_evict_pods-label :
        (helper : DrainHelper) (pods : List Pod)
        → KeepsLabels state_label (client.delete_or_evict_pods helper pods)
    pub list_pods-label :
        (selector name : String) → KeepsLabels state_label (client.list_pods selector name)
    pub delete_pod-label :
        (namespace name : String) → KeepsLabels state_label (client.delete_pod namespace name)
    pub list_controller_revisions-label :
        (namespace : String) (labels : StringMap String)
        → KeepsLabels state_label (client.list_controller_revisions namespace labels)
    pub now-label : KeepsLabels state_label client.now

  -- A patch of the label that is accepted has set the label of its node.
  pub record PatchSets : Type 0 where
    pub patch-sets :
        (new_state : String) (h : Held W)
        → (client.patch (label_patch label_key new_state) h).0 ≡ ok tt
        → state_label (client.patch (label_patch label_key new_state) h).1.world h.node.name
          ≡ new_state
