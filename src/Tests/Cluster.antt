-- ===== src/Tests/Cluster.antt =====
-- A cluster in memory whose cache is always up to date, as a client for which every law holds.
use k8s_operator_libs.Prelude.{
  String, ◌≡◌, refl, ◌⊎◌, inl, Bool, true, false, List, [], ◌∷◌, arith, ◌==◌, eq_iff, if◌then◌else◌,
  select,
}
use k8s_operator_libs.Prelude.Int.{ℤ}
use k8s_operator_libs.Act.{Error, Result, ok, err, Act}
use k8s_operator_libs.StringMap.{insert, delete, value_of, value_of-insert}
use k8s_operator_libs.Kube.{DaemonSet, Node, Pod, ControllerRevision}
use k8s_operator_libs.Consts.{get_upgrade_state_label_key}
use k8s_operator_libs.Interfaces.{Held}
use k8s_operator_libs.Client.{Patch, label_patch, annotation_patch, annotation_removal, Client}
use k8s_operator_libs.Client.Laws.{PollLaws, LabelLaws, PatchSets}
use k8s_operator_libs.System.{System}
use k8s_operator_libs.Manager.Background.{api_label}

pub record Cluster : Type 0 where
  pub nodes : List Node
  pub pods : List Pod
  pub daemon_sets : List DaemonSet
  pub revisions : List ControllerRevision
  pub clock : ℤ

abbrev pub driver : String
driver = "gpu"

abbrev pub find : String → List Node → Result Node
find name [] = err (Error.client_error "not found")
find name (n ∷ ns) = if n.name == name then ok n else find name ns

abbrev pub update : String → (Node → Node) → List Node → List Node
update name f [] = []
update name f (n ∷ ns) = (if n.name == name then f n else n) ∷ update name f ns

abbrev pub patched : Patch → Node → Node
patched (label_patch k v) n = record n { labels = insert k v n.labels }
patched (annotation_patch k v) n = record n { annotations = insert k v n.annotations }
patched (annotation_removal k) n = record n { annotations = delete k n.annotations }

abbrev pub cordoned : Bool → Node → Node
cordoned desired n = record n { unschedulable = desired }

-- Change a node in the store and in the object.
abbrev pub change : (Node → Node) → Act (Held (System Cluster)) Unit
change f h = (
  ok tt,
  record {
    node = f h.node;
    world = record h.world {
      api = record h.world.api { nodes = update h.node.name f h.world.api.nodes };
    };
  },
)

-- A patch of a node that does not exist is refused.
abbrev pub guarded :
    Result Node
    → Result (Unit {0}) × Held (System Cluster)
    → Held (System Cluster)
    → Result (Unit {0}) × Held (System Cluster)
guarded (ok n) changed h = changed
guarded (err e) changed h = (err e, h)

abbrev pub verdict : Result Bool × Held (System Cluster) → Result (Unit {0}) × Held (System Cluster)
verdict (ok true, h) = (ok tt, h)
verdict (ok false, h) = (err (Error.client_error "timed out"), h)
verdict (err e, h) = (err e, h)

abbrev pub on_this_node : String → Pod → Bool
on_this_node name pod = pod.node_name == name

abbrev pub client : Client (System Cluster)
client = record {
  get = λ name s. (find name s.api.nodes, s);
  patch = λ p h. guarded (find h.node.name h.world.api.nodes) (change (patched p) h) h;
  poll_immediate_until = λ condition h. verdict (condition h);
  run_cordon_or_uncordon = λ desired. change (cordoned desired);
  run_node_drain = λ helper name s. (ok tt, s);
  get_pods_for_deletion = λ helper name s. (ok (select (on_this_node name) s.api.pods), s);
  delete_or_evict_pods = λ helper pods s. (ok tt, s);
  list_pods = λ selector name s. (ok (select (on_this_node name) s.api.pods), s);
  delete_pod = λ namespace name s. (ok tt, s);
  list_controller_revisions = λ namespace labels s. (ok s.api.revisions, s);
  list_daemon_sets = λ namespace labels s. (ok s.api.daemon_sets, s);
  list_driver_pods = λ namespace labels s. (ok s.api.pods, s);
  now = λ s. (ok s.api.clock, s);
}

abbrev pub label_key : String
label_key = get_upgrade_state_label_key driver

abbrev pub label_of : Result Node → String
label_of (ok n) = value_of label_key n.labels
label_of (err _) = ""

abbrev pub label : Cluster → String → String
label c name = label_of (find name c.nodes)

of_verdict :
    (p : Result Bool × Held (System Cluster)) → (verdict p).0 ≡ ok tt → p ≡ (ok true, (verdict p).1)
of_verdict (ok true, h) e = refl
of_verdict (ok false, h) e = cc
of_verdict (err x, h) e = cc

verdict_state : (p : Result Bool × Held (System Cluster)) → (verdict p).1 ≡ p.1
verdict_state (ok true, h) = refl
verdict_state (ok false, h) = refl
verdict_state (err x, h) = refl

pub client-PollLaws : PollLaws client
client-PollLaws = record {
  satisfied = λ condition h e. (h, of_verdict (condition h) e);
  only_condition = λ R condition k. record { at = λ h. rw (verdict_state (condition h)) (k.at h) };
}

pub find-name : (name : String) (ns : List Node) (n : Node) → find name ns ≡ ok n → n.name ≡ name
find-name name [] n e = cc
find-name name (m ∷ ns) n e = ground (arith, eq_iff m.name name, find-name name ns n)

-- A change that keeps names and labels keeps the label of every node.
label-update :
    (name other : String) (f : Node → Node) (ns : List Node)
    → ((n : Node) → (f n).name ≡ n.name)
    → ((n : Node) → value_of label_key (f n).labels ≡ value_of label_key n.labels)
    → label_of (find other (update name f ns)) ≡ label_of (find other ns)
label-update name other f [] same_name same_label = refl
label-update name other f (n ∷ ns) same_name same_label = ground (
  arith,
  eq_iff n.name name,
  same_name n,
  same_label n,
  label-update name other f ns same_name same_label,
)

-- A patch of the label is seen at its node, if there is such a node, and nowhere else.
label-update_label :
    (name other new_state : String) (ns : List Node)
    → (label_of (find other (update name (patched (label_patch label_key new_state)) ns))
        ≡ label_of (find other ns))
      ⊎ ((other ≡ name)
          × (label_of (find other (update name (patched (label_patch label_key new_state)) ns))
              ≡ new_state))
label-update_label name other new_state [] = inl refl
label-update_label name other new_state (n ∷ ns) = ground (
  arith,
  eq_iff n.name name,
  eq_iff n.name other,
  value_of-insert label_key new_state n.labels,
  label-update_label name other new_state ns,
)

guarded-name :
    (r : Result Node) (changed : Result (Unit {0}) × Held (System Cluster))
    (h : Held (System Cluster))
    → changed.1.node.name ≡ h.node.name
    → (guarded r changed h).1.node.name ≡ h.node.name
guarded-name (ok n) changed h same = same
guarded-name (err e) changed h same = refl

guarded-label :
    (r : Result Node) (changed : Result (Unit {0}) × Held (System Cluster))
    (h : Held (System Cluster)) (other : String)
    → label changed.1.world.api other ≡ label h.world.api other
    → label (guarded r changed h).1.world.api other ≡ label h.world.api other
guarded-label (ok n) changed h other same = same
guarded-label (err e) changed h other same = refl

guarded-written :
    (r : Result Node) (changed : Result (Unit {0}) × Held (System Cluster))
    (h : Held (System Cluster)) (other new_state : String)
    → (label changed.1.world.api other ≡ label h.world.api other)
      ⊎ ((other ≡ h.node.name) × (label changed.1.world.api other ≡ new_state))
    → (label (guarded r changed h).1.world.api other ≡ label h.world.api other)
      ⊎ ((other ≡ h.node.name) × (label (guarded r changed h).1.world.api other ≡ new_state))
guarded-written (ok n) changed h other new_state k = k
guarded-written (err e) changed h other new_state k = inl refl

-- A patch of the label of a node that exists sets it.
label-update_sets :
    (name new_state : String) (ns : List Node) (n : Node)
    → find name ns ≡ ok n
    → label_of (find name (update name (patched (label_patch label_key new_state)) ns)) ≡ new_state
label-update_sets name new_state [] n e = cc
label-update_sets name new_state (m ∷ ns) n e = ground (
  arith,
  eq_iff m.name name,
  value_of-insert label_key new_state m.labels,
  label-update_sets name new_state ns n,
)

guarded-sets :
    (r : Result Node) (new_state : String) (h : Held (System Cluster))
    → find h.node.name h.world.api.nodes ≡ r
    → (guarded r (change (patched (label_patch label_key new_state)) h) h).0 ≡ ok tt
    → label
        (guarded r (change (patched (label_patch label_key new_state)) h) h).1.world.api
        h.node.name
      ≡ new_state
guarded-sets (ok n) new_state h found e =
    label-update_sets h.node.name new_state h.world.api.nodes n found
guarded-sets (err x) new_state h found e = cc

pub client-PatchSets : PatchSets client (api_label label) label_key
client-PatchSets = record {
  patch-sets =
      λ new_state h e. guarded-sets (find h.node.name h.world.api.nodes) new_state h refl e;
}

pub client-LabelLaws : LabelLaws client (api_label label) label_key
client-LabelLaws = record {
  get-name = λ name s n e. find-name name s.api.nodes n e;
  get-label = λ name other s. refl;
  patch-name = λ p h. guarded-name _ _ h (patched-name p h.node);
  patch-label = λ new_state other h.
      guarded-written _ _ h other new_state
        (label-update_label h.node.name other new_state h.world.api.nodes);
  annotation_patch-label = λ key value other h. guarded-label _ _ h other (
      label-update h.node.name other (patched (annotation_patch key value)) h.world.api.nodes
        (λ n. refl) (λ n. refl));
  annotation_removal-label = λ key other h. guarded-label _ _ h other (
      label-update h.node.name other (patched (annotation_removal key)) h.world.api.nodes
        (λ n. refl) (λ n. refl));
  cordon-name = λ desired h. refl;
  cordon-label = λ desired other h.
      label-update h.node.name other (cordoned desired) h.world.api.nodes (λ n. refl) (λ n. refl);
  run_node_drain-label = λ helper name other s. refl;
  get_pods_for_deletion-label = λ helper name other s. refl;
  delete_or_evict_pods-label = λ helper pods other s. refl;
  list_pods-label = λ selector name other s. refl;
  delete_pod-label = λ namespace name other s. refl;
  list_controller_revisions-label = λ namespace labels other s. refl;
  now-label = λ other s. refl;
}
  where
    patched-name : (p : Patch) (n : Node) → (patched p n).name ≡ n.name
    patched-name (label_patch k v) n = refl
    patched-name (annotation_patch k v) n = refl
    patched-name (annotation_removal k) n = refl
