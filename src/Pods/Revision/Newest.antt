-- ===== src/Pods/Revision/Newest.antt =====
-- The choice of the current revision in `GetDaemonsetControllerRevisionHash` of pod_manager.go.
use text.Mathlib.Text.{starts_with}
use k8s_operator_libs.Prelude.{◌≡◌, true, List, Memᴰ}
use k8s_operator_libs.Prelude.Int.{◌≤ℤ◌}
use k8s_operator_libs.Kube.{ControllerRevision, DaemonSet}
use k8s_operator_libs.Pods.Revision.{last_revision}

-- No element is newer than the last one.
abbrev EndsNewest : List ControllerRevision → Type 0
EndsNewest l = (d x : ControllerRevision) → Memᴰ x l → x.revision ≤ℤ (last_revision d l).revision

-- One of the listed revisions, by its name one of the daemon set's.
pub record IsOwn (ds : DaemonSet) (all : List ControllerRevision) (r : ControllerRevision)
    : Type 0 where
  pub listed : Memᴰ r all
  pub named : starts_with r.name ds.name ≡ true
