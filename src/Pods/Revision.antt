-- ===== src/Pods/Revision.antt =====
-- The controller revision hashes of pod_manager.go.
pub mod Newest
use Prim.Native.String.{◌++◌, len, slice}
use text.Mathlib.Text.{starts_with}
use k8s_operator_libs.Prelude.{String, Option, none, some, List, [], ◌∷◌, select, if◌then◌else◌}
use k8s_operator_libs.Prelude.Int.{ltb_ℤ}
use k8s_operator_libs.Act.{Error, Result, ok, err, Act, lift, wrap_error, ◌>>=◌}
use k8s_operator_libs.StringMap.{lookup}
use k8s_operator_libs.Kube.{Pod, DaemonSet, ControllerRevision}
use k8s_operator_libs.Client.{Client}

abbrev pod_controller_revision_hash_label_key : String
pod_controller_revision_hash_label_key = "controller-revision-hash"

abbrev pub or_missing : Option String → Result String
or_missing none = err (Error.message "controller-revision-hash label not present for pod")
or_missing (some hash) = ok hash

unfoldable pub get_pod_controller_revision_hash : {W : Type 0} → Pod → Act W String
get_pod_controller_revision_hash pod =
    lift (or_missing (lookup pod_controller_revision_hash_label_key pod.labels))

-- `sort.Slice` by revision, as an insertion sort.
unfoldable pub insert_revision :
    ControllerRevision → List ControllerRevision → List ControllerRevision
insert_revision r [] = r ∷ []
insert_revision r (s ∷ rest) =
    if ltb_ℤ s.revision r.revision then s ∷ insert_revision r rest else r ∷ s ∷ rest

unfoldable pub sort_revisions : List ControllerRevision → List ControllerRevision
unfolding insert_revision
sort_revisions [] = []
sort_revisions (r ∷ rest) = insert_revision r (sort_revisions rest)

-- `revisions[len(revisions)-1]`, on a slice that is not empty.
unfoldable pub last_revision : ControllerRevision → List ControllerRevision → ControllerRevision
last_revision r [] = r
last_revision r (s ∷ rest) = last_revision s rest

-- `strings.TrimPrefix`
unfoldable pub trim_prefix : String → String → String
trim_prefix s prefix = if starts_with s prefix then slice s (len prefix) (len s) else s

abbrev newest : List ControllerRevision → Option ControllerRevision
newest [] = none
newest (r ∷ rest) = some (last_revision r rest)

abbrev pub hash_of : DaemonSet → Option ControllerRevision → Result String
hash_of ds none = err (Error.message "no revision found for daemonset")
hash_of ds (some current) = ok (trim_prefix current.name (ds.name ++ "-"))

-- The newest of the revisions whose name begins with the daemon set's.
unfoldable pub current_revision : DaemonSet → List ControllerRevision → Option ControllerRevision
unfolding sort_revisions last_revision
current_revision ds all = newest (sort_revisions (select (λ r. starts_with r.name ds.name) all))

unfoldable pub get_daemonset_controller_revision_hash :
    {W : Type 0} → Client W → DaemonSet → Act W String
unfolding current_revision trim_prefix
get_daemonset_controller_revision_hash client ds =
    wrap_error "error getting controller revision list for daemonset"
      (client.list_controller_revisions ds.namespace ds.match_labels)
    >>= λ all. lift (hash_of ds (current_revision ds all))
