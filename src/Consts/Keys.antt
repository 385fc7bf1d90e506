-- ===== src/Consts/Keys.antt =====
-- The keys of pkg/upgrade/util.go under which the library keeps its labels and annotations.
use Prim.Native.String.{◌++◌}
use text.Mathlib.TextLemmas.{append_cancel_left, append_cancel_right}
use k8s_operator_libs.Prelude.{
  String, ◌≡◌, ◌≢◌, refl, sym, ap, ◌∙◌, ◌⊎◌, inl, inr, ◌==◌, if◌then◌else◌,
}
use k8s_operator_libs.Consts.{
  get_upgrade_state_label_key, get_upgrade_skip_node_label_key,
  get_upgrade_driver_wait_for_safe_load_annotation_key, get_upgrade_requested_annotation_key,
  get_upgrade_initial_state_annotation_key, get_wait_for_pod_completion_start_time_annotation_key,
  get_validation_start_time_annotation_key, key_prefix,
}

-- What the library keeps at a node.
pub data Entry : Type 0 where
  state : Entry
  skip : Entry
  wait_for_safe_load : Entry
  requested : Entry
  initial_state : Entry
  pod_completion_start : Entry
  validation_start : Entry

abbrev pub key_of : Entry → String → String
key_of Entry.state driver = get_upgrade_state_label_key driver
key_of Entry.skip driver = get_upgrade_skip_node_label_key driver
key_of Entry.wait_for_safe_load driver = get_upgrade_driver_wait_for_safe_load_annotation_key driver
key_of Entry.requested driver = get_upgrade_requested_annotation_key driver
key_of Entry.initial_state driver = get_upgrade_initial_state_annotation_key driver
key_of Entry.pod_completion_start driver =
    get_wait_for_pod_completion_start_time_annotation_key driver
key_of Entry.validation_start driver = get_validation_start_time_annotation_key driver

abbrev suffix_of : Entry → String
suffix_of Entry.state = "-driver-upgrade-state"
suffix_of Entry.skip = "-driver-upgrade.skip"
suffix_of Entry.wait_for_safe_load = "-driver-upgrade.driver-wait-for-safe-load"
suffix_of Entry.requested = "-driver-upgrade-requested"
suffix_of Entry.initial_state = "-driver-upgrade.node-initial-state.unschedulable"
suffix_of Entry.pod_completion_start = "-driver-upgrade-wait-for-pod-completion-start-time"
suffix_of Entry.validation_start = "-driver-upgrade-validation-start-time"

-- The entry that has the suffix.
abbrev entry_of : String → Entry
entry_of suffix =
    if suffix == suffix_of Entry.state
    then Entry.state
    else if suffix == suffix_of Entry.skip
    then Entry.skip
    else if suffix == suffix_of Entry.wait_for_safe_load
    then Entry.wait_for_safe_load
    else if suffix == suffix_of Entry.requested
    then Entry.requested
    else if suffix == suffix_of Entry.initial_state
    then Entry.initial_state
    else if suffix == suffix_of Entry.pod_completion_start
    then Entry.pod_completion_start
    else Entry.validation_start

entry_of-suffix_of : (entry : Entry) → entry_of (suffix_of entry) ≡ entry
entry_of-suffix_of Entry.state = refl
entry_of-suffix_of Entry.skip = refl
entry_of-suffix_of Entry.wait_for_safe_load = refl
entry_of-suffix_of Entry.requested = refl
entry_of-suffix_of Entry.initial_state = refl
entry_of-suffix_of Entry.pod_completion_start = refl
entry_of-suffix_of Entry.validation_start = refl

key_of-append :
    (entry : Entry) (driver : String)
    → key_of entry driver ≡ key_prefix ++ (driver ++ suffix_of entry)
unfolding get_upgrade_state_label_key get_upgrade_skip_node_label_key
    get_upgrade_driver_wait_for_safe_load_annotation_key get_upgrade_requested_annotation_key
    get_upgrade_initial_state_annotation_key get_wait_for_pod_completion_start_time_annotation_key
    get_validation_start_time_annotation_key
key_of-append Entry.state driver = refl
key_of-append Entry.skip driver = refl
key_of-append Entry.wait_for_safe_load driver = refl
key_of-append Entry.requested driver = refl
key_of-append Entry.initial_state driver = refl
key_of-append Entry.pod_completion_start driver = refl
key_of-append Entry.validation_start driver = refl

-- What follows the prefix.
same_rest :
    (entry entry' : Entry) (driver driver' : String)
    → key_of entry driver ≡ key_of entry' driver'
    → driver ++ suffix_of entry ≡ driver' ++ suffix_of entry'
same_rest entry entry' driver driver' e =
    append_cancel_left key_prefix _ _
      (sym (key_of-append entry driver) ∙ e ∙ key_of-append entry' driver')

-- Two entries of one driver, or the same entry of two drivers, have the same key only if they are
-- the same entry of the same driver.
key_of-injective :
    (entry entry' : Entry) (driver driver' : String)
    → (entry ≡ entry') ⊎ (driver ≡ driver')
    → key_of entry driver ≡ key_of entry' driver'
    → (entry ≡ entry') × (driver ≡ driver')
key_of-injective entry entry' driver driver' (inl same) e = (
  same,
  append_cancel_right driver driver' (suffix_of entry')
      (ap (λ x. driver ++ suffix_of x) (sym same) ∙ same_rest entry entry' driver driver' e),
)
key_of-injective entry entry' driver driver' (inr same) e = (
  sym (entry_of-suffix_of entry)
      ∙ ap entry_of (
          append_cancel_left driver' _ _
            (ap (λ d. d ++ suffix_of entry) (sym same) ∙ same_rest entry entry' driver driver' e))
      ∙ entry_of-suffix_of entry',
  same,
)

-- Two entries of one driver, or the entries of one kind of two drivers.
pub data IsOther : Entry → String → Entry → String → Type 0 where
  one_driver :
      (entry entry' : Entry) (driver : String) → entry ≢ entry' → IsOther entry driver entry' driver
  two_drivers :
      (entry : Entry) (driver driver' : String)
      → driver ≢ driver'
      → IsOther entry driver entry driver'

-- What the library keeps at a node for one driver, in seven labels and annotations, has seven
-- different keys, and what it keeps for two drivers has different keys for each of the seven.
pub keys_differ :
    (entry entry' : Entry) (driver driver' : String)
    → IsOther entry driver entry' driver'
    → key_of entry driver ≢ key_of entry' driver'
keys_differ _ _ _ _ (IsOther.one_driver entry entry' driver other) same_key =
    other (key_of-injective entry entry' driver driver (inr refl) same_key).0
keys_differ _ _ _ _ (IsOther.two_drivers entry driver driver' other) same_key =
    other (key_of-injective entry entry driver driver' (inl refl) same_key).1
