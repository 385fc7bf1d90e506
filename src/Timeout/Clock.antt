-- ===== src/Timeout/Clock.antt =====
-- Two calls of `HandleTimeoutOnPodCompletions` in pod_manager.go, or of `handleTimeout` in
-- validation_manager.go, with the provider of node_upgrade_state_provider.go: the first writes the
-- time into an annotation, a later one reads it.
use k8s_operator_libs.Prelude.{
  String, ◌≡◌, ◌≢◌, refl, sym, ap, ◌∙◌, Bool, true, false, Bool-cases, inl, inr, if◌then◌else◌,
}
use k8s_operator_libs.Prelude.Int.{ℤ, ◌+ℤ◌, ltb_ℤ}
use k8s_operator_libs.Act.{Result, ok, ◌>>=◌, ◌>>◌, continue, ignore, gets, lift, when, pure}
use k8s_operator_libs.StringMap.{StringMap, has, value_of, value_of-missing}
use k8s_operator_libs.Strconv.{format_int, parse_int}
use k8s_operator_libs.Strconv.RoundTrip.{IsInt64, parse_int-format_int, add_int64-eq}
use k8s_operator_libs.Consts.{null_string}
use k8s_operator_libs.Interfaces.{Held, in_world, of_node, NodeUpgradeStateProvider}
use k8s_operator_libs.Client.{Client}
use k8s_operator_libs.Client.Laws.{PollLaws}
use k8s_operator_libs.Provider.{
  change_node_upgrade_state, change_node_upgrade_annotation, new_node_upgrade_state_provider,
}
use k8s_operator_libs.Provider.ReadBack.{change_node_upgrade_annotation_reads_back}
use k8s_operator_libs.Timeout.{check_start_time, handle_timeout}

format_int-ne-null : (t : ℤ) → IsInt64 t → format_int t ≢ null_string
unfolding parse_int
format_int-ne-null t h e = cc (sym (parse_int-format_int t h) ∙ ap parse_int e)

format_int-ne-empty : (t : ℤ) → IsInt64 t → format_int t ≢ ""
unfolding parse_int
format_int-ne-empty t h e = cc (sym (parse_int-format_int t h) ∙ ap parse_int e)

module _ {W : Type 0} (client : Client W) (poll : PollLaws client) (driver_name key next : String)
    (timeout : ℤ) where
  abbrev provider : NodeUpgradeStateProvider W
  provider = new_node_upgrade_state_provider client driver_name

  first_call :
      (start : ℤ) (h : Held W) (w : W)
      → client.now h.world ≡ (ok start, w)
      → has key h.node.annotations ≡ false
      → handle_timeout client provider key next timeout h
        ≡ change_node_upgrade_annotation client key (format_int start) (record h { world = w })
  unfolding handle_timeout in_world ◌>>=◌ continue of_node gets new_node_upgrade_state_provider
  first_call start h w e absent = rw e (rw absent refl)

  -- What a call does to an object after its time is over, or before.
  abbrev expired : Bool → Held W → Result (Unit {0}) × Held W
  expired over h =
      if over
      then (ignore (provider.change_node_upgrade_state next)
            >> provider.change_node_upgrade_annotation key null_string)
          h
      else (ok tt, h)

  when-expired :
      (over : Bool) (h : Held W)
      → when over
          (ignore (provider.change_node_upgrade_state next)
            >> provider.change_node_upgrade_annotation key null_string)
          h
        ≡ expired over h
  unfolding when pure
  when-expired true h = refl
  when-expired false h = refl

  later_check :
      (start current : ℤ) (h : Held W)
      → IsInt64 start
      → IsInt64 (start +ℤ timeout)
      → value_of key h.node.annotations ≡ format_int start
      → check_start_time client provider key next timeout current h
        ≡ expired (ltb_ℤ (start +ℤ timeout) current) h
  unfolding check_start_time ◌>>=◌ continue of_node gets lift
  later_check start current h is_start is_sum read =
      rw (read, parse_int-format_int start is_start, add_int64-eq start timeout is_sum)
        (when-expired (ltb_ℤ (start +ℤ timeout) current) h)

  later_call :
      (start current : ℤ) (h : Held W) (w : W)
      → IsInt64 start
      → IsInt64 (start +ℤ timeout)
      → client.now h.world ≡ (ok current, w)
      → value_of key h.node.annotations ≡ format_int start
      → has key h.node.annotations ≡ true
      → handle_timeout client provider key next timeout h
        ≡ expired (ltb_ℤ (start +ℤ timeout) current) (record h { world = w })
  unfolding handle_timeout in_world ◌>>=◌ continue of_node gets
  later_call start current h w is_start is_sum e read present =
      rw e (rw present (later_check start current (record h { world = w }) is_start is_sum read))

  value_present :
      (text : String) (m : StringMap String) → value_of key m ≡ text → text ≢ "" → has key m ≡ true
  value_present text m e filled = elim (Bool-cases (has key m)) [
    | inl present ↦ present
    | inr absent ↦ absurd (filled (sym e ∙ value_of-missing key m absent))
  ]

  -- Where a poll succeeds only when its condition has just held, and times are int64: when the first
  -- call, on a node without the annotation, returns no error at the time `start`, and a later call
  -- finds the annotations that it left: the later call gives the node the next state, whatever comes
  -- of that, and removes the annotation, if the time is beyond `start` and the timeout; and else it
  -- changes nothing.
  pub timeout_counts_from_first_call :
      (start current : ℤ) (h later : Held W) (w w' : W)
      → IsInt64 start
      → IsInt64 (start +ℤ timeout)
      → client.now h.world ≡ (ok start, w)
      → has key h.node.annotations ≡ false
      → (handle_timeout client
          (new_node_upgrade_state_provider client driver_name)
          key
          next
          timeout
          h).0
        ≡ ok tt
      → later.node.annotations
        ≡ (handle_timeout client
            (new_node_upgrade_state_provider client driver_name)
            key
            next
            timeout
            h).1.node.annotations
      → client.now later.world ≡ (ok current, w')
      → handle_timeout client
          (new_node_upgrade_state_provider client driver_name)
          key
          next
          timeout
          later
        ≡ (if ltb_ℤ (start +ℤ timeout) current
            then (ignore (change_node_upgrade_state client driver_name next)
                  >> change_node_upgrade_annotation client key null_string)
                (record later { world = w' })
            else (ok tt, record later { world = w' }))
  unfolding new_node_upgrade_state_provider
  timeout_counts_from_first_call start current h later w w' is_start is_sum begun absent fine kept
        now =
      let call = first_call start h w begun absent in
      let written =
        ap (value_of key) (kept ∙ ap (λ r. r.1.node.annotations) call)
        ∙ change_node_upgrade_annotation_reads_back client poll key (format_int start)
            (record h { world = w }) (format_int-ne-null start is_start)
            (sym (ap (λ r. r.0) call) ∙ fine) in
      later_call start current later w' is_start is_sum now written (
        value_present (format_int start) later.node.annotations written
          (format_int-ne-empty start is_start))
