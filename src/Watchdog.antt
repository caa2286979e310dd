-- ===== src/Watchdog.antt =====
-- harnessd/watchdog.py: the sign-off of a node, the ladder of an idle leaf, and the probe of a dead
-- coordinator.
pub mod Signed
pub mod Gates
pub mod Failed
use Prim.Native.String.{◌++◌}
use Prim.Native.String as Text
use text.Mathlib.Text.{starts_with}
use long_horizon_agentic_har.Prelude.{
  ℕ, ◌+◌, String, str_eq, Bool, true, false, not, ◌&&◌, ◌||◌, ltb, leb, Option, none, some, List,
  [], ◌∷◌, if◌then◌else◌,
}
use long_horizon_agentic_har.Strings.{contains}
use long_horizon_agentic_har.Result.{Result, ok, err, type_error, ◌>>=◌}
use long_horizon_agentic_har.Value.{Value, null, num, str, json, same, is_null, truthy}
use long_horizon_agentic_har.Dict
use long_horizon_agentic_har.Dict.{Dict}
use long_horizon_agentic_har.States.{is_terminal_value}
use long_horizon_agentic_har.Validate.{or_null}
use long_horizon_agentic_har.Addressing.{split_address, partition_hash}
use long_horizon_agentic_har.Addressing.Paths.{inbox_path}
use long_horizon_agentic_har.Ledger.{Entry}
use long_horizon_agentic_har.Ledger.Journal.{Journal}
use long_horizon_agentic_har.Executor.{Binding, Bindings, Reason, TransitionResult}
use long_horizon_agentic_har.Executor.Transition.{Request, transition}
use long_horizon_agentic_har.Executor.Checkpoint.{
  Observation, CheckpointResult, watchdog_checkpoint,
}
use long_horizon_agentic_har.Runtime.{Message, Site, Tree, lines_of, lines_size, is_older, on_world}
use long_horizon_agentic_har.Detector.{Liveness, w_window, liveness}
use long_horizon_agentic_har.Detector.Signals.{
  captured, pane_working_marker, read_terminal_signal, escalation_answered,
}
use long_horizon_agentic_har.Chokepoint.{subtree_paused}
use long_horizon_agentic_har.Chokepoint.Collapse.{escalate, collapse}
use long_horizon_agentic_har.ReturnContract.Trace.{Defect, check_done_contract}
use long_horizon_agentic_har.ReturnContract.{journal_defects_once}
use long_horizon_agentic_har.Watchdog.Gates.{
  WatchdogAction, action, errors_of, is_refused, has_result, prod_precondition, num_or, unacked,
  wake_keystroke, stale_count, grace_checks, age_beyond_w, prodded, fail_request, observation,
  names_coordinator_death, has_live_children, escalate_journal_failed, escalated_holds_slot,
  return_contract_failed, collapse_failed, collapsed, paused_subtree, not_idle, idle_within_w,
  prod_gate_closed, fail_transition_aborted, watchdog_nonresponse, recoverable_orphan,
  quiet_alive_with_children, no_live_subtree, collapse_node, noop, failed, escalation, wait,
}

module _ (j : Journal) where
  abbrev after_escalate :
      Site
      → String
      → Binding
      → Value
      → Option TransitionResult × Tree j
      → Option WatchdogAction × Tree j
  after_escalate site a binding ts (result, t) = (
    if is_refused result
        then some (action noop a (escalate_journal_failed (errors_of result)))
        else if has_result result || not (escalation_answered site binding ts)
        then some (action noop a (escalated_holds_slot (has_result result)))
        else none,
    t,
  )

  abbrev after_collapse :
      String → String → Value → Option TransitionResult × Tree j → Option WatchdogAction × Tree j
  after_collapse a signal evidence (result, t) = (
    some (
        if is_refused result
        then action noop a (collapse_failed (errors_of result))
        else action collapse_node a (collapsed signal evidence)),
    t,
  )

  abbrev collapse_signal :
      Site → String → Binding → String → Value → Tree j → Result (Option WatchdogAction × Tree j)
  collapse_signal site a binding signal evidence t = do
    x ← collapse j site a signal (or_null (Dict.get "owner_token" binding)) t
    ok (after_collapse a signal evidence x)

  -- A DONE whose artifacts fail the contract is refused, and not collapsed.
  abbrev done_signal :
      Site
      → String
      → Binding
      → Value
      → Value
      → List Defect
      → Tree j
      → Result (Option WatchdogAction × Tree j)
  done_signal site a binding ts evidence [] t = collapse_signal site a binding "DONE" evidence t
  done_signal site a binding ts evidence (d ∷ ds) t = ok (
    some (action noop a (return_contract_failed (d ∷ ds))),
    (journal_defects_once j a binding ts (d ∷ ds) t).1,
  )

  abbrev on_signal :
      Site → String → Binding → Dict Value → Tree j → Result (Option WatchdogAction × Tree j)
  on_signal site a binding sig t =
      let signal = or_null (Dict.get "signal" sig) in
      let ts = or_null (Dict.get "ts" sig) in
      let evidence = or_null (Dict.get "evidence" sig) in
      if same signal (str "ESCALATED")
      then (do
        x ← escalate j site a (or_null (Dict.get "owner_token" binding)) ts t
        ok (after_escalate site a binding ts x))
      else if same signal (str "DONE")
      then done_signal site a binding ts evidence (check_done_contract site a binding) t
      else if same signal (str "FAILED")
      then collapse_signal site a binding "FAILED" evidence t
      else ok (none, t)

  abbrev on_terminal_signal :
      Site
      → String
      → Binding
      → Option (Dict Value) × Tree j
      → Result (Option WatchdogAction × Tree j)
  on_terminal_signal site a binding (none, t) = ok (none, t)
  on_terminal_signal site a binding (some sig, t) = on_signal site a binding sig t

  -- The sign-off of a leaf or a coordinator; no action if there is none to act on.
  unfoldable pub check_terminal_signal :
      Site → String → Binding → Tree j → Result (Option WatchdogAction × Tree j)
  unfolding read_terminal_signal escalate escalation_answered collapse check_done_contract
      journal_defects_once
  check_terminal_signal site a binding t =
      on_terminal_signal site a binding (read_terminal_signal a binding t)

  abbrev after_fail : String → Value → TransitionResult × Tree j → WatchdogAction × Tree j
  after_fail a parent (result, t) = (
    if not result.committed
        then action noop a (fail_transition_aborted result.errors)
        else record { kind = failed; node = a; target = parent; detail = watchdog_nonresponse },
    t,
  )

  unfoldable pub fail_and_escalate : String → Binding → Tree j → Result (WatchdogAction × Tree j)
  unfolding transition
  fail_and_escalate a binding t = do
    state ← Dict.index binding "state"
    generation ← Dict.index binding "generation"
    x ←
        on_world
          (transition j
            (fail_request a state generation (or_null (Dict.get "owner_token" binding))))
          t
    ok (after_fail a (or_null (Dict.get "parent_address" binding)) x)

  unfoldable pub checkpoint : String → Binding → String → Value → Tree j → Result (Tree j)
  unfolding watchdog_checkpoint
  checkpoint a binding liveness_state last_progress_at t = do
    (result, t') ←
        on_world
          (watchdog_checkpoint j a (observation liveness_state last_progress_at)
            (or_null (Dict.get "owner_token" binding)))
          t
    ok t'

  -- The rungs of the ladder for an idle node that is overdue.
  abbrev pub rung :
      Site → String → Binding → Value → ℕ → ℕ → Tree j → Result (WatchdogAction × Tree j)
  rung site a binding last_progress_at count grace t =
      if leb grace count
      then fail_and_escalate a binding t
      else if not (prod_precondition site binding)
      then ok (action noop a prod_gate_closed, t)
      else do t' ← checkpoint a binding "idle" last_progress_at t; ok (prodded a count grace, t')

  unfoldable pub ladder :
      Site → String → Binding → Value → Tree j → Result (WatchdogAction × Tree j)
  unfolding fail_and_escalate prod_precondition checkpoint wake_keystroke stale_count grace_checks
  ladder site a binding last_progress_at t = do
    count ← stale_count binding
    grace ← grace_checks binding
    rung site a binding last_progress_at count grace t

  -- A node that is not idle drops the count that it has accrued.
  abbrev pub recovered : String → Binding → Liveness → Tree j → Result (WatchdogAction × Tree j)
  recovered a binding v t = do
    t' ←
        (if (str_eq v.state "working" || str_eq v.state "waiting")
            && truthy (or_null (Dict.get "stale_check_count" binding))
          then checkpoint a binding v.state v.last_progress_at t
          else ok t)
    ok (action noop a (not_idle v.state), t')

  unfoldable pub judge :
      Site → String → Binding → String → Liveness → Tree j → Result (WatchdogAction × Tree j)
  unfolding ladder checkpoint age_beyond_w w_window
  judge site a binding now v t = if not (str_eq v.state "idle") then recovered a binding v t else do
    overdue ← age_beyond_w site v.last_progress_at (w_window binding) now
    if not overdue
        then ok (action noop a idle_within_w, t)
        else ladder site a binding v.last_progress_at t

  -- The pause, and then the verdict of the detector.
  abbrev unsigned : Site → String → Binding → String → Tree j → Result (WatchdogAction × Tree j)
  unsigned site a binding now t =
      if subtree_paused a t.world.bindings
      then ok (action noop a paused_subtree, t)
      else do (v, t') ← liveness site a t; judge site a binding now v t'

  abbrev signed_or :
      Site
      → String
      → Binding
      → String
      → Option WatchdogAction × Tree j
      → Result (WatchdogAction × Tree j)
  signed_or site a binding now (some x, t) = ok (x, t)
  signed_or site a binding now (none, t) = unsigned site a binding now t

  unfoldable pub check_leaf :
      Site → String → Binding → String → Tree j → Result (WatchdogAction × Tree j)
  unfolding check_terminal_signal subtree_paused liveness judge
  check_leaf site a binding now t = do
    signed ← check_terminal_signal site a binding t
    signed_or site a binding now signed

  unfoldable pub inbox_has_unacked : Site → String → Binding → Tree j → Result Bool
  unfolding lines_size
  inbox_has_unacked site a binding t = do
    acked ← num_or 0 (or_null (Dict.get "last_inbox_acked_offset" binding))
    ok (unacked site (Dict.get (inbox_path a) t.inboxes) acked)

  abbrev death_action : String → Binding → Bool → Bool → Bool → WatchdogAction
  death_action a binding died live_children paused =
      if died && live_children
      then (if paused then action noop a paused_subtree else record {
        kind = escalation;
        node = a;
        target = or_null (Dict.get "parent_address" binding);
        detail = recoverable_orphan;
      })
      else if live_children
      then action wait a quiet_alive_with_children
      else action noop a (no_live_subtree died)

  abbrev died_or_read : Tree j → String → Value → Result Bool
  died_or_read t a state =
      if same state (str "dead")
      then ok true
      else do wal ← j.load t.world.wal; ok (names_coordinator_death a wal)

  unfoldable pub check_coordinator_death : String → Binding → Tree j → Result WatchdogAction
  unfolding names_coordinator_death has_live_children subtree_paused
  check_coordinator_death a binding t = do
    died ← died_or_read t a (or_null (Dict.get "state" binding))
    ok (
        death_action a binding died (has_live_children a t.world.bindings)
          (subtree_paused a t.world.bindings))
