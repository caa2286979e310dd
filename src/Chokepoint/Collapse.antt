-- ===== src/Chokepoint/Collapse.antt =====
-- `escalate` and `collapse` of harnessd/spawn/chokepoint.py.
pub mod Outcome
pub mod Again
use Prim.Native.String.{◌++◌}
use long_horizon_agentic_har.Prelude.{
  String, str_eq, Bool, true, false, not, ◌&&◌, Option, none, some, List, [], ◌∷◌, if◌then◌else◌,
}
use long_horizon_agentic_har.Result.{Result, ok, err, value_error, ◌>>=◌}
use long_horizon_agentic_har.Value.{Value, null, bool, str, json, same, truthy}
use long_horizon_agentic_har.Dict
use long_horizon_agentic_har.Dict.{Dict}
use long_horizon_agentic_har.States.{is_terminal_value}
use long_horizon_agentic_har.Validate.{or_null}
use long_horizon_agentic_har.Addressing.Paths.{node_dir, signal_path, inbox_path}
use long_horizon_agentic_har.Ledger.Journal.{Journal}
use long_horizon_agentic_har.Executor.{Binding, World, not_running, TransitionResult, refused}
use long_horizon_agentic_har.Executor.Transition.{Request, transition}
use long_horizon_agentic_har.Runtime.{
  Artifact, unreadable, not_json, not_object, payload, Message, Site, Tree, append_line, on_world,
  set_world,
}
use long_horizon_agentic_har.Detector.Signals.{ts_is_newer}

abbrev pub collapse_targets : Dict String
collapse_targets =
    ("DONE", "done")
    ∷ ("FAILED", "failed")
    ∷ ("DIED", "failed")
    ∷ ("DIED_INFRA", "failed")
    ∷ ("DIED_METHODOLOGY", "failed")
    ∷ ("DEAD", "dead")
    ∷ []

abbrev pub collapse_events : Dict String
collapse_events =
    ("DONE", "signal_DONE")
    ∷ ("FAILED", "signal_FAILED")
    ∷ ("DIED_INFRA", "died_infrastructure")
    ∷ ("DIED_METHODOLOGY", "died_methodology")
    ∷ ("DIED", "died_infrastructure")
    ∷ ("DEAD", "collapse_dead")
    ∷ []

abbrev pub escalate_request : String → Value → Value → String → Request
escalate_request node_address generation expected_owner_token now = record {
  node_address = node_address;
  expected_state = str "running";
  expected_generation = generation;
  expected_owner_token = expected_owner_token;
  target_state = "running";
  binding_delta = ("terminal_signal", str "ESCALATED") ∷ ("terminal_signal_at", str now) ∷ [];
  new_lease_epoch = null;
  new_owner_token = null;
  event = "signal_ESCALATED";
  summary = "ESCALATED slot-hold";
  artifacts = json "[]";
}

abbrev pub collapse_request : String → Value → Value → Value → String → String → String → Request
collapse_request node_address state generation expected_owner_token target event terminal_signal =
    record {
      node_address = node_address;
      expected_state = state;
      expected_generation = generation;
      expected_owner_token = expected_owner_token;
      target_state = target;
      binding_delta =
          ("terminal_signal", str terminal_signal) ∷ ("in_flight_release", bool true) ∷ [];
      new_lease_epoch = null;
      new_owner_token = null;
      event = event;
      summary = "terminal collapse";
      artifacts = json "[]";
    }

-- Whether the escalation in this file is in the run-ledger.
unfoldable pub is_journaled : Site → Value → Binding → Bool
unfolding ts_is_newer
is_journaled site signal_ts live =
    same (or_null (Dict.get "terminal_signal" live)) (str "ESCALATED")
    && not (ts_is_newer site signal_ts (or_null (Dict.get "terminal_signal_at" live)))

-- The notes of the child's signal file, if it can be read; none if reading them raises.
abbrev notes_of : Site → Option Artifact → Option String
notes_of site none = some ""
notes_of site (some unreadable) = some ""
notes_of site (some not_json) = some ""
notes_of site (some not_object) = none
notes_of site (some (payload fields)) =
    let evidence = or_null (Dict.get "evidence" fields) in
    if truthy evidence then site.notes evidence else some ""

abbrev pub collapsed_line : String → String → String → Message
collapsed_line node_address terminal_signal notes = record {
  type = "child_collapsed";
  message =
      "Your child "
      ++ (node_address
          ++ (" collapsed "
              ++ (terminal_signal
                  ++ (". "
                      ++ ((if str_eq notes "" then "" else "Sign-off notes: " ++ (notes ++ ". "))
                          ++ ("Its report and artifacts are in "
                              ++ (node_dir node_address
                                  ++ ("/ (read report.md). Proceed with your own duties for this completion per your role "
                                      ++ "documents."))))))));
}

module _ (j : Journal) where
  abbrev pub escalate_live :
      Site → String → Value → Value → Binding → Tree j → Result (Option TransitionResult × Tree j)
  escalate_live site node_address expected_owner_token signal_ts live t =
      if is_journaled site signal_ts live
      then ok (none, t)
      else if not (same (or_null (Dict.get "state" live)) (str "running"))
      then ok (some (refused not_running (some live)), t)
      else do
        generation ← Dict.index live "generation"
        (result, t') ←
            on_world
              (transition j
                (escalate_request node_address generation expected_owner_token t.world.now))
              t
        ok (some result, t')

  abbrev pub escalate_found :
      Site
      → String
      → Value
      → Value
      → Option Binding
      → Tree j
      → Result (Option TransitionResult × Tree j)
  escalate_found site node_address expected_owner_token signal_ts none t = ok (none, t)
  escalate_found site node_address expected_owner_token signal_ts (some live) t =
      escalate_live site node_address expected_owner_token signal_ts live t

  unfoldable pub escalate :
      Site → String → Value → Value → Tree j → Result (Option TransitionResult × Tree j)
  unfolding transition is_journaled
  escalate site node_address expected_owner_token signal_ts t =
      escalate_found site node_address expected_owner_token signal_ts
        (Dict.get node_address t.world.bindings) t

  abbrev pub notify_live :
      String → String → String → Option String → Option Binding → Tree j → Tree j
  notify_live parent node_address terminal_signal none parent_binding t = t
  notify_live parent node_address terminal_signal (some notes) none t = t
  notify_live parent node_address terminal_signal (some notes) (some b) t =
      if is_terminal_value (or_null (Dict.get "state" b))
      then t
      else append_line (inbox_path parent) (collapsed_line node_address terminal_signal notes) t

  abbrev pub notify_parent : Site → Value → String → String → Tree j → Tree j
  notify_parent site (str parent) node_address terminal_signal t =
      if str_eq parent ""
      then t
      else notify_live parent node_address terminal_signal
          (notes_of site (Dict.get (signal_path node_address) t.signals))
          (Dict.get parent t.world.bindings) t
  notify_parent site parent node_address terminal_signal t = t

  -- Best effort: the parent of a collapsed node gets one line.
  unfoldable pub notify_parent_of_collapse : Site → String → Binding → String → Tree j → Tree j
  notify_parent_of_collapse site node_address collapsed terminal_signal t =
      notify_parent site (or_null (Dict.get "parent_address" collapsed)) node_address
        terminal_signal t

  abbrev pub notified :
      Site
      → String
      → Binding
      → String
      → TransitionResult × Tree j
      → Option TransitionResult × Tree j
  notified site node_address live terminal_signal (result, t) = (
    some result,
    if result.committed
        then notify_parent_of_collapse site node_address live terminal_signal t
        else t,
  )

  abbrev pub collapse_live :
      Site
      → String
      → String
      → String
      → Value
      → Binding
      → Tree j
      → Result (Option TransitionResult × Tree j)
  collapse_live site node_address terminal_signal target expected_owner_token live t = do
    state ← Dict.index live "state"
    generation ← Dict.index live "generation"
    event ← Dict.index collapse_events terminal_signal
    x ←
        on_world
          (transition j (
            collapse_request node_address state generation expected_owner_token target event
              terminal_signal))
          t
    ok (notified site node_address live terminal_signal x)

  abbrev pub collapse_found :
      Site
      → String
      → String
      → Value
      → Option String
      → Option Binding
      → Tree j
      → Result (Option TransitionResult × Tree j)
  collapse_found site node_address terminal_signal expected_owner_token none live t =
      err value_error
  collapse_found site node_address terminal_signal expected_owner_token (some target) none t =
      ok (none, t)
  collapse_found site node_address terminal_signal expected_owner_token (some target) (some live)
        t =
      collapse_live site node_address terminal_signal target expected_owner_token live t

  -- An escalation is no collapse, and neither is a signal outside the vocabulary: both raise.
  unfoldable pub collapse :
      Site → String → String → Value → Tree j → Result (Option TransitionResult × Tree j)
  unfolding transition notify_parent_of_collapse
  collapse site node_address terminal_signal expected_owner_token t =
      if str_eq terminal_signal "ESCALATED"
      then err value_error
      else collapse_found site node_address terminal_signal expected_owner_token
          (Dict.get terminal_signal collapse_targets) (Dict.get node_address t.world.bindings) t
