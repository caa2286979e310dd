-- ===== src/Watchdog/Gates.antt =====
-- The tests and records of harnessd/watchdog.py that write nothing.
use Prim.Native.String.{◌++◌}
use Prim.Native.String as Text
use text.Mathlib.Text.{starts_with}
use long_horizon_agentic_har.Prelude.{
  ℕ, ◌+◌, String, str_eq, Bool, true, false, not, ◌&&◌, ◌||◌, ltb, Option, none, some, List, [],
  ◌∷◌, if◌then◌else◌,
}
use long_horizon_agentic_har.Strings.{contains}
use long_horizon_agentic_har.Result.{Result, ok, err, type_error}
use long_horizon_agentic_har.Value.{Value, null, num, str, json, same, truthy}
use long_horizon_agentic_har.Dict
use long_horizon_agentic_har.Dict.{Dict}
use long_horizon_agentic_har.States.{is_terminal_value}
use long_horizon_agentic_har.Validate.{or_null}
use long_horizon_agentic_har.Addressing.{split_address, partition_hash}
use long_horizon_agentic_har.Ledger.{Entry}
use long_horizon_agentic_har.Executor.{Binding, Bindings, Reason, TransitionResult}
use long_horizon_agentic_har.Executor.Transition.{Request}
use long_horizon_agentic_har.Executor.Checkpoint.{Observation}
use long_horizon_agentic_har.Runtime.{Message, Site, lines_size, is_older}
use long_horizon_agentic_har.Detector.Signals.{captured, pane_working_marker}
use long_horizon_agentic_har.ReturnContract.Trace.{Defect}

-- The `kind` and the `detail` of an action.
pub data Detail : Type 0 where
  escalate_journal_failed : List Reason → Detail
  escalated_holds_slot : Bool → Detail
  return_contract_failed : List Defect → Detail
  collapse_failed : List Reason → Detail
  collapsed : String → Value → Detail
  paused_subtree : Detail
  not_idle : String → Detail
  idle_within_w : Detail
  prod_gate_closed : Detail
  idle_within_grace : ℕ → ℕ → String → Detail
  fail_transition_aborted : List Reason → Detail
  watchdog_nonresponse : Detail
  recoverable_orphan : Detail
  quiet_alive_with_children : Detail
  no_live_subtree : Bool → Detail

pub data Kind : Type 0 where
  collapse_node noop prod failed escalation wait : Kind

pub record WatchdogAction : Type 0 where
  pub kind : Kind
  pub node : String
  pub target : Value
  pub detail : Detail

abbrev pub action : Kind → String → Detail → WatchdogAction
action kind node detail = record { kind = kind; node = node; target = null; detail = detail }

abbrev pub errors_of : Option TransitionResult → List Reason
errors_of none = []
errors_of (some result) = result.errors

-- result is not None and not result.ok
abbrev pub is_refused : Option TransitionResult → Bool
is_refused none = false
is_refused (some result) = not result.committed

abbrev pub has_result : Option TransitionResult → Bool
has_result none = false
has_result (some result) = true

abbrev dialog_marked : String → Bool
dialog_marked pane = contains "Enter to confirm" pane || contains "Esc to cancel" pane

abbrev pub shows_prompt : String → Bool
shows_prompt pane =
    if str_eq pane "" || (contains pane_working_marker pane || dialog_marked pane)
    then false
    else contains "❯" pane || contains "›" pane

abbrev pub prompt_at : Site → Value → Bool
prompt_at site target = shows_prompt (if truthy target then captured site target else "")

-- The pane shows the idle prompt, and neither a turn in flight nor a dialog.
unfoldable pub prod_precondition : Site → Binding → Bool
unfolding contains
prod_precondition site node = prompt_at site (or_null (Dict.get "tmux_target" node))

abbrev pub grew_past : Option ℕ → ℕ → Bool
grew_past none before = false
grew_past (some now) before = ltb before now

abbrev path_grew : Site → Value → ℕ → Bool
path_grew site (str path) before = not (str_eq path "") && grew_past (site.transcript path) before
path_grew site path before = false

-- A prod has worked if the transcript has grown since.
unfoldable pub confirm_prod_worked : Site → Binding → ℕ → Bool
confirm_prod_worked site node jsonl_size_before =
    path_grew site (or_null (Dict.get "transcript_path" node)) jsonl_size_before

abbrev pub num_or : ℕ → Value → Result ℕ
num_or default null = ok default
num_or default (num n) = ok n
num_or default _ = err type_error

abbrev pub unacked : Site → Option (List Message) → ℕ → Bool
unacked site none acked = false
unacked site (some lines) acked = ltb acked (lines_size site lines)

-- The keys of a nudge: a pointer to the inbox, never a message.
unfoldable pub wake_keystroke : String → String
wake_keystroke node_address =
    "new message in your inbox — re-read .inbox."
    ++ ((split_address node_address).1 ++ ".jsonl in your workspace and resume")

-- binding.get("stale_check_count", 0) or 0, and the grace, which is 2 if none is set
unfoldable pub stale_count : Binding → Result ℕ
stale_count binding = num_or 0 (or_null (Dict.get "stale_check_count" binding))

unfoldable pub grace_checks : Binding → Result ℕ
grace_checks binding = num_or 2 (or_null (Dict.get "stale_grace_checks" binding))

-- watchdog._age_beyond_w; no stamp is overdue
unfoldable pub age_beyond_w : Site → Value → ℕ → String → Result Bool
age_beyond_w site last_progress_at window now =
    if not (truthy last_progress_at) then ok true else is_older site last_progress_at now window

abbrev pub prodded : String → ℕ → ℕ → WatchdogAction
prodded a count grace = action prod a (idle_within_grace (count + 1) grace (wake_keystroke a))

abbrev pub fail_request : String → Value → Value → Value → Request
fail_request node_address state generation owner_token = record {
  node_address = node_address;
  expected_state = state;
  expected_generation = generation;
  expected_owner_token = owner_token;
  target_state = "failed";
  binding_delta =
      ("terminal_signal", str "FAILED") ∷ ("terminal_note", str "watchdog_nonresponse") ∷ [];
  new_lease_epoch = null;
  new_owner_token = null;
  event = "watchdog_nonresponse";
  summary = "watchdog-imposed FAILED";
  artifacts = json "[]";
}

abbrev pub observation : String → Value → Observation
observation liveness_state last_progress_at = record {
  condition = if str_eq liveness_state "idle" then "idle" else "healthy";
  liveness_state = liveness_state;
  last_progress_at = last_progress_at;
  last_evidence = null;
  gate_crossed_at = null;
}

unfoldable pub names_coordinator_death : String → List Entry → Bool
names_coordinator_death node_address [] = false
names_coordinator_death node_address (e ∷ es) =
    (str_eq e.node_address node_address && str_eq e.event "coordinator_died")
    || names_coordinator_death node_address es

-- The other binding names this one as its parent, or lies below its path.
abbrev pub is_child : String → String → Binding → Bool
is_child node_address child_address child =
    same (or_null (Dict.get "parent_address" child)) (str node_address)
    || starts_with (partition_hash child_address).0 (Text.◌++◌ (partition_hash node_address).0 "/")

unfoldable pub has_live_children : String → Bindings → Bool
unfolding partition_hash
has_live_children node_address [] = false
has_live_children node_address ((a, b) ∷ bindings) =
    (not (str_eq a node_address)
      && (is_child node_address a b && not (is_terminal_value (or_null (Dict.get "state" b)))))
    || has_live_children node_address bindings
