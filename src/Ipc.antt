-- ===== src/Ipc.antt =====
-- The verbs of harnessd/ipc.py by which an operator writes: transition, kill, pause, resume, answer.
pub mod Pause
pub mod Answer
use Prim.Native.String.{◌++◌}
use long_horizon_agentic_har.Prelude.{
  String, str_eq, Bool, true, false, not, Option, none, some, List, [], ◌∷◌, if◌then◌else◌,
}
use long_horizon_agentic_har.Result.{Error, key_error, value_error, Result, ok, err, ◌>>=◌}
use long_horizon_agentic_har.Value.{Value, null, str, json, same, truthy}
use long_horizon_agentic_har.Dict
use long_horizon_agentic_har.Dict.{Dict}
use long_horizon_agentic_har.Validate.{Notice, or_null}
use long_horizon_agentic_har.Addressing.Paths.{inbox_path}
use long_horizon_agentic_har.Ledger.Journal.{Journal}
use long_horizon_agentic_har.Executor.{Binding, World, Reason, TransitionResult}
use long_horizon_agentic_har.Executor.Transition.{Request, transition}
use long_horizon_agentic_har.Executor.OwnSlice
use long_horizon_agentic_har.Executor.OwnSlice.{pause, post_answer}
use long_horizon_agentic_har.Runtime.{Message, Site, Tree, on_world, append_line}
use long_horizon_agentic_har.Detector.{signal_of}
use long_horizon_agentic_har.Detector.Signals.{read_terminal_signal}
use long_horizon_agentic_har.Chokepoint.Collapse.{collapse}

pub data Problem : Type 0 where
  executor : Reason → Problem
  signal_refused no_such_node no_content nothing_to_answer : Problem

pub record Response : Type 0 where
  pub accepted : Bool
  pub errors : List Problem
  pub warnings : List Notice
  pub binding : Option Binding
  pub wake_target : Option String

abbrev problems : List Reason → List Problem
problems [] = []
problems (r ∷ rs) = executor r ∷ problems rs

unfoldable pub transition_response : TransitionResult → Response
transition_response result = record {
  accepted = result.committed;
  errors = problems result.errors;
  warnings = result.warnings;
  binding = result.binding;
  wake_target = none;
}

abbrev refusal : Problem → Option Binding → Response
refusal problem binding = record {
  accepted = false;
  errors = problem ∷ [];
  warnings = [];
  binding = binding;
  wake_target = none;
}

abbrev pub answer_line : String → Message
answer_line addr = record {
  type = "answer_posted";
  message = "human answer posted for " ++ (addr ++ ", execute the decision-down");
}

module _ (j : Journal) where
  -- The reply to a call of the single writer.
  abbrev pub respond :
      (World j → Result (TransitionResult × World j)) → Tree j → Result (Response × Tree j)
  respond step t = do (result, t') ← on_world step t; ok (transition_response result, t')

  unfoldable pub handle_transition : Request → Tree j → Result (Response × Tree j)
  unfolding transition transition_response
  handle_transition request t = respond (transition j request) t

  unfoldable pub handle_pause : String → Value → Tree j → Result (Response × Tree j)
  unfolding pause transition_response
  handle_pause addr expected_owner_token t = respond (pause j addr null expected_owner_token) t

  unfoldable pub handle_resume : String → Value → Tree j → Result (Response × Tree j)
  unfolding OwnSlice.resume transition_response
  handle_resume addr expected_owner_token t =
      respond (OwnSlice.resume j addr expected_owner_token) t

  abbrev pub killed :
      Tree j → Result (Option TransitionResult × Tree j) → Result (Response × Tree j)
  killed t (err value_error) = ok (refusal signal_refused none, t)
  killed t (err e) = err e
  killed t (ok (none, t')) = ok (refusal no_such_node none, t')
  killed t (ok (some result, t')) = ok (transition_response result, t')

  unfoldable pub handle_kill : Site → String → String → Value → Tree j → Result (Response × Tree j)
  unfolding collapse transition_response
  handle_kill site addr terminal_signal expected_owner_token t =
      killed t (collapse j site addr terminal_signal expected_owner_token t)

  -- The stamp, or else the signal file of a node that the watchdog has not come to yet.
  abbrev pub is_escalated : String → Binding → Tree j → Bool × Tree j
  is_escalated addr binding t =
      if same (or_null (Dict.get "terminal_signal" binding)) (str "ESCALATED")
      then (true, t)
      else let (sig, t') = read_terminal_signal addr binding t in
        (same (signal_of sig) (str "ESCALATED"), t')

  abbrev pub next_up : String → Value → String
  next_up addr (str parent) = if str_eq parent "" then addr else parent
  next_up addr parent = addr

  abbrev pub posted : String → Binding → TransitionResult × Tree j → Response × Tree j
  posted addr binding (result, t) =
      if not result.committed
      then (transition_response result, t)
      else let wake_target = next_up addr (or_null (Dict.get "parent_address" binding)) in
        (
          record (transition_response result) { wake_target = some wake_target },
          append_line (inbox_path wake_target) (answer_line addr) t,
        )

  abbrev pub answer_escalated :
      String → String → Binding → Bool × Tree j → Result (Response × Tree j)
  answer_escalated addr content binding (false, t) =
      ok (refusal nothing_to_answer (some binding), t)
  answer_escalated addr content binding (true, t) = do
    x ← on_world (post_answer j addr content null) t
    ok (posted addr binding x)

  abbrev pub answer_found : String → String → Option Binding → Tree j → Result (Response × Tree j)
  answer_found addr content none t = ok (refusal no_such_node none, t)
  answer_found addr content (some binding) t =
      answer_escalated addr content binding (is_escalated addr binding t)

  -- The stamp of the answer first, and then one line for the node above.
  unfoldable pub handle_answer : String → String → Tree j → Result (Response × Tree j)
  unfolding read_terminal_signal post_answer transition_response
  handle_answer addr content t =
      if str_eq content ""
      then ok (refusal no_content none, t)
      else answer_found addr content (Dict.get addr t.world.bindings) t
