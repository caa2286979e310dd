-- ===== src/Chokepoint/Kickoff.antt =====
-- The records of a spawn and the gate of its kickoff, in harnessd/spawn/chokepoint.py.
use Prim.Native.String.{◌++◌}
use long_horizon_agentic_har.Prelude.{
  ℕ, String, str_eq, Bool, false, ◌||◌, Option, none, some, List, [], ◌∷◌, if◌then◌else◌,
}
use mathlib.Core.List as L
use long_horizon_agentic_har.Strings.{contains}
use long_horizon_agentic_har.Value.{Value, null, str, json, truthy}
use long_horizon_agentic_har.Dict
use long_horizon_agentic_har.Dict.{Dict}
use long_horizon_agentic_har.Validate.{or_null}
use long_horizon_agentic_har.Addressing.{split_address}
use long_horizon_agentic_har.Addressing.Paths.{node_dir}
use long_horizon_agentic_har.Executor.{Binding}
use long_horizon_agentic_har.Executor.Transition.{Request}
use long_horizon_agentic_har.Runtime.{Message, Site}
use long_horizon_agentic_har.Detector.Signals.{pane_working_marker}

pub record LevelConfig : Type 0 where
  pub level : String
  pub role_variant : String

pub record SpawnResult : Type 0 where
  pub spawned : Bool
  pub session_uuid : Value
  pub model_used : String
  pub role_variant : String
  pub system_prompt_file : String
  pub tmux_target : String
  pub transcript_path : Value
  pub failure_class : Option String
  pub permission_posture : Value

-- What `pin_and_open` of an adapter does: it raises a refusal with its class, raises anything else,
-- or returns.
pub data Opening : Type 0 where
  refused_spawn : Option String → String → Opening
  exception : String → Opening
  opened : SpawnResult → Opening

-- The pointers that the gate and the brief are built on.
pub record WorkNode : Type 0 where
  pub workspace : Value
  pub spec_pointer : Value
  pub frozen_acceptance_ref : Value

-- The adapter, the check of the pieces (none if it passes), and the texts that the pane shows at the
-- successive polls after the boot.
pub record Spawner : Type 0 where
  pub pin_and_open : String → LevelConfig → Option Value → Opening
  pub check_boundary : String → LevelConfig → WorkNode → Option String
  pub boot : String → List String

abbrev pub result_failed : String → String → String → SpawnResult
result_failed failure_class tmux_target model_used = record {
  spawned = false;
  session_uuid = null;
  model_used = model_used;
  role_variant = "";
  system_prompt_file = "operational/shared/system-prompt.md";
  tmux_target = tmux_target;
  transcript_path = null;
  failure_class = some failure_class;
  permission_posture = null;
}

abbrev pub class_or : String → Option String → String
class_or default none = default
class_or default (some c) = if str_eq c "" then default else c

unfoldable pub kickoff_gate_open : String → Bool
unfolding contains
kickoff_gate_open pane_text =
    if str_eq pane_text ""
      || (contains pane_working_marker pane_text
          || (contains "Enter to confirm" pane_text || contains "Esc to cancel" pane_text))
    then false
    else contains "❯" pane_text || contains "›" pane_text

-- The bounded poll: the texts that are captured before the deadline.
unfoldable pub await_kickoff_gate : List String → Bool
unfolding kickoff_gate_open
await_kickoff_gate [] = false
await_kickoff_gate (pane ∷ panes) = kickoff_gate_open pane || await_kickoff_gate panes

abbrev pub kickoff_pointer : String → String
kickoff_pointer node_address =
    "You are "
    ++ (node_address
        ++ (". Read brief.md in your workspace at "
            ++ (node_dir node_address
                ++ (" and follow it. First act, before any work: write plan.md — a one-line goal plus a task checklist "
                    ++ ("whose final three items are: fill report.md, verify your requirement-ID citations, "
                        ++ ("sign off — and mirror it in your task tool. Messages arrive in .inbox."
                            ++ ((split_address node_address).1 ++ ".jsonl.")))))))

abbrev pub kickoff_line : String → Message
kickoff_line node_address = record { type = "kickoff"; message = kickoff_pointer node_address }

abbrev size_or_zero : Option ℕ → ℕ
size_or_zero none = 0
size_or_zero (some n) = n

abbrev pub transcript_size : Site → Value → ℕ
transcript_size site (str path) = if str_eq path "" then 0 else size_or_zero (site.transcript path)
transcript_size site path = 0

abbrev given_text : String → String → Dict Value
given_text key value = if str_eq value "" then [] else (key, str value) ∷ []

abbrev given_value : String → Value → Dict Value
given_value key value = if truthy value then (key, value) ∷ [] else []

abbrev pub open_request : String → Value → Value → SpawnResult → Request
open_request node_address generation owner_token r = record {
  node_address = node_address;
  expected_state = str "claimed";
  expected_generation = generation;
  expected_owner_token = owner_token;
  target_state = "spawning";
  binding_delta =
      L.◌++◌
        (("session_uuid", r.session_uuid)
          ∷ ("transcript_path", r.transcript_path)
          ∷ ("model_used", str r.model_used)
          ∷ ("role_variant", str r.role_variant)
          ∷ ("system_prompt_file", str r.system_prompt_file)
          ∷ [])
        (L.◌++◌ (given_text "tmux_target" r.tmux_target)
          (given_value "permission_posture" r.permission_posture));
  new_lease_epoch = null;
  new_owner_token = null;
  event = "spawn_open";
  summary = "STEP4: actor opened";
  artifacts = json "[]";
}

abbrev pub running_request : String → Value → Value → Request
running_request node_address generation owner_token = record {
  node_address = node_address;
  expected_state = str "spawning";
  expected_generation = generation;
  expected_owner_token = owner_token;
  target_state = "running";
  binding_delta = [];
  new_lease_epoch = null;
  new_owner_token = null;
  event = "spawn_running";
  summary = "STEP5: actor confirmed boot";
  artifacts = json "[]";
}

abbrev pub or_bare : Option Binding → Binding
or_bare none = []
or_bare (some b) = b

abbrev has_file : String → Option (Dict String) → Bool
has_file name none = false
has_file name (some files) = Dict.has name files

-- A pointer of the binding, or else the node's own file if it is there.
abbrev derived : Site → String → String → Value → Value
derived site node_address name pointer =
    if truthy pointer
    then pointer
    else if has_file name (site.workspace (node_dir node_address))
    then str (node_dir node_address ++ ("/" ++ name))
    else pointer

unfoldable pub work_node_for : Site → String → Binding → WorkNode
work_node_for site node_address binding = record {
  workspace = or_null (Dict.get "workspace" binding);
  spec_pointer = derived site node_address "brief.md" (or_null (Dict.get "spec_pointer" binding));
  frozen_acceptance_ref =
      derived site node_address "acceptance.md"
        (or_null (Dict.get "frozen_acceptance_ref" binding));
}
