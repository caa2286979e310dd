-- ===== src/States.antt =====
-- harnessd/states.py: the lifecycle states, the legality table and the terminal vocabulary.
pub mod Edges
pub mod History
use long_horizon_agentic_har.Prelude.{
  String, str_eq, Bool, true, false, Option, none, some, List, [], ◌∷◌, ◌++◌, ◌||◌, ◌≡◌, refl,
  if◌then◌else◌,
}
use long_horizon_agentic_har.Dict
use long_horizon_agentic_har.Dict.{Dict}
use long_horizon_agentic_har.Value.{Value, null, bool, num, str, json}

-- s in xs
abbrev pub contains : String → List String → Bool
contains s [] = false
contains s (x ∷ xs) = str_eq x s || contains s xs

abbrev pub known_states : List String
known_states =
    "planned" ∷ "claimed" ∷ "spawning" ∷ "running" ∷ "blocked" ∷ "done" ∷ "failed" ∷ "dead" ∷ []

abbrev pub terminal_states : List String
terminal_states = "done" ∷ "failed" ∷ "dead" ∷ []

-- xs - ys, as sets
abbrev pub difference : List String → List String → List String
difference [] ys = []
difference (x ∷ xs) ys = let rest = difference xs ys in if contains x ys then rest else x ∷ rest

abbrev pub non_terminal_states : List String
non_terminal_states = difference known_states terminal_states

abbrev pub explicit_transitions : Dict (List String)
explicit_transitions =
    ("planned", "claimed" ∷ [])
    ∷ ("claimed", "spawning" ∷ "planned" ∷ [])
    ∷ ("spawning", "running" ∷ "planned" ∷ "failed" ∷ [])
    ∷ ("running", "blocked" ∷ "done" ∷ "failed" ∷ "claimed" ∷ [])
    ∷ ("blocked", "running" ∷ [])
    ∷ ("done", [])
    ∷ ("failed", [])
    ∷ ("dead", "claimed" ∷ [])
    ∷ []

-- xs.add(s), on a set
abbrev add : String → List String → List String
add s xs = if contains s xs then xs else xs ++ s ∷ []

-- table[state].add(target); each state of the loop below is a key of the table
abbrev add_target : String → String → Dict (List String) → Dict (List String)
add_target state target [] = []
add_target state target ((j, ts) ∷ d) =
    if str_eq j state then (j, add target ts) ∷ d else (j, ts) ∷ add_target state target d

abbrev fold_deaths : List String → Dict (List String) → Dict (List String)
fold_deaths [] table = table
fold_deaths (s ∷ ss) table = fold_deaths ss (add_target s "failed" (add_target s "dead" table))

abbrev set_defaults : List String → Dict (List String) → Dict (List String)
set_defaults [] table = table
set_defaults (s ∷ ss) table =
    set_defaults ss (if Dict.has s table then table else Dict.set s [] table)

abbrev pub build_allowed_transitions : Dict (List String)
unfolding Dict.get Dict.set
build_allowed_transitions =
    set_defaults known_states (fold_deaths non_terminal_states explicit_transitions)

unfoldable pub allowed_transitions : Dict (List String)
unfolding Dict.get Dict.set
allowed_transitions = build_allowed_transitions

unfoldable pub is_terminal : String → Bool
is_terminal state = contains state terminal_states

-- ALLOWED_TRANSITIONS.get(from_state, frozenset())
abbrev pub or_empty : Option (List String) → List String
or_empty none = []
or_empty (some ts) = ts

unfoldable pub is_legal : String → String → Bool
is_legal from_state to_state =
    contains to_state (or_empty (Dict.get from_state allowed_transitions))

-- The two predicates at a value read from a binding: what is no string is no state.
unfoldable pub is_terminal_value : Value → Bool
is_terminal_value (str s) = is_terminal s
is_terminal_value _ = false

unfoldable pub is_legal_value : Value → Value → Bool
is_legal_value (str s) (str t) = is_legal s t
is_legal_value _ _ = false

pub record TerminalVocabRow : Type 0 where
  pub agent_tag : Option String
  pub terminal_signal : Option String
  pub event : String
  pub state : Option String
  pub collapsed : Option Bool

abbrev row : Option String → Option String → String → Option String → Option Bool → TerminalVocabRow
row tag signal event state collapsed = record {
  agent_tag = tag;
  terminal_signal = signal;
  event = event;
  state = state;
  collapsed = collapsed;
}

abbrev pub died_infrastructure : TerminalVocabRow
died_infrastructure = row none (some "DIED_INFRA") "died_infrastructure" (some "failed") none

abbrev pub coordinator_died : TerminalVocabRow
coordinator_died = row none none "coordinator_died" (some "dead") (some false)

abbrev pub terminal_vocab : List TerminalVocabRow
terminal_vocab =
    row (some "DONE") (some "DONE") "signal_DONE" (some "done") (some true)
    ∷ row (some "FAILED") (some "FAILED") "signal_FAILED" (some "failed") (some true)
    ∷ row (some "ESCALATED") (some "ESCALATED") "signal_ESCALATED" (some "running") (some false)
    ∷ died_infrastructure
    ∷ row none (some "DIED_METHODOLOGY") "died_methodology" (some "failed") none
    ∷ row none (some "FENCED") "stale_return_ignored" none (some false)
    ∷ coordinator_died
    ∷ row none (some "DONE") "coordinator_completed" (some "done") (some true)
    ∷ []
