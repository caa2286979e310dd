-- ===== src/Detector.antt =====
-- harnessd/detector.py: the liveness verdict on one node.
pub mod Signals
pub mod Verdict
use long_horizon_agentic_har.Prelude.{
  ℕ, String, str_eq, Bool, true, false, not, ◌||◌, Option, none, some, List, [], ◌∷◌, if◌then◌else◌,
}
use long_horizon_agentic_har.Result.{Result, ok, err, key_error, ◌>>=◌}
use long_horizon_agentic_har.Value.{Value, null, str, same, truthy}
use long_horizon_agentic_har.Dict
use long_horizon_agentic_har.Dict.{Dict}
use long_horizon_agentic_har.Validate.{or_null}
use long_horizon_agentic_har.Ledger.Journal.{Journal}
use long_horizon_agentic_har.Executor.{Binding}
use long_horizon_agentic_har.Runtime.{Site, Tree, is_older}
use long_horizon_agentic_har.Detector.Signals.{
  jsonl_progress, pane_alive, pane_activity, read_terminal_signal, escalation_answered,
}

pub record Liveness : Type 0 where
  pub state : String
  pub last_progress_at : Value

-- config.SUSPICION_WINDOWS, in seconds
abbrev pub suspicion_windows : Dict ℕ
suspicion_windows = ("working", 120) ∷ ("waiting_on_child", 600) ∷ ("writing_final", 60) ∷ []

abbrev window_or : Option ℕ → ℕ
window_or none = 120
window_or (some n) = n

abbrev window_of : Value → ℕ
window_of (str key) = if str_eq key "" then 120 else window_or (Dict.get key suspicion_windows)
window_of _ = 120

unfoldable pub w_window : Binding → ℕ
w_window binding = window_of (or_null (Dict.get "suspicion_window_key" binding))

-- No stamp is no proof of progress.
unfoldable pub within_w : Site → Value → String → ℕ → Result Bool
within_w site last_progress_at now window =
    if not (truthy last_progress_at)
    then ok false
    else do overdue ← is_older site last_progress_at now window; ok (not overdue)

abbrev pub signal_of : Option (Dict Value) → Value
signal_of none = null
signal_of (some sig) = or_null (Dict.get "signal" sig)

abbrev pub ts_of : Option (Dict Value) → Value
ts_of none = null
ts_of (some sig) = or_null (Dict.get "ts" sig)

-- The node is escalated, by its file or by its binding, and not yet answered.
unfoldable pub is_waiting : Site → Binding → Option (Dict Value) → Bool
unfolding escalation_answered
is_waiting site binding sig =
    if same (signal_of sig) (str "ESCALATED")
    then not (escalation_answered site binding (ts_of sig))
    else if same (or_null (Dict.get "terminal_signal" binding)) (str "ESCALATED")
    then not (escalation_answered site binding (ts_of sig))
    else false

module _ {j : Journal} where
  unfoldable pub has_legit_waiting_reason : Site → String → Binding → Tree j → Bool × Tree j
  unfolding is_waiting
  has_legit_waiting_reason site node_address binding t =
      let (sig, t') = read_terminal_signal node_address binding t in
      (is_waiting site binding sig, t')

  abbrev pub verdict : Value → String → Tree j → Result (Liveness × Tree j)
  verdict last_progress_at state t =
      ok (record { state = state; last_progress_at = last_progress_at }, t)

  -- Flat beyond the window in a warm pane with no turn in flight.
  abbrev pub quiet : Site → String → Binding → Value → Tree j → Result (Liveness × Tree j)
  quiet site node_address binding last_progress_at t =
      let (waiting, t') = has_legit_waiting_reason site node_address binding t in
      verdict last_progress_at (if waiting then "waiting" else "idle") t'

  unfoldable pub liveness_of : Site → String → Binding → Tree j → Result (Liveness × Tree j)
  unfolding jsonl_progress pane_alive has_legit_waiting_reason within_w w_window
  liveness_of site node_address binding t = do
    let last_progress_at = or_null (Dict.get "last_progress_at" binding)
    (grew, t') ← jsonl_progress site node_address binding t
    alive ← pane_alive site binding
    if not alive
        then verdict last_progress_at "dead" t'
        else if grew
        then verdict last_progress_at "working" t'
        else do
          within ← within_w site last_progress_at t'.world.now (w_window binding)
          if within || pane_activity site binding
              then verdict last_progress_at "working" t'
              else quiet site node_address binding last_progress_at t'

  abbrev pub liveness_found : Site → String → Option Binding → Tree j → Result (Liveness × Tree j)
  liveness_found site node_address none t = err (key_error node_address)
  liveness_found site node_address (some binding) t = liveness_of site node_address binding t

  unfoldable pub liveness : Site → String → Tree j → Result (Liveness × Tree j)
  unfolding liveness_of
  liveness site node_address t =
      liveness_found site node_address (Dict.get node_address t.world.bindings) t
