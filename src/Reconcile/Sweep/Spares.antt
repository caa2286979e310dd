-- ===== src/Reconcile/Sweep/Spares.antt =====
-- Which nodes a tick of harnessd/reconcile.py leaves as they are.
use long_horizon_agentic_har.Prelude.{String, true, ◌||◌, ◌≡◌, ◌⊎◌}
use long_horizon_agentic_har.Result.{Result, ok}
use long_horizon_agentic_har.Value.{str, same}
use long_horizon_agentic_har.Dict
use long_horizon_agentic_har.Dict.{Dict}
use long_horizon_agentic_har.States.{is_terminal_value}
use long_horizon_agentic_har.Validate.{or_null}
use long_horizon_agentic_har.Ledger.Journal.{Journal}
use long_horizon_agentic_har.Executor.{Binding}
use long_horizon_agentic_har.Reconcile.Sweep.{
  Target, Detector, is_present, target_of, still_present,
}

-- The node is terminal or planned, or its pane is listed alive and the detector confirms it.
abbrev pub Spared : Dict Target → Detector → String × Binding → Type 0
Spared targets detector (a, b) =
    ((is_terminal_value (or_null (Dict.get "state" b))
        || same (or_null (Dict.get "state" b)) (str "planned"))
      ≡ true)
    ⊎ (still_present detector a
          (is_present (target_of (or_null (Dict.get "tmux_target" b)) targets))
        ≡ ok true)
