-- ===== src/Detector/Signals.antt =====
-- harnessd/detector_signals.py: the readers of the signals that a liveness verdict fuses.
use Prim.Native.String.{◌++◌}
use long_horizon_agentic_har.Prelude.{
  ℕ, String, str_eq, Bool, false, not, ◌&&◌, Option, none, some, [], ◌∷◌, ltb, if◌then◌else◌,
}
use long_horizon_agentic_har.Strings.{contains}
use long_horizon_agentic_har.Result.{Result, ok, err, missing_transcript_path, type_error}
use long_horizon_agentic_har.Value.{Value, null, str, json, same, truthy}
use long_horizon_agentic_har.Dict
use long_horizon_agentic_har.Dict.{Dict}
use long_horizon_agentic_har.Validate.{or_null}
use long_horizon_agentic_har.Addressing.Paths.{signal_path}
use long_horizon_agentic_har.Ledger.Journal.{Journal}
use long_horizon_agentic_har.Executor.{Binding}
use long_horizon_agentic_har.Executor.OwnSlice.{journal}
use long_horizon_agentic_har.Reconcile.Sweep.{Target, target_of}
use long_horizon_agentic_har.Runtime.{
  Artifact, unreadable, not_json, not_object, payload, Site, Tree, is_later, attempt,
}

unfoldable pub ts_is_newer : Site → Value → Value → Bool
ts_is_newer site candidate baseline =
    if truthy candidate && truthy baseline then is_later site candidate baseline else false

-- The answer is fresher than the stamp and than the file.
unfoldable pub escalation_answered : Site → Binding → Value → Bool
unfolding ts_is_newer
escalation_answered site binding signal_ts =
    let answered_at = or_null (Dict.get "answered_at" binding) in
    if not (truthy answered_at)
    then false
    else if ts_is_newer site (or_null (Dict.get "terminal_signal_at" binding)) answered_at
    then false
    else not (ts_is_newer site signal_ts answered_at)

abbrev pub alive_target : Option Target → Bool
alive_target none = false
alive_target (some info) = not (truthy (or_null (Dict.get "pane_dead" info)))

unfoldable pub pane_alive : Site → Binding → Result Bool
pane_alive site binding =
    ok (alive_target (target_of (or_null (Dict.get "tmux_target" binding)) site.targets))

abbrev pub pane_working_marker : String
pane_working_marker = "esc to interrupt"

abbrev pub or_blank : Option String → String
or_blank none = ""
or_blank (some s) = s

-- tmux.capture_pane(target) or ""; a capture that fails is blank
abbrev pub captured : Site → Value → String
captured site (str target) = or_blank (site.capture target)
captured site _ = ""

unfoldable pub pane_activity : Site → Binding → Bool
unfolding contains
pane_activity site binding =
    contains pane_working_marker (captured site (or_null (Dict.get "tmux_target" binding)))

abbrev grew_past : Option ℕ → ℕ → Bool
grew_past none size = false
grew_past (some prior) size = ltb prior size

module _ {j : Journal} where
  abbrev pub progress_at : String → Option ℕ → Tree j → Bool × Tree j
  progress_at node_address none t = (false, t)
  progress_at node_address (some size) t = (
    grew_past (Dict.get node_address t.sizes) size,
    record t { sizes = Dict.set node_address size t.sizes },
  )

  abbrev pub progress_of : Site → String → Value → Tree j → Result (Bool × Tree j)
  progress_of site node_address (str path) t =
      if str_eq path ""
      then err missing_transcript_path
      else ok (progress_at node_address (site.transcript path) t)
  progress_of site node_address path t =
      err (if truthy path then type_error else missing_transcript_path)

  -- Whether the transcript has grown since the last look at it.
  unfoldable pub jsonl_progress : Site → String → Binding → Tree j → Result (Bool × Tree j)
  jsonl_progress site node_address binding t =
      progress_of site node_address (or_null (Dict.get "transcript_path" binding)) t

  -- One row, and the file out of the way; both are best effort.
  unfoldable pub quarantine_invalid_signal : String → Artifact → String → Tree j → Tree j
  unfolding journal
  quarantine_invalid_signal node_address artifact reason t =
      let path = signal_path node_address in
      let journaled =
        attempt
          (journal j node_address "signal_artifact_invalid" null null null null
            (("artifact", str path) ∷ ("error", str reason) ∷ [])
            "malformed terminal-signal artifact" (json "[]"))
          t in
      record journaled {
        signals = Dict.set (path ++ ".invalid") artifact (Dict.remove path journaled.signals);
      }

  abbrev pub read_artifact :
      String → Binding → Option Artifact → Tree j → Option (Dict Value) × Tree j
  read_artifact node_address binding none t = (none, t)
  read_artifact node_address binding (some unreadable) t =
      (none, quarantine_invalid_signal node_address unreadable "unreadable artifact" t)
  read_artifact node_address binding (some not_json) t =
      (none, quarantine_invalid_signal node_address not_json "invalid JSON" t)
  read_artifact node_address binding (some not_object) t =
      (none, quarantine_invalid_signal node_address not_object "JSON payload is not an object" t)
  read_artifact node_address binding (some (payload fields)) t = (
    if not (
          same (or_null (Dict.get "owner_token" fields)) (or_null (Dict.get "owner_token" binding)))
        then none
        else some fields,
    t,
  )

  -- The signal file, if its token is the live one.
  unfoldable pub read_terminal_signal : String → Binding → Tree j → Option (Dict Value) × Tree j
  unfolding quarantine_invalid_signal
  read_terminal_signal node_address binding t =
      read_artifact node_address binding (Dict.get (signal_path node_address) t.signals) t
