-- ===== src/Executor/Checkpoint.antt =====
-- `watchdog_checkpoint` of harnessd/executor.py: the liveness observation, written on an edge only.
use long_horizon_agentic_har.Prelude.{
  String, Bool, true, false, not, ◌&&◌, ◌||◌, Option, none, some, List, [], ◌∷◌, if◌then◌else◌,
}
use long_horizon_agentic_har.Result.{Result, ok, ◌>>=◌}
use long_horizon_agentic_har.Value.{Value, null, num, str, same, is_null, plus_one}
use long_horizon_agentic_har.Dict
use long_horizon_agentic_har.Dict.{Dict}
use long_horizon_agentic_har.Validate.{or_null}
use long_horizon_agentic_har.Ledger.Journal.{Journal}
use long_horizon_agentic_har.Executor.{
  Binding, World, Reason, fencing, absent, is_stale, next_seq, fence,
}
use long_horizon_agentic_har.Executor.OwnSlice.{own_slice_row, write_slice}

pub record CheckpointResult : Type 0 where
  pub committed : Bool
  pub appended : Bool
  pub binding : Option Binding
  pub errors : List Reason

pub record Observation : Type 0 where
  pub condition : String
  pub liveness_state : String
  pub last_progress_at : Value
  pub last_evidence : Value
  pub gate_crossed_at : Value

unfoldable pub is_healthy : Observation → Bool
is_healthy o =
    same (str o.liveness_state) (str "working") || same (str o.liveness_state) (str "waiting")

unfoldable pub is_idle : Observation → Bool
is_idle o = same (str o.liveness_state) (str "idle")

abbrev or_zero : Option Value → Value
or_zero none = num 0
or_zero (some v) = v

-- binding.get("stale_check_count", 0)
abbrev pub prior_stale : Binding → Value
prior_stale binding = or_zero (Dict.get "stale_check_count" binding)

-- (prior_stale or 0) + 1
abbrev pub bump : Value → Result Value
bump null = ok (num 1)
bump v = plus_one v

unfoldable pub slice_changed : Observation → Binding → Bool
slice_changed o binding =
    not (same (or_null (Dict.get "condition" binding)) (str o.condition))
    || (not (same (or_null (Dict.get "liveness_state" binding)) (str o.liveness_state))
        || not (same (or_null (Dict.get "last_progress_at" binding)) o.last_progress_at))

-- The observation is an edge: it changes the slice, resets the counter, or advances it.
unfoldable pub is_edge : Observation → Binding → Bool
is_edge o binding =
    slice_changed o binding
    || ((is_healthy o && not (same (prior_stale binding) (num 0))) || is_idle o)

unfoldable pub observed : Observation → Binding → Binding
observed o binding =
    let seen = Dict.set "last_evidence" o.last_evidence (
      Dict.set "last_progress_at" o.last_progress_at (
        Dict.set "liveness_state" (str o.liveness_state)
          (Dict.set "condition" (str o.condition) binding))) in
    if is_null o.gate_crossed_at then seen else Dict.set "gate_crossed_at" o.gate_crossed_at seen

-- The counter of stale checks after the observation.
unfoldable pub count_stale : Observation → Binding → Binding → Result Binding
count_stale o binding candidate =
    if is_healthy o
    then ok (Dict.set "stale_check_count" (num 0) candidate)
    else if is_idle o
    then (do count ← bump (prior_stale binding); ok (Dict.set "stale_check_count" count candidate))
    else ok candidate

module _ (j : Journal) where
  abbrev pub checkpoint_edge :
      String → Observation → Binding → World j → Result (CheckpointResult × World j)
  checkpoint_edge node_address o binding w = do
    candidate ← count_stale o binding (observed o binding)
    state ← Dict.index binding "state"
    generation ← Dict.index binding "generation"
    seq ← next_seq j w
    (stamped, written) ←
        write_slice j node_address candidate
          (own_slice_row node_address candidate state generation
            (("condition", str o.condition)
              ∷ ("liveness_state", str o.liveness_state)
              ∷ ("last_progress_at", o.last_progress_at)
              ∷ [])
            "watchdog_checkpoint" "watchdog observation" seq)
          w
    ok (record { committed = true; appended = true; binding = some stamped; errors = [] }, written)

  abbrev pub checkpoint_live :
      String → Observation → Value → Binding → Bool → World j → Result (CheckpointResult × World j)
  checkpoint_live node_address o expected_owner_token binding true w = do
    generation ← Dict.index binding "generation"
    fenced ←
        fence j node_address binding generation
          (("presented_owner_token", expected_owner_token)
            ∷ ("attempted", str "watchdog_checkpoint")
            ∷ [])
          "stale owner_token on watchdog_checkpoint; de-authorized" w
    ok (
      record { committed = false; appended = false; binding = some binding; errors = fencing ∷ [] },
      fenced,
    )
  checkpoint_live node_address o expected_owner_token binding false w =
      if is_edge o binding
      then checkpoint_edge node_address o binding w
      else ok
          (record { committed = true; appended = false; binding = some binding; errors = [] }, w)

  abbrev pub checkpoint_found :
      String → Observation → Value → World j → Option Binding → Result (CheckpointResult × World j)
  checkpoint_found node_address o expected_owner_token w none =
      ok (record { committed = false; appended = false; binding = none; errors = absent ∷ [] }, w)
  checkpoint_found node_address o expected_owner_token w (some binding) = do
    is_stale_token ← is_stale expected_owner_token binding
    checkpoint_live node_address o expected_owner_token binding is_stale_token w

  unfoldable pub watchdog_checkpoint :
      String → Observation → Value → World j → Result (CheckpointResult × World j)
  watchdog_checkpoint node_address o expected_owner_token w =
      checkpoint_found node_address o expected_owner_token w (Dict.get node_address w.bindings)
