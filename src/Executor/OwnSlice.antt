-- ===== src/Executor/OwnSlice.antt =====
-- The mutators of harnessd/executor.py that are no lifecycle transitions, and `journal`.
pub mod Slice
use long_horizon_agentic_har.Prelude.{
  ℕ, String, Bool, true, false, Option, none, some, List, [], ◌∷◌, ◌++◌, if◌then◌else◌,
}
use long_horizon_agentic_har.Result.{Result, ok, err, ◌>>=◌}
use long_horizon_agentic_har.Value.{Value, null, num, str, json, is_null, truthy}
use long_horizon_agentic_har.Dict
use long_horizon_agentic_har.Dict.{Dict}
use long_horizon_agentic_har.Validate.{or_null}
use long_horizon_agentic_har.Ledger.{Row}
use long_horizon_agentic_har.Ledger.Journal.{Journal}
use long_horizon_agentic_har.Executor.{
  Binding, World, fencing, absent, TransitionResult, refused, is_stale, next_seq, append_row, fence,
}

-- The row of an own-slice write: state and generation stay.
unfoldable pub own_slice_row :
    String → Binding → Value → Value → Dict Value → String → String → ℕ → Row
own_slice_row node_address candidate state generation delta event summary seq = record {
  seq = seq;
  node_address = node_address;
  event = event;
  from_state = state;
  to_state = state;
  expected_generation = generation;
  generation = generation;
  lease_epoch = or_null (Dict.get "lease_epoch" candidate);
  owner_token = or_null (Dict.get "owner_token" candidate);
  binding_delta = delta;
  summary = summary;
  artifacts = json "[]";
}

module _ (j : Journal) where
  -- The row first, then the binding map with the candidate and its watermark.
  unfoldable pub write_slice : String → Binding → Row → World j → Result (Binding × World j)
  unfolding append_row
  write_slice node_address candidate row w = do
    let stamped = Dict.set "last_applied_seq" (num row.seq) candidate
    journaled ← append_row j row w
    ok (stamped, record journaled { bindings = Dict.set node_address stamped journaled.bindings })

  abbrev pub own_slice_live :
      String
      → Binding
      → Value
      → Dict Value
      → String
      → String
      → Bool
      → World j
      → Result (TransitionResult × World j)
  own_slice_live node_address binding expected_owner_token delta event summary true w = do
    generation ← Dict.index binding "generation"
    fenced ←
        fence j node_address binding generation
          (("presented_owner_token", expected_owner_token) ∷ ("attempted", str event) ∷ [])
          "stale owner_token; de-authorized" w
    ok (refused fencing (some binding), fenced)
  own_slice_live node_address binding expected_owner_token delta event summary false w = do
    let candidate = Dict.update binding delta
    state ← Dict.index binding "state"
    generation ← Dict.index binding "generation"
    seq ← next_seq j w
    (stamped, written) ←
        write_slice node_address candidate
          (own_slice_row node_address candidate state generation delta event summary seq) w
    ok (record { committed = true; errors = []; warnings = []; binding = some stamped }, written)

  abbrev pub own_slice_found :
      String
      → Value
      → Dict Value
      → String
      → String
      → World j
      → Option Binding
      → Result (TransitionResult × World j)
  own_slice_found node_address expected_owner_token delta event summary w none =
      ok (refused absent none, w)
  own_slice_found node_address expected_owner_token delta event summary w (some binding) = do
    is_stale_token ← is_stale expected_owner_token binding
    own_slice_live node_address binding expected_owner_token delta event summary is_stale_token w

  unfoldable pub own_slice_write :
      String → Value → Dict Value → String → String → World j → Result (TransitionResult × World j)
  own_slice_write node_address expected_owner_token delta event summary w =
      own_slice_found node_address expected_owner_token delta event summary w
        (Dict.get node_address w.bindings)

  -- An optional argument is None, `null`, if it is not given.
  abbrev pub given : String → Value → Dict Value
  given key value = if is_null value then [] else (key, value) ∷ []

  unfoldable pub heartbeat :
      String → Value → Value → Value → World j → Result (TransitionResult × World j)
  heartbeat node_address expected_owner_token liveness_state last_heartbeat_at =
      own_slice_write node_address expected_owner_token
        (given "liveness_state" liveness_state ++ given "last_heartbeat_at" last_heartbeat_at)
        "heartbeat" "liveness heartbeat (own-slice, fenced)"

  unfoldable pub release_lease :
      String → Value → Value → World j → Result (TransitionResult × World j)
  release_lease node_address expected_owner_token liveness_state =
      own_slice_write node_address expected_owner_token
        (("last_heartbeat_at", null)
          ∷ ("liveness_state", if is_null liveness_state then str "idle" else liveness_state)
          ∷ [])
        "release_lease" "lease released (own-slice, fenced)"

  unfoldable pub deliver :
      String
      → String
      → Value
      → Value
      → String
      → String
      → World j
      → Result (TransitionResult × World j)
  deliver node_address deliverable_state delivery_destination expected_owner_token event summary =
      own_slice_write node_address expected_owner_token
        (("deliverable_state", str deliverable_state)
          ∷ given "delivery_destination" delivery_destination)
        event summary

  -- `paused_at or clock.now_utc()`
  unfoldable pub pause : String → Value → Value → World j → Result (TransitionResult × World j)
  pause node_address paused_at expected_owner_token w =
      own_slice_write node_address expected_owner_token
        (("paused_at", if truthy paused_at then paused_at else str w.now) ∷ []) "paused"
        "human pause: paused_at set" w

  unfoldable pub resume : String → Value → World j → Result (TransitionResult × World j)
  resume node_address expected_owner_token =
      own_slice_write node_address expected_owner_token (("paused_at", null) ∷ []) "resumed"
        "human resume: paused_at cleared"

  unfoldable pub post_answer :
      String → String → Value → World j → Result (TransitionResult × World j)
  post_answer node_address answer expected_owner_token w =
      own_slice_write node_address expected_owner_token
        (("terminal_note", str answer) ∷ ("answered_at", str w.now) ∷ []) "human_answer_posted"
        "human answer posted into the ESCALATED slot" w

  unfoldable pub ack_inbox : String → ℕ → Value → World j → Result (TransitionResult × World j)
  ack_inbox node_address acked_offset expected_owner_token =
      own_slice_write node_address expected_owner_token
        (("last_inbox_acked_offset", num acked_offset)
          ∷ ("wake_pending_ack_offset", null)
          ∷ ("wake_sent_transcript_size", null)
          ∷ [])
        "inbox_acked" "wake verified consumed"

  unfoldable pub record_wake_pending :
      String → ℕ → ℕ → Value → World j → Result (TransitionResult × World j)
  record_wake_pending node_address pending_ack_offset sent_transcript_size expected_owner_token =
      own_slice_write node_address expected_owner_token
        (("wake_pending_ack_offset", num pending_ack_offset)
          ∷ ("wake_sent_transcript_size", num sent_transcript_size)
          ∷ [])
        "wake_verify_pending" "wake nudge delivered, ack deferred"

  -- A row that is no transition; it has no generations, so a replay cannot apply it.
  unfoldable pub journal :
      String
      → String
      → Value
      → Value
      → Value
      → Value
      → Dict Value
      → String
      → Value
      → World j
      → Result (World j)
  journal node_address event from_state to_state lease_epoch owner_token binding_delta summary
        artifacts w =
      do
        seq ← next_seq j w
        append_row j
            (record {
              seq = seq;
              node_address = node_address;
              event = event;
              from_state = from_state;
              to_state = to_state;
              expected_generation = null;
              generation = null;
              lease_epoch = lease_epoch;
              owner_token = owner_token;
              binding_delta = binding_delta;
              summary = summary;
              artifacts = artifacts;
            })
            w
