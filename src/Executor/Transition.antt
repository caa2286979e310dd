-- ===== src/Executor/Transition.antt =====
-- `transition` and `claim` of harnessd/executor.py.
pub mod Candidate
pub mod Cas
pub mod Outcome
pub mod Claim
use long_horizon_agentic_har.Prelude.{
  ℕ, String, Bool, true, false, not, ◌&&◌, Option, none, some, List, [], ◌∷◌, ◌++◌, map,
  if◌then◌else◌,
}
use long_horizon_agentic_har.Result.{Result, ok, err, ◌>>=◌}
use long_horizon_agentic_har.Value.{Value, null, num, str, json, same, is_null, plus_one}
use long_horizon_agentic_har.Dict
use long_horizon_agentic_har.Dict.{Dict}
use long_horizon_agentic_har.States.{is_legal_value}
use long_horizon_agentic_har.Validate.{Defect, Notice, or_null, validate}
use long_horizon_agentic_har.Fencing.{advance_epoch, mint_owner_token}
use long_horizon_agentic_har.Ledger.{Row, Entry, build_wal_record}
use long_horizon_agentic_har.Ledger.Journal.{Journal}
use long_horizon_agentic_har.Executor.{
  Binding, World, Reason, absent, cas_state, cas_generation, fencing, illegal, invalid,
  TransitionResult, refused, is_stale, next_seq, commit, fence,
}

-- The keyword arguments of `transition`; None is `null`.
pub record Request : Type 0 where
  pub node_address : String
  pub expected_state : Value
  pub expected_generation : Value
  pub expected_owner_token : Value
  pub target_state : String
  pub binding_delta : Dict Value
  pub new_lease_epoch : Value
  pub new_owner_token : Value
  pub event : String
  pub summary : String
  pub artifacts : Value

abbrev pub set_given : String → Value → Binding → Binding
set_given key value binding = if is_null value then binding else Dict.set key value binding

-- The delta over the live binding, then what the arguments alone decide.
unfoldable pub build_candidate : Request → Binding → Value → Binding
build_candidate r binding next_generation = set_given "owner_token" r.new_owner_token (
    set_given "lease_epoch" r.new_lease_epoch (
      Dict.set "generation" next_generation (
        Dict.set "state" (str r.target_state)
          (Dict.set "node_address" (str r.node_address) (Dict.update binding r.binding_delta)))))

unfoldable pub transition_row : Request → Binding → Value → Value → ℕ → Row
transition_row r candidate from_state generation seq = record {
  seq = seq;
  node_address = r.node_address;
  event = r.event;
  from_state = from_state;
  to_state = str r.target_state;
  expected_generation = r.expected_generation;
  generation = generation;
  lease_epoch = or_null (Dict.get "lease_epoch" candidate);
  owner_token = or_null (Dict.get "owner_token" candidate);
  binding_delta = r.binding_delta;
  summary = r.summary;
  artifacts = r.artifacts;
}

-- The arguments that `claim` gives to `transition`.
abbrev pub claim_request : String → Value → Value → Value → ℕ → String → Request
claim_request node_address expected_state expected_generation expected_owner_token new_lease_epoch
      new_owner_token =
    record {
      node_address = node_address;
      expected_state = expected_state;
      expected_generation = expected_generation;
      expected_owner_token = expected_owner_token;
      target_state = "claimed";
      binding_delta =
          ("state", str "claimed")
          ∷ ("lease_epoch", num new_lease_epoch)
          ∷ ("owner_token", str new_owner_token)
          ∷ [];
      new_lease_epoch = num new_lease_epoch;
      new_owner_token = str new_owner_token;
      event = "claim";
      summary = "slot-claim: re-mint owner_token at bumped lease_epoch";
      artifacts = json "[]";
    }

-- Nothing has been written when a decision is taken.
pub data Decision : Type 0 where
  refuse : List Reason → List Notice → Decision
  stale : Decision
  admit : Binding → Row → List Notice → Decision

abbrev pub decide_report : Binding → Row → List Defect × List Notice → Decision
decide_report candidate row ([], warnings) = admit candidate row warnings
decide_report candidate row (d ∷ ds, warnings) = refuse (map invalid (d ∷ ds)) warnings

module _ (j : Journal) where
  -- From the candidate to the verdict of `validate`.
  unfoldable pub decide_candidate : Request → Binding → Value → Value → World j → Result Decision
  unfolding next_seq build_candidate transition_row build_wal_record
  decide_candidate r binding state generation w = do
    next ← plus_one generation
    let candidate = build_candidate r binding next
    seq ← next_seq j w
    let row = transition_row r candidate state next seq
    entries ← j.load w.wal
    report ← validate candidate (entries ++ (build_wal_record j.crc w.now row ∷ []))
    ok (decide_report candidate row report)

  abbrev pub decide_edge : Request → Binding → Value → Value → Bool → World j → Result Decision
  decide_edge r binding state generation is_stale_token w =
      if is_stale_token
      then ok stale
      else if not (same (str r.target_state) state)
          && not (is_legal_value state (str r.target_state))
      then ok (refuse (illegal ∷ []) [])
      else decide_candidate r binding state generation w

  -- The three preconditions, the legality gate, and validate-before-commit, in their order.
  unfoldable pub decide : Request → Binding → World j → Result Decision
  unfolding is_stale
  decide r binding w = do
    state ← Dict.index binding "state"
    if not (same state r.expected_state) then ok (refuse (cas_state ∷ []) []) else do
      generation ← Dict.index binding "generation"
      if not (same generation r.expected_generation)
          then ok (refuse (cas_generation ∷ []) [])
          else do
            is_stale_token ← is_stale r.expected_owner_token binding
            decide_edge r binding state generation is_stale_token w

  unfoldable pub perform :
      Request → Binding → Decision → World j → Result (TransitionResult × World j)
  unfolding commit fence
  perform r binding (refuse errors warnings) w = ok (
    record { committed = false; errors = errors; warnings = warnings; binding = some binding },
    w,
  )
  perform r binding stale w = do
    fenced ←
        fence j r.node_address binding r.expected_generation
          (("presented_owner_token", r.expected_owner_token) ∷ [])
          "stale owner_token presented; de-authorized" w
    ok (refused fencing (some binding), fenced)
  perform r binding (admit candidate row warnings) w = do
    (stamped, written) ← commit j candidate row w
    ok (
      record { committed = true; errors = []; warnings = warnings; binding = some stamped },
      written,
    )

  abbrev pub transition_found :
      Request → World j → Option Binding → Result (TransitionResult × World j)
  transition_found r w none = ok (refused absent none, w)
  transition_found r w (some binding) = do
    decision ← decide r binding w
    perform r binding decision w

  unfoldable pub transition : Request → World j → Result (TransitionResult × World j)
  transition r w = transition_found r w (Dict.get r.node_address w.bindings)

  abbrev pub claim_found :
      String
      → Value
      → Value
      → Value
      → World j
      → Option Binding
      → Result (TransitionResult × World j)
  claim_found node_address expected_state expected_generation expected_owner_token w none =
      ok (refused absent none, w)
  claim_found node_address expected_state expected_generation expected_owner_token w (some live) =
      do
        new_lease_epoch ← advance_epoch live
        new_owner_token ←
            mint_owner_token node_address (or_null (Dict.get "subagent_id" live))
              (or_null (Dict.get "session_uuid" live)) new_lease_epoch
        transition
            (claim_request node_address expected_state expected_generation expected_owner_token
              new_lease_epoch new_owner_token)
            w

  unfoldable pub claim :
      String → Value → Value → Value → World j → Result (TransitionResult × World j)
  unfolding transition
  claim node_address expected_state expected_generation expected_owner_token w =
      claim_found node_address expected_state expected_generation expected_owner_token w
        (Dict.get node_address w.bindings)
