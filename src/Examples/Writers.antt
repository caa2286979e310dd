-- ===== src/Examples/Writers.antt =====
-- The single writer and the replay at one planned node.
use long_horizon_agentic_har.Prelude.{
  Option, String, true, some, List, [], ◌∷◌, ◌++◌, ◌≡◌, ◌⊎◌, refl, arith,
}
use long_horizon_agentic_har.Result.{Result, ok}
use long_horizon_agentic_har.Value.{Value, null, num, str}
use long_horizon_agentic_har.Dict
use long_horizon_agentic_har.Dict.{Dict}
use long_horizon_agentic_har.Decimal
use long_horizon_agentic_har.States.{is_legal, is_legal_value, allowed_transitions}
use long_horizon_agentic_har.Fencing.{mint_owner_token, advance_epoch}
use long_horizon_agentic_har.Validate.{validate, missing_fields, check_edge, check_generation}
use long_horizon_agentic_har.Validate.Sound.{Admissible, validate-Admissible}
use long_horizon_agentic_har.Ledger.{Entry, build_wal_record}
use long_horizon_agentic_har.Executor.{
  Binding, refused, cas_generation, fencing, is_stale, commit, append_row, next_seq,
}
use long_horizon_agentic_har.Executor.Transition.{
  Request, transition, claim, claim_request, decide, decide_candidate, perform, build_candidate,
  transition_row,
}
use long_horizon_agentic_har.Executor.Transition.Outcome.{
  Committed, transition-Committed, transition-aborted,
}
use long_horizon_agentic_har.Executor.Transition.Claim.{claim_fences}
use long_horizon_agentic_har.Executor.OwnSlice.{own_slice_write, write_slice, own_slice_row}
use long_horizon_agentic_har.Executor.OwnSlice.Slice.{Sliced, own_slice_write-Sliced}
use long_horizon_agentic_har.Reconcile.{
  replay_node, sort_by_seq, insert_by_seq, events_of, apply_all, apply_one, apply_delta,
}
use long_horizon_agentic_har.Reconcile.Idempotence.{replay_node-idempotent}
use long_horizon_agentic_har.Reconcile.Synced.{IsSynced, crash_recovery}
use long_horizon_agentic_har.Reconcile.Invariant.{transition-IsSynced, own_slice_write-IsSynced}
use long_horizon_agentic_har.Examples.Worlds.{
  list_journal, node, planned_binding, planned_world, planned_world-IsSynced, outcome_of,
}

abbrev request : Request
request = claim_request node (str "planned") (num 0) null 1 "p#exec:s:u:1"

abbrev late_request : Request
late_request = claim_request node (str "planned") (num 7) null 1 "p#exec:s:u:1"

runs :
    transition list_journal request planned_world
    ≡ ok (outcome_of (transition list_journal request planned_world))
unfolding transition decide decide_candidate perform commit validate Dict.get Dict.set Dict.update
    is_legal_value is_legal allowed_transitions next_seq build_candidate transition_row
    build_wal_record
runs = refl

commits : (outcome_of (transition list_journal request planned_world)).0.committed ≡ true
unfolding transition decide decide_candidate perform commit validate Dict.get Dict.set Dict.update
    is_legal_value is_legal allowed_transitions next_seq build_candidate transition_row
    build_wal_record
commits = refl

transition-Committed_example :
    Committed list_journal request planned_world
      (outcome_of (transition list_journal request planned_world)).0
      (outcome_of (transition list_journal request planned_world)).1
transition-Committed_example =
    transition-Committed list_journal request planned_world _ _ runs commits

crash_recovery_example :
    (es' : List Entry) × (replayed : Binding) × (stored : Binding) × (list_journal.load
        (outcome_of (transition list_journal request planned_world)).1.wal
      ≡ ok es')
    × (replay_node node planned_world.bindings es' ≡ ok (some replayed))
    × (Dict.get node (outcome_of (transition list_journal request planned_world)).1.bindings
        ≡ some stored)
    × ((k : String) → Dict.get k replayed ≡ Dict.get k stored)
crash_recovery_example =
    crash_recovery list_journal request planned_world _ _ [] planned_world-IsSynced runs commits

aborts_late :
    transition list_journal late_request planned_world
    ≡ ok (refused cas_generation (some planned_binding), planned_world)
unfolding transition decide perform Dict.get
aborts_late = refl

transition-aborted_example :
    (planned_world.bindings ≡ planned_world.bindings)
    × (some planned_binding ≡ Dict.get node planned_world.bindings)
    × ((planned_world ≡ planned_world) ⊎ (cas_generation ∷ [] ≡ fencing ∷ []))
transition-aborted_example =
    transition-aborted list_journal late_request planned_world
      (refused cas_generation (some planned_binding)) planned_world aborts_late refl

claims :
    claim list_journal node (str "planned") (num 0) null planned_world
    ≡ ok (outcome_of (claim list_journal node (str "planned") (num 0) null planned_world))
unfolding claim advance_epoch mint_owner_token Decimal.decimal transition decide decide_candidate
    perform commit validate Dict.get Dict.set Dict.update is_legal_value is_legal
    allowed_transitions next_seq build_candidate transition_row build_wal_record
claims = refl

claim_commits :
    (outcome_of (claim list_journal node (str "planned") (num 0) null planned_world)).0.committed
    ≡ true
unfolding claim advance_epoch mint_owner_token Decimal.decimal transition decide decide_candidate
    perform commit validate Dict.get Dict.set Dict.update is_legal_value is_legal
    allowed_transitions next_seq build_candidate transition_row build_wal_record
claim_commits = refl

planned_found : Dict.get node planned_world.bindings ≡ some planned_binding
unfolding Dict.get
planned_found = refl

planned_epoch : Dict.get "lease_epoch" planned_binding ≡ some (num 0)
unfolding Dict.get
planned_epoch = refl

planned_token : mint_owner_token node (str "s") (str "u") 0 ≡ ok "p#exec:s:u:0"
unfolding mint_owner_token Decimal.decimal
planned_token = refl

claim_fences_example :
    (stored : Binding) × (Dict.get node
        (outcome_of (claim list_journal node (str "planned") (num 0) null planned_world)).1.bindings
      ≡ some stored)
    × (Dict.get "state" stored ≡ some (str "claimed"))
    × (is_stale (str "p#exec:s:u:0") stored ≡ ok true)
claim_fences_example =
    claim_fences list_journal node (str "planned") (num 0) null planned_world _ _ planned_binding 0
      node (str "s") (str "u") 0 "p#exec:s:u:0" claims claim_commits planned_found planned_epoch
      planned_token (omega arith)

abbrev beat : Dict Value
beat = ("liveness_state", str "idle") ∷ []

beats :
    own_slice_write list_journal node (str "p#exec:s:u:0") beat "heartbeat" "" planned_world
    ≡ ok (
        outcome_of (
          own_slice_write list_journal node (str "p#exec:s:u:0") beat "heartbeat" "" planned_world))
unfolding own_slice_write write_slice own_slice_row append_row is_stale next_seq Dict.get Dict.set
    Dict.update build_wal_record
beats = refl

beat_commits :
    (outcome_of (
      own_slice_write list_journal node
        (str "p#exec:s:u:0")
        beat
        "heartbeat"
        ""
        planned_world)).0.committed
    ≡ true
unfolding own_slice_write write_slice own_slice_row append_row is_stale next_seq Dict.get Dict.set
    Dict.update build_wal_record
beat_commits = refl

own_slice_write-Sliced_example :
    Sliced list_journal node
      (str "p#exec:s:u:0")
      beat
      planned_world
      (outcome_of (
        own_slice_write list_journal node (str "p#exec:s:u:0") beat "heartbeat" "" planned_world)).1
own_slice_write-Sliced_example =
    own_slice_write-Sliced list_journal node (str "p#exec:s:u:0") beat "heartbeat" "" planned_world
      _ _ beats beat_commits

-- A claim's candidate and its row.
abbrev claimed_binding : Binding
claimed_binding =
    ("node_address", str "p#exec")
    ∷ ("state", str "claimed")
    ∷ ("generation", num 1)
    ∷ ("owner_token", str "p#exec:s:u:1")
    ∷ []

abbrev claim_row : Entry
claim_row =
    build_wal_record (λ c. 0) "now"
      (transition_row request claimed_binding (str "planned") (num 1) 1)

admits : validate claimed_binding ([] ++ (claim_row ∷ [])) ≡ ok ([], [])
unfolding validate Dict.get is_legal_value is_legal allowed_transitions transition_row
    build_wal_record missing_fields check_edge check_generation
admits = refl

validate-Admissible_example : Admissible claimed_binding claim_row
validate-Admissible_example = validate-Admissible claimed_binding [] claim_row [] admits

transition-IsSynced_example :
    (e : Entry) × IsSynced list_journal
      (outcome_of (transition list_journal request planned_world)).1
      ([] ++ (e ∷ []))
transition-IsSynced_example =
    transition-IsSynced list_journal request planned_world _ _ [] planned_world-IsSynced runs
      commits

own_slice_write-IsSynced_example :
    (e : Entry) × IsSynced list_journal
      (outcome_of (
        own_slice_write list_journal node (str "p#exec:s:u:0") beat "heartbeat" "" planned_world)).1
      ([] ++ (e ∷ []))
own_slice_write-IsSynced_example =
    own_slice_write-IsSynced list_journal node (str "p#exec:s:u:0") beat "heartbeat" ""
      planned_world _ _ [] planned_world-IsSynced beats beat_commits

abbrev binding_of : Result (Option Binding) → Binding
binding_of (ok (some b)) = b
binding_of x = planned_binding

replays :
    replay_node node planned_world.bindings (claim_row ∷ [])
    ≡ ok (some (binding_of (replay_node node planned_world.bindings (claim_row ∷ []))))
unfolding replay_node sort_by_seq insert_by_seq events_of apply_all apply_one apply_delta Dict.get
    Dict.set Dict.update transition_row build_wal_record
replays = refl

replay_lands :
    Dict.get "state" (binding_of (replay_node node planned_world.bindings (claim_row ∷ [])))
    ≡ some (str "claimed")
unfolding replay_node sort_by_seq insert_by_seq events_of apply_all apply_one apply_delta Dict.get
    Dict.set Dict.update transition_row build_wal_record
replay_lands = refl

replay_node-idempotent_example :
    replay_node node
      (Dict.set node
        (binding_of (replay_node node planned_world.bindings (claim_row ∷ [])))
        planned_world.bindings)
      (claim_row ∷ [])
    ≡ ok (some (binding_of (replay_node node planned_world.bindings (claim_row ∷ []))))
replay_node-idempotent_example =
    replay_node-idempotent node planned_world.bindings (claim_row ∷ []) _ (tt, tt) replays
