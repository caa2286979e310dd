-- ===== src/Reconcile.antt =====
-- harnessd/reconcile.py: the replay of the run-ledger over the binding map.
pub mod Replay
pub mod Idempotence
pub mod Invariant
pub mod Recovery
pub mod Synced
pub mod Sweep
use long_horizon_agentic_har.Prelude.{
  ℕ, String, str_eq, Bool, true, false, not, Option, none, some, List, [], ◌∷◌, ◌++◌, if◌then◌else◌,
  ltb, leb,
}
use long_horizon_agentic_har.Result.{Result, ok, err, type_error, ◌>>=◌}
use long_horizon_agentic_har.Value.{Value, null, num, str, same, is_null}
use long_horizon_agentic_har.Dict
use long_horizon_agentic_har.Dict.{Dict}
use long_horizon_agentic_har.Validate.{or_null}
use long_horizon_agentic_har.Ledger.{Entry}
use long_horizon_agentic_har.Executor.{Binding, Bindings}

-- binding.get("last_applied_seq", 0), which is compared with a number
abbrev pub watermark_of : Option Value → Result ℕ
watermark_of none = ok 0
watermark_of (some (num n)) = ok n
watermark_of (some v) = err type_error

-- The post-commit image: the delta, and over it what the record alone decides.
unfoldable pub apply_delta : Binding → Entry → Binding
apply_delta binding event =
    let owned = Dict.set "owner_token" event.owner_token (
      Dict.set "generation" event.generation (
        Dict.set "state" event.to_state (
          Dict.set "node_address" (str event.node_address)
            (Dict.update binding event.binding_delta)))) in
    Dict.set "last_applied_seq" (num event.seq)
      (if is_null event.lease_epoch then owned else Dict.set "lease_epoch" event.lease_epoch owned)

abbrev pub apply_above : Binding → Entry → ℕ → Binding
apply_above binding event watermark =
    if leb event.seq watermark
    then binding
    else let live_generation = or_null (Dict.get "generation" binding) in
      if same live_generation event.generation
      then binding
      else if not (same live_generation event.expected_generation)
      then binding
      else apply_delta binding event

unfoldable pub apply_one : Binding → Entry → Result Binding
apply_one binding event = do
  watermark ← watermark_of (Dict.get "last_applied_seq" binding)
  ok (apply_above binding event watermark)

-- for event in node_events: current = _apply_one(current, event)
unfoldable pub apply_all : Binding → List Entry → Result Binding
apply_all current [] = ok current
apply_all current (event ∷ events) = do next ← apply_one current event; apply_all next events

unfoldable pub insert_by_seq : Entry → List Entry → List Entry
insert_by_seq e [] = e ∷ []
insert_by_seq e (d ∷ ds) = if leb e.seq d.seq then e ∷ (d ∷ ds) else d ∷ insert_by_seq e ds

-- sorted(events, key=lambda ev: ev["seq"]), which keeps the order of equal keys
unfoldable pub sort_by_seq : List Entry → List Entry
unfolding insert_by_seq
sort_by_seq [] = []
sort_by_seq (e ∷ es) = insert_by_seq e (sort_by_seq es)

-- events_by_node[node_address]
unfoldable pub events_of : String → List Entry → List Entry
events_of node_address [] = []
events_of node_address (e ∷ es) =
    let rest = events_of node_address es in
    if str_eq e.node_address node_address then e ∷ rest else rest

-- The first event with an expected generation.
unfoldable pub first_transition : List Entry → Option Entry
first_transition [] = none
first_transition (e ∷ es) = if is_null e.expected_generation then first_transition es else some e

-- What a node that has events and no binding is rebuilt from.
unfoldable pub rebuild : String → Entry → Binding
rebuild node_address first =
    ("node_address", str node_address)
    ∷ ("state", first.from_state)
    ∷ ("generation", first.expected_generation)
    ∷ ("last_applied_seq", num 0)
    ∷ []

abbrev pub replay_rebuilt : String → List Entry → Option Entry → Result (Option Binding)
replay_rebuilt node_address events none = ok none
replay_rebuilt node_address events (some first) = do
  b ← apply_all (rebuild node_address first) events
  ok (some b)

abbrev pub replay_base : String → List Entry → Option Binding → Result (Option Binding)
replay_base node_address events (some binding) = do b ← apply_all binding events; ok (some b)
replay_base node_address events none = replay_rebuilt node_address events (first_transition events)

-- The replay of one node; none if the node does not come into the result.
unfoldable pub replay_node : String → Bindings → List Entry → Result (Option Binding)
replay_node node_address bindings wal =
    replay_base node_address (sort_by_seq (events_of node_address wal))
      (Dict.get node_address bindings)

abbrev pub put : String → Option Binding → Bindings → Bindings
put node_address none m = m
put node_address (some b) m = Dict.set node_address b m

-- The loop over the addresses of the bindings and of the events.
unfoldable pub replay_nodes : List String → Bindings → List Entry → Bindings → Result Bindings
replay_nodes [] bindings wal result = ok result
replay_nodes (a ∷ addresses) bindings wal result = do
  b ← replay_node a bindings wal
  replay_nodes addresses bindings wal (put a b result)

unfoldable pub keys : Bindings → List String
keys [] = []
keys ((k, b) ∷ m) = k ∷ keys m

unfoldable pub event_keys : List Entry → List String
event_keys [] = []
event_keys (e ∷ es) = e.node_address ∷ event_keys es

unfoldable pub replay_wal : Bindings → List Entry → Result Bindings
replay_wal bindings wal = replay_nodes (keys bindings ++ event_keys wal) bindings wal []
