-- ===== src/Executor.antt =====
-- harnessd/executor.py, the single writer: the state that it guards, and what its mutators share.
-- Each mutator runs inside one exclusive lock, so it is one function of the state. A mutator that
-- raises does so before it writes anything, so a raised exception comes without a new state.
pub mod Transition
pub mod OwnSlice
pub mod Checkpoint
use long_horizon_agentic_har.Prelude.{
  ℕ, String, Bool, true, false, not, Option, none, some, List, [], ◌∷◌, ◌++◌, if◌then◌else◌,
}
use long_horizon_agentic_har.Result.{Result, ok, err, type_error, ◌>>=◌}
use long_horizon_agentic_har.Value.{Value, null, num, str, json, same, is_null}
use long_horizon_agentic_har.Dict
use long_horizon_agentic_har.Dict.{Dict}
use long_horizon_agentic_har.Validate.{Defect, Notice}
use long_horizon_agentic_har.Fencing.{text}
use long_horizon_agentic_har.Ledger.{Row, Entry, build_wal_record}
use long_horizon_agentic_har.Ledger.File.{seq_after}
use long_horizon_agentic_har.Ledger.Journal.{Journal}

-- A binding record, and the binding ledger by node address.
abbrev pub Binding : Type 0
Binding = Dict Value

abbrev pub Bindings : Type 0
Bindings = Dict Binding

-- The files under RUNTIME_ROOT, and the time.
pub record World (j : Journal) : Type 0 where
  pub wal : j.File
  pub bindings : Bindings
  pub now : String

-- Why a mutator aborts.
pub data Reason : Type 0 where
  absent cas_state cas_generation fencing illegal not_running : Reason
  invalid : Defect → Reason

pub record TransitionResult : Type 0 where
  pub committed : Bool
  pub errors : List Reason
  pub warnings : List Notice
  pub binding : Option Binding

-- TransitionResult(ok=False, errors=[reason], warnings=[], binding=binding)
abbrev pub refused : Reason → Option Binding → TransitionResult
refused reason binding = record {
  committed = false;
  errors = reason ∷ [];
  warnings = [];
  binding = binding;
}

-- `expected_owner_token is not None and binding["owner_token"] != expected_owner_token`
unfoldable pub is_stale : Value → Binding → Result Bool
is_stale expected_owner_token binding = if is_null expected_owner_token then ok false else do
  owner_token ← Dict.index binding "owner_token"
  ok (not (same owner_token expected_owner_token))

module _ (j : Journal) where
  -- ledger.next_seq()
  unfoldable pub next_seq : World j → Result ℕ
  unfolding seq_after
  next_seq w = do entries ← j.load w.wal; ok (seq_after entries)

  -- ledger.append_wal(ledger.build_wal_record(...))
  unfoldable pub append_row : Row → World j → Result (World j)
  unfolding build_wal_record
  append_row row w = do
    wal ← j.append (build_wal_record j.crc w.now row) w.wal
    ok (record w { wal = wal })

  -- Append the intent, and only then replace the binding map, with the seq of the intent stamped
  -- into the candidate. Returns the candidate, which is stamped in place.
  unfoldable pub commit : Binding → Row → World j → Result (Binding × World j)
  unfolding append_row
  commit candidate row w = do
    let stamped = Dict.set "last_applied_seq" (num row.seq) candidate
    journaled ← append_row row w
    key ← Dict.index stamped "node_address"
    node_address ← text key
    ok (stamped, record journaled { bindings = Dict.set node_address stamped journaled.bindings })

  -- The row of a presented token that is not the live one. The binding is left as it is.
  unfoldable pub fence : String → Binding → Value → Dict Value → String → World j → Result (World j)
  unfolding next_seq append_row
  fence node_address binding expected_generation delta summary w = do
    state ← Dict.index binding "state"
    generation ← Dict.index binding "generation"
    owner_token ← Dict.index binding "owner_token"
    seq ← next_seq w
    append_row
        (record {
          seq = seq;
          node_address = node_address;
          event = "stale_return_ignored";
          from_state = state;
          to_state = state;
          expected_generation = expected_generation;
          generation = generation;
          lease_epoch = elim (Dict.get "lease_epoch" binding) [ none ↦ null | some v ↦ v ];
          owner_token = owner_token;
          binding_delta = delta;
          summary = summary;
          artifacts = json "[]";
        })
        w
