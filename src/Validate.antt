-- ===== src/Validate.antt =====
-- harnessd/validate.py: the admission check of a candidate binding. The messages of the source
-- are the constructors of `Defect` and `Notice`.
pub mod Sound
use long_horizon_agentic_har.Prelude.{
  ℕ, String, Bool, true, false, not, ◌&&◌, Option, none, some, List, [], ◌∷◌, ◌++◌, if◌then◌else◌,
}
use long_horizon_agentic_har.Result.{Result, ok, err, ◌>>=◌}
use long_horizon_agentic_har.Value.{Value, null, num, str, same, is_null, plus_one}
use long_horizon_agentic_har.Dict
use long_horizon_agentic_har.Dict.{Dict}
use long_horizon_agentic_har.States.{is_legal_value}
use long_horizon_agentic_har.Ledger.{Entry}

pub data Defect : Type 0 where
  missing_field : String → Defect
  no_entry illegal_no_op illegal_transition wrong_generation : Defect

pub data Notice : Type 0 where
  escalated_slot_hold : Notice

abbrev pub required_binding_fields : List String
required_binding_fields = "node_address" ∷ "state" ∷ "generation" ∷ "owner_token" ∷ []

abbrev pub Report : Type 0
Report = List Defect × List Notice

unfoldable pub missing_fields : Dict Value → List String → List Defect
missing_fields candidate [] = []
missing_fields candidate (field ∷ fields) =
    let rest = missing_fields candidate fields in
    if Dict.has field candidate then rest else missing_field field ∷ rest

-- binding.get(key), with None for a missing key
abbrev pub or_null : Option Value → Value
or_null none = null
or_null (some v) = v

-- The one self-loop that is admitted: running stays running under the signal ESCALATED.
unfoldable pub is_slot_hold : Dict Value → Entry → Bool
is_slot_hold candidate entry =
    same entry.from_state (str "running")
    && same (or_null (Dict.get "terminal_signal" candidate)) (str "ESCALATED")

unfoldable pub check_edge : Dict Value → Entry → Report
check_edge candidate entry =
    if same entry.from_state entry.to_state
    then (if is_slot_hold candidate entry
        then ([], escalated_slot_hold ∷ [])
        else (illegal_no_op ∷ [], []))
    else if not (is_legal_value entry.from_state entry.to_state)
    then (illegal_transition ∷ [], [])
    else ([], [])

abbrev check_next : Value → Value → Result (List Defect)
check_next candidate_generation expected_generation = do
  next ← plus_one expected_generation
  ok (if same candidate_generation next then [] else wrong_generation ∷ [])

abbrev pub check_present : Option Value → Value → Result (List Defect)
check_present none expected_generation = ok []
check_present (some candidate_generation) expected_generation =
    if is_null expected_generation
    then ok []
    else check_next candidate_generation expected_generation

unfoldable pub check_generation : Dict Value → Entry → Result (List Defect)
check_generation candidate entry =
    check_present (Dict.get "generation" candidate) entry.expected_generation

-- wal_tail[-1]
abbrev pub last_entry : List Entry → Option Entry
last_entry [] = none
last_entry (e ∷ []) = some e
last_entry (e ∷ d ∷ es) = last_entry (d ∷ es)

unfoldable pub check_entry : Dict Value → Option Entry → Result Report
unfolding missing_fields check_edge check_generation
check_entry candidate none =
    ok (missing_fields candidate required_binding_fields ++ (no_entry ∷ []), [])
check_entry candidate (some entry) = do
  wrong ← check_generation candidate entry
  let (edge_errors, warnings) = check_edge candidate entry
  ok (missing_fields candidate required_binding_fields ++ (edge_errors ++ wrong), warnings)

unfoldable pub validate : Dict Value → List Entry → Result Report
unfolding check_entry
validate candidate wal_tail = check_entry candidate (last_entry wal_tail)
