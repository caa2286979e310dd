-- ===== src/ReturnContract/Trace.antt =====
-- The report, the trace stanzas and the citation: the checks of harnessd/return_contract.py.
use Prim.Native.String.{◌++◌}
use mathlib.Core.List as L
use text.Mathlib.Text.{starts_with}
use long_horizon_agentic_har.Prelude.{
  String, str_eq, Bool, true, false, not, ◌&&◌, ◌||◌, Option, none, some, List, [], ◌∷◌,
  if◌then◌else◌,
}
use long_horizon_agentic_har.Strings.{contains, strip, split, split_once}
use long_horizon_agentic_har.Value.{Value, str}
use long_horizon_agentic_har.Dict
use long_horizon_agentic_har.Dict.{Dict}
use long_horizon_agentic_har.Validate.{or_null}
use long_horizon_agentic_har.Addressing.Paths.{node_dir}
use long_horizon_agentic_har.Executor.{Binding}
use long_horizon_agentic_har.Runtime.{Patterns, Site}

pub data Defect : Type 0 where
  missing_report unfilled_report_form missing_requirement_citation : Defect
  malformed_trace : String → Defect
  dup_id : String → String → String → Defect
  trace_contradiction : String → String → Defect

-- The tag that begins a defect's text.
abbrev pub tag : Defect → String
tag missing_report = "MISSING-REPORT"
tag unfilled_report_form = "UNFILLED-REPORT-FORM"
tag missing_requirement_citation = "MISSING-REQUIREMENT-CITATION"
tag (malformed_trace file) = "MALFORMED-TRACE"
tag (dup_id id first file) = "DUP-ID"
tag (trace_contradiction id file) = "TRACE-CONTRADICTION"

abbrev pub text_or : String → Option String → String
text_or default none = default
text_or default (some s) = s

unfoldable pub member : String → List String → Bool
member x [] = false
member x (y ∷ ys) = str_eq y x || member x ys

unfoldable pub meets : List String → List String → Bool
unfolding member
meets [] ys = false
meets (x ∷ xs) ys = member x ys || meets xs ys

pub record Stanza : Type 0 where
  pub id : String
  pub kind : String
  pub serves : List String

abbrev trace_fields : List String
trace_fields = "id" ∷ "serves" ∷ "kind" ∷ "level" ∷ "node" ∷ []

unfoldable pub stripped : List String → List String
unfolding strip
stripped [] = []
stripped (p ∷ ps) = let rest = stripped ps in if str_eq (strip p) "" then rest else strip p ∷ rest

abbrev pub serves_and_body : Option (String × String × String) → String → List String × String
serves_and_body none body = ([], body)
serves_and_body (some (before, inside, after)) body =
    (stripped (split 44 inside), before ++ ("serves: __SERVES__" ++ after))

abbrev add_pair : Option (String × String) → Option (Dict String) → Option (Dict String)
add_pair (some (key, value)) (some fields) = some (Dict.set (strip key) (strip value) fields)
add_pair _ _ = none

-- The fields of a body, in their order; none if one has no colon.
unfoldable pub parse_pairs : List String → Option (Dict String) → Option (Dict String)
unfolding strip split_once
parse_pairs [] fields = fields
parse_pairs (pair ∷ pairs) fields =
    parse_pairs pairs
      (if str_eq (strip pair) "" then fields else add_pair (split_once 58 (strip pair)) fields)

unfoldable pub all_known : Dict String → Bool
unfolding member
all_known [] = true
all_known ((k, v) ∷ fields) = member k trace_fields && all_known fields

abbrev stanza_of : List String → Option (Dict String) → Option Stanza
stanza_of serves none = none
stanza_of serves (some fields) =
    let id = text_or "" (Dict.get "id" fields) in
    let kind = text_or "" (Dict.get "kind" fields) in
    if not (all_known fields) || (str_eq id "" || str_eq kind "")
    then none
    else some
        (record { id = id; kind = kind; serves = if Dict.has "serves" fields then serves else [] })

-- None for a stanza that does not parse.
unfoldable pub parse_stanza : Patterns → String → Option Stanza
unfolding strip split parse_pairs stripped all_known
parse_stanza patterns raw =
    let (serves, body) = serves_and_body (patterns.serves_list (strip raw)) (strip raw) in
    stanza_of serves (parse_pairs (split 44 body) (some []))

-- The ID is one of the served ones, or lies below one of them.
unfoldable pub truncates_into : String → List String → Bool
truncates_into id [] = false
truncates_into id (s ∷ serves) =
    (str_eq id s || starts_with id (s ++ ".")) || truncates_into id serves

abbrev pub is_empty : List String → Bool
is_empty [] = true
is_empty (x ∷ xs) = false

abbrev duplicate_of : String → String → Option String → List Defect
duplicate_of id file none = []
duplicate_of id file (some first) = dup_id id first file ∷ []

unfoldable pub contradiction_of : String → Stanza → List Defect
unfolding truncates_into contains
contradiction_of file s =
    if str_eq s.kind "requirement"
      && (contains "." s.id && (not (is_empty s.serves) && not (truncates_into s.id s.serves)))
    then trace_contradiction s.id file ∷ []
    else []

abbrev check_stanza : String → Option Stanza → Dict String → List Defect × Dict String
check_stanza file none seen_ids = (malformed_trace file ∷ [], seen_ids)
check_stanza file (some s) seen_ids = (
  L.◌++◌ (duplicate_of s.id file (Dict.get s.id seen_ids)) (contradiction_of file s),
  Dict.set s.id file seen_ids,
)

unfoldable pub check_stanzas :
    Patterns → String → List String → Dict String → List Defect × Dict String
unfolding parse_stanza contradiction_of
check_stanzas patterns file [] seen_ids = ([], seen_ids)
check_stanzas patterns file (raw ∷ raws) seen_ids =
    let (here, seen) = check_stanza file (parse_stanza patterns raw) seen_ids in
    let (rest, last) = check_stanzas patterns file raws seen in (L.◌++◌ here rest, last)

unfoldable pub check_trace_stanzas : Patterns → Dict String → Dict String → List Defect
unfolding check_stanzas
check_trace_stanzas patterns [] seen_ids = []
check_trace_stanzas patterns ((file, text) ∷ files) seen_ids =
    let (here, seen) = check_stanzas patterns file (patterns.stanzas text) seen_ids in
    L.◌++◌ here (check_trace_stanzas patterns files seen)

unfoldable pub check_report : String → List Defect
unfolding strip contains
check_report report_text =
    L.◌++◌ (if str_eq (strip report_text) "" then missing_report ∷ [] else []) (
      if not (str_eq report_text "") && contains "form:unfilled" report_text
      then unfilled_report_form ∷ []
      else [])

abbrev pub level_of : Value → String
level_of (str s) = strip s
level_of _ = ""

-- The IDs that the node was given, and whether the report cites one of them.
unfoldable pub check_citation : Patterns → Binding → Dict String → String → List Defect
unfolding strip meets
check_citation patterns binding files report_text =
    let level = level_of (or_null (Dict.get "level" binding)) in
    let given =
      L.◌++◌ (patterns.id_tokens (text_or "" (Dict.get "brief.md" files)))
        (patterns.id_tokens (text_or "" (Dict.get "acceptance.md" files))) in
    if (str_eq level "L5" || str_eq level "L5+") && not (str_eq report_text "")
    then (if not (is_empty given) && not (meets given (patterns.id_tokens report_text))
        then missing_requirement_citation ∷ []
        else [])
    else []

abbrev pub contract_of : Patterns → Binding → Option (Dict String) → List Defect
contract_of patterns binding none = []
contract_of patterns binding (some files) =
    let report_text = text_or "" (Dict.get "report.md" files) in
    L.◌++◌ (check_report report_text) (
      L.◌++◌ (check_citation patterns binding files report_text)
        (check_trace_stanzas patterns files []))

-- The defects; the contract is met if there are none.
unfoldable pub check_done_contract : Site → String → Binding → List Defect
unfolding check_report check_citation check_trace_stanzas
check_done_contract site node_address binding =
    contract_of site.patterns binding (site.workspace (node_dir node_address))
