-- ===== src/ReturnContract.antt =====
-- harnessd/return_contract.py: what a node must have written before its DONE is accepted.
pub mod Trace
pub mod Once
use Prim.Native.String.{◌++◌}
use mathlib.Core.List as L
use text.Mathlib.Text.{starts_with}
use long_horizon_agentic_har.Prelude.{
  ℕ, String, str_eq, Bool, true, false, not, ◌&&◌, ◌||◌, Option, none, some, List, [], ◌∷◌, map,
  take, ◌==◌, if◌then◌else◌,
}
use long_horizon_agentic_har.Strings.{contains, join, strip, split, split_once}
use long_horizon_agentic_har.Result.{Result, ok, err}
use long_horizon_agentic_har.Value.{Value, null, bool, num, str, json, same, truthy}
use long_horizon_agentic_har.Dict
use long_horizon_agentic_har.Dict.{Dict}
use long_horizon_agentic_har.Decimal.{decimal}
use long_horizon_agentic_har.Validate.{or_null}
use long_horizon_agentic_har.Addressing.Paths.{node_dir, inbox_path}
use long_horizon_agentic_har.Ledger.{Entry}
use long_horizon_agentic_har.Ledger.Journal.{Journal}
use long_horizon_agentic_har.Executor.{Binding, World}
use long_horizon_agentic_har.Executor.OwnSlice.{journal}
use long_horizon_agentic_har.Runtime.{Patterns, Message, Site, Tree, append_line, attempt}
use long_horizon_agentic_har.ReturnContract.Trace.{Defect, tag}

abbrev pub contract_event : String
contract_event = "return_contract_failed"

abbrev names_ts : Value → Entry → Bool
names_ts (str ts) e = not (str_eq ts "") && contains ts e.summary
names_ts ts e = truthy ts

-- The row of an earlier refusal of the signal of that ts.
unfoldable pub is_refusal : String → Value → Entry → Bool
unfolding contains
is_refusal node_address sig_ts e =
    str_eq e.event contract_event && (str_eq e.node_address node_address && names_ts sig_ts e)

unfoldable pub any_refusal : String → Value → List Entry → Bool
unfolding is_refusal
any_refusal node_address sig_ts [] = false
any_refusal node_address sig_ts (e ∷ es) =
    is_refusal node_address sig_ts e || any_refusal node_address sig_ts es

-- A run-ledger that cannot be read counts as journaled.
abbrev pub already_journaled : String → Value → Result (List Entry) → Bool
already_journaled node_address sig_ts (ok es) = any_refusal node_address sig_ts es
already_journaled node_address sig_ts (err e) = true

-- signal_ts or "", as an f-string shows it
abbrev ts_text : Value → String
ts_text null = ""
ts_text (bool b) = if b then "True" else ""
ts_text (num n) = if n == 0 then "" else decimal n
ts_text (str ts) = ts
ts_text (json t) = if truthy (json t) then t else ""

abbrev pub refusal_summary : String → Value → List Defect → String
refusal_summary node_address sig_ts defects =
    ("return contract REFUSED collapse for " ++ (node_address ++ " (signal ts "))
    ++ (ts_text sig_ts ++ ("): " ++ join "; " (map tag (take 5 defects))))

abbrev pub refusal_line : List Defect → Message
refusal_line defects = record {
  type = "return_contract_defect";
  message =
      "Your DONE sign-off was REFUSED by the return contract. Defects: "
      ++ (join " | " (map tag (take 5 defects))
          ++ " — fix the named artifact(s), then re-write your .signal file (same owner_token, fresh ts).");
}

module _ (j : Journal) where
  -- One row and one inbox line for each signal; the first component says whether this call wrote.
  unfoldable pub journal_defects_once :
      String → Binding → Value → List Defect → Tree j → Bool × Tree j
  unfolding journal any_refusal
  journal_defects_once node_address binding sig_ts defects t =
      if already_journaled node_address sig_ts (j.load t.world.wal) then (false, t) else (
        true,
        append_line (inbox_path node_address) (refusal_line defects) (
            attempt
              (journal j node_address contract_event (or_null (Dict.get "state" binding))
                (or_null (Dict.get "state" binding)) (or_null (Dict.get "lease_epoch" binding)) null
                (("defects", json (join ", " (map tag (take 10 defects)))) ∷ [])
                (refusal_summary node_address sig_ts defects) (json "[]"))
              t),
      )
