-- ===== src/Examples/Files.antt =====
-- The run-ledger file with numbers for records.
use long_horizon_agentic_har.Prelude.{
  ℕ, ◌+◌, ◌-◌, false, Option, some, List, [], ◌∷◌, ◌++◌, map, ◌≡◌, refl, ap, ◌∙◌, ◌==◌, All, arith,
}
use mathlib.Core.Path.{ap₂}
use long_horizon_agentic_har.Result.{ok}
use long_horizon_agentic_har.Decimal.{digits, value, value-digits}
use long_horizon_agentic_har.Ledger.Codec.{Codec, decimal_bytes}
use long_horizon_agentic_har.Ledger.Frame.{
  FileBytes, bytes, append_framed, has_newline, line, line_is_torn, split_tab,
}
use long_horizon_agentic_har.Ledger.File.{
  append_wal, load_wal, heal_torn_tail, last_byte, rfind_newline, truncate,
}
use long_horizon_agentic_har.Ledger.Refinement.{
  render, Holds, load_wal-Holds, append_wal-Holds, append_wal-crash,
}
use long_horizon_agentic_har.Ledger.Unterminated.{unterminated_entry_lost}

back : (ds : List ℕ) → map (λ c. c - 48) (map (λ d. 48 + d) ds) ≡ ds
back [] = refl
back (d ∷ ds) = ap₂ ◌∷◌ (omega arith) (back ds)

no_newline : (ds : List ℕ) → All (λ c. (c == 10) ≡ false) (map (λ d. 48 + d) ds)
no_newline [] = tt
no_newline (d ∷ ds) = (ground arith, no_newline ds)

abbrev number_of : List ℕ → Option ℕ
number_of bs = some (value 0 (map (λ c. c - 48) bs))

number_of-decimal : (n : ℕ) → number_of (decimal_bytes n) ≡ some n
number_of-decimal n = ap (λ ds. some (value 0 ds)) (back (digits n)) ∙ ap some (value-digits n)

abbrev numbers : Codec ℕ
numbers = record {
  dumps = decimal_bytes;
  loads = number_of;
  int_of = number_of;
  recorded_crc = λ n. some n;
  content_crc = λ n. n;
  loads-dumps = number_of-decimal;
  dumps_no_newline = λ n. no_newline (digits n);
  int_of-decimal = number_of-decimal;
}

-- Two records and the first bytes of a third.
abbrev torn_file : FileBytes
torn_file = some (render numbers (7 ∷ 42 ∷ []) (50 ∷ []))

torn_file-Holds : Holds numbers torn_file (7 ∷ 42 ∷ [])
unfolding line_is_torn split_tab
torn_file-Holds = record {
  tail = 50 ∷ [];
  text = refl;
  unterminated = (refl, tt);
  torn = refl;
  sealed = (refl, (refl, tt));
}

load_wal-Holds_example : load_wal numbers torn_file ≡ ok (7 ∷ 42 ∷ [])
load_wal-Holds_example = load_wal-Holds numbers torn_file (7 ∷ 42 ∷ []) torn_file-Holds

append_wal-Holds_example :
    (file' : FileBytes) × (append_wal numbers 5 torn_file ≡ ok file')
    × Holds numbers file' (7 ∷ 42 ∷ 5 ∷ [])
append_wal-Holds_example = append_wal-Holds numbers torn_file (7 ∷ 42 ∷ []) 5 torn_file-Holds refl

abbrev appended_file : FileBytes
appended_file = some (render numbers (7 ∷ 42 ∷ 42 ∷ []) [])

appends : append_wal numbers 42 torn_file ≡ ok appended_file
unfolding append_wal heal_torn_tail line digits last_byte rfind_newline truncate append_framed
    has_newline
appends = refl

appended_bytes :
    bytes appended_file ≡ bytes (heal_torn_tail torn_file) ++ (50 ∷ 9 ∷ 52 ∷ 50 ∷ 10 ∷ [])
unfolding heal_torn_tail line digits last_byte rfind_newline truncate
appended_bytes = refl

-- The crash leaves "2", tab and "4" of the line of 42, behind the healed file.
append_wal-crash_example :
    let crashed = some (bytes (heal_torn_tail torn_file) ++ (50 ∷ 9 ∷ 52 ∷ [])) in
    Holds numbers crashed (7 ∷ 42 ∷ [])
    × (load_wal numbers crashed ≡ ok (7 ∷ 42 ∷ []))
    × (next : FileBytes) × (append_wal numbers 5 crashed ≡ ok next)
    × (load_wal numbers next ≡ ok (7 ∷ 42 ∷ 5 ∷ []))
append_wal-crash_example =
    append_wal-crash numbers torn_file appended_file (7 ∷ 42 ∷ []) 42 5 (50 ∷ 9 ∷ 52 ∷ []) [] 50 10
      torn_file-Holds appends appended_bytes refl

unterminated_entry_lost_example :
    (load_wal numbers (some (render numbers (7 ∷ []) (line (decimal_bytes 42)))) ≡ ok (7 ∷ 42 ∷ []))
    × (file' : FileBytes) × (append_wal numbers 5
          (some (render numbers (7 ∷ []) (line (decimal_bytes 42))))
        ≡ ok file')
    × (load_wal numbers file' ≡ ok (7 ∷ 5 ∷ []))
unterminated_entry_lost_example = unterminated_entry_lost numbers (7 ∷ []) 42 5 (refl, tt) refl refl
