-- ===== src/Ledger/Frame.antt =====
-- One physical line of the run-ledger: `append_framed` of harnessd/store.py writes it and
-- `_line_is_torn` of harnessd/ledger.py reads it.
use long_horizon_agentic_har.Prelude.{
  ℕ, Bool, true, false, ◌||◌, Option, none, some, List, [], ◌∷◌, ◌++◌, ◌==◌, if◌then◌else◌, length,
}
use long_horizon_agentic_har.Result.{Result, ok, err, value_error}
use long_horizon_agentic_har.Ledger.Codec.{Codec, decimal_bytes}

-- "\n" in payload
unfoldable pub has_newline : List ℕ → Bool
has_newline [] = false
has_newline (c ∷ cs) = c == 10 || has_newline cs

-- f"{byte_len}\t{payload}", the frame without its newline
unfoldable pub line : List ℕ → List ℕ
line payload = decimal_bytes (length payload) ++ (9 ∷ payload)

-- A file is absent, or it is its bytes; opening it to append creates it.
abbrev pub FileBytes : Type 0
FileBytes = Option (List ℕ)

abbrev pub bytes : FileBytes → List ℕ
bytes none = []
bytes (some bs) = bs

unfoldable pub append_framed : FileBytes → List ℕ → Result FileBytes
append_framed file payload =
    if has_newline payload
    then err value_error
    else ok (some (bytes file ++ (line payload ++ 10 ∷ [])))

abbrev cons_first : ℕ → Option (List ℕ × List ℕ) → Option (List ℕ × List ℕ)
cons_first c none = none
cons_first c (some (a, b)) = some (c ∷ a, b)

-- line.split("\t", 1); none if there is no tab
unfoldable pub split_tab : List ℕ → Option (List ℕ × List ℕ)
split_tab [] = none
split_tab (c ∷ cs) = let rest = split_tab cs in if c == 9 then some ([], cs) else cons_first c rest

module _ {R : Type 0} (codec : Codec R) where
  open codec use {loads, int_of, recorded_crc, content_crc}

  abbrev crc_agrees : Option ℕ → ℕ → Bool
  crc_agrees none computed = true
  crc_agrees (some expected) computed = computed == expected

  abbrev check_crc : Option R → Option R
  check_crc none = none
  check_crc (some e) = if crc_agrees (recorded_crc e) (content_crc e) then some e else none

  abbrev check_length : Option ℕ → List ℕ → Option R
  check_length none payload = none
  check_length (some declared_len) payload =
      if declared_len == length payload then check_crc (loads payload) else none

  abbrev check_parts : Option (List ℕ × List ℕ) → Option R
  check_parts none = none
  check_parts (some (prefix, payload)) = check_length (int_of prefix) payload

  -- The record of a line; none if the line is torn.
  unfoldable pub line_is_torn : List ℕ → Option R
  line_is_torn l = check_parts (split_tab l)
