-- ===== src/Ledger/Codec.antt =====
-- What harnessd/ledger.py takes from Python's json, zlib and int.
use long_horizon_agentic_har.Prelude.{ℕ, ◌+◌, ◌≡◌, Option, some, List, map, ◌==◌, false, All}
use long_horizon_agentic_har.Decimal.{digits}

-- str(n), as bytes
abbrev pub decimal_bytes : ℕ → List ℕ
decimal_bytes n = map (λ d. 48 + d) (digits n)

-- `R` is the type of the records, which `Entry` is for the run-ledger.
pub record Codec (R : Type 0) : Type 0 where
  -- json.dumps(record), whose text is ASCII
  pub dumps : R → List ℕ
  -- json.loads(text): none if it raises or if the value is no object
  pub loads : List ℕ → Option R
  -- int(text): none if it raises or if the number is negative
  pub int_of : List ℕ → Option ℕ
  -- record.get("crc32")
  pub recorded_crc : R → Option ℕ
  -- the crc32 of the JSON text of a record without its checksum
  pub content_crc : R → ℕ
  pub loads-dumps : (e : R) → loads (dumps e) ≡ some e
  -- JSON text with ASCII escapes has no raw newline
  pub dumps_no_newline : (e : R) → All (λ c. (c == 10) ≡ false) (dumps e)
  pub int_of-decimal : (n : ℕ) → int_of (decimal_bytes n) ≡ some n
