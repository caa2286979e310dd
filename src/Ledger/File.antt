-- ===== src/Ledger/File.antt =====
-- The run-ledger file of harnessd/ledger.py: append with the heal of a torn tail, and load.
use long_horizon_agentic_har.Prelude.{
  ℕ, zero, suc, ◌+◌, Bool, true, false, Option, none, some, List, [], ◌∷◌, ◌==◌, if◌then◌else◌, ltb,
}
use long_horizon_agentic_har.Result.{Result, ok, err, wal_corruption, ◌>>=◌}
use long_horizon_agentic_har.Ledger.{Entry}
use long_horizon_agentic_har.Ledger.Codec.{Codec}
use long_horizon_agentic_har.Ledger.Frame.{FileBytes, append_framed, line_is_torn}

-- handle.seek(-1, 2); handle.read(1)
unfoldable pub last_byte : List ℕ → Option ℕ
last_byte [] = none
last_byte (c ∷ []) = some c
last_byte (c ∷ d ∷ cs) = last_byte (d ∷ cs)

abbrev later : Option ℕ → Option ℕ → Option ℕ
later (some i) o = some (suc i)
later none o = o

-- data.rfind(b"\n"), none for -1
unfoldable pub rfind_newline : List ℕ → Option ℕ
rfind_newline [] = none
rfind_newline (c ∷ cs) = later (rfind_newline cs) (if c == 10 then some 0 else none)

-- handle.truncate(keep)
unfoldable pub truncate : ℕ → List ℕ → List ℕ
truncate zero cs = []
truncate (suc n) [] = []
truncate (suc n) (c ∷ cs) = c ∷ truncate n cs

abbrev pub keep : Option ℕ → ℕ
keep none = 0
keep (some last_nl) = last_nl + 1

abbrev pub heal_bytes : Option ℕ → List ℕ → List ℕ
heal_bytes none bs = bs
heal_bytes (some c) bs = if c == 10 then bs else truncate (keep (rfind_newline bs)) bs

unfoldable pub heal_torn_tail : FileBytes → FileBytes
heal_torn_tail none = none
heal_torn_tail (some bs) = some (heal_bytes (last_byte bs) bs)

abbrev pub push : ℕ → List (List ℕ) → List (List ℕ)
push c [] = (c ∷ []) ∷ []
push c (l ∷ ls) = (c ∷ l) ∷ ls

-- text.split("\n")
unfoldable pub split_lines : List ℕ → List (List ℕ)
split_lines [] = [] ∷ []
split_lines (c ∷ cs) = let rest = split_lines cs in if c == 10 then [] ∷ rest else push c rest

abbrev pub is_empty : List ℕ → Bool
is_empty [] = true
is_empty (c ∷ cs) = false

-- `if segments and segments[-1] == "": segments.pop()`
unfoldable pub pop_empty : List (List ℕ) → List (List ℕ)
pop_empty [] = []
pop_empty (l ∷ []) = if is_empty l then [] else l ∷ []
pop_empty (l ∷ m ∷ ls) = l ∷ pop_empty (m ∷ ls)

module _ {R : Type 0} (codec : Codec R) where
  open codec use {dumps}

  unfoldable pub append_wal : R → FileBytes → Result FileBytes
  append_wal record_ file = append_framed (heal_torn_tail file) (dumps record_)

  -- A torn line ends the loop if it is the last one (`index == last_index`), and raises if not.
  abbrev pub on_torn : ℕ → List (List ℕ) → Result (List R)
  on_torn index [] = ok []
  on_torn index (l ∷ ls) = err (wal_corruption index)

  abbrev pub add_record : Option R → ℕ → List (List ℕ) → Result (List R) → Result (List R)
  add_record none index ls rest = on_torn index ls
  add_record (some record_) index ls rest = do records ← rest; ok (record_ ∷ records)

  unfoldable pub load_lines : ℕ → List (List ℕ) → Result (List R)
  load_lines index [] = ok []
  load_lines index (l ∷ ls) =
      let rest = load_lines (index + 1) ls in add_record (line_is_torn codec l) index ls rest

  unfoldable pub load_wal : FileBytes → Result (List R)
  unfolding load_lines
  load_wal none = ok []
  load_wal (some []) = ok []
  load_wal (some (c ∷ cs)) = load_lines 0 (pop_empty (split_lines (c ∷ cs)))

-- max(record["seq"] for record in wal), at least `acc`
unfoldable pub max_seq : ℕ → List Entry → ℕ
max_seq acc [] = acc
max_seq acc (e ∷ es) = max_seq (if ltb acc e.seq then e.seq else acc) es

-- The next seq of a loaded run-ledger.
unfoldable pub seq_after : List Entry → ℕ
unfolding max_seq
seq_after [] = 1
seq_after (e ∷ es) = max_seq e.seq es + 1
