-- ===== src/Ledger/Journal.antt =====
-- The run-ledger as harnessd/executor.py uses it: a list of entries that is appended to and
-- loaded. `file_journal` is the run-ledger of harnessd/ledger.py.
use long_horizon_agentic_har.Prelude.{ℕ, some, List, [], ◌∷◌, ◌++◌, ◌≡◌, ◌∙◌, ap, sym}
use long_horizon_agentic_har.Result.{Result, ok}
use long_horizon_agentic_har.Ledger.{Content, Entry}
use long_horizon_agentic_har.Ledger.Codec.{Codec}
use long_horizon_agentic_har.Ledger.Frame.{FileBytes}
use long_horizon_agentic_har.Ledger.File.{append_wal, load_wal}
use long_horizon_agentic_har.Ledger.Refinement.{Holds, load_wal-Holds, append_wal-Holds}

pub record Journal : Type 1 where
  pub File : Type 0
  pub crc : Content → ℕ
  pub load : File → Result (List Entry)
  pub append : Entry → File → Result File
  -- The file stands for the entries.
  pub Stands : File → List Entry → Type 0
  pub load-Stands : (f : File) (es : List Entry) → Stands f es → load f ≡ ok es
  pub append-Stands :
      (f : File) (es : List Entry) (e : Entry)
      → Stands f es
      → e.crc32 ≡ some (crc e.content)
      → (f' : File) × (append e f ≡ ok f') × Stands f' (es ++ (e ∷ []))

-- The file, where the codec takes the checksum of a content by `crc`.
pub file_journal :
    (codec : Codec Entry) (crc : Content → ℕ)
    → ((e : Entry) → codec.recorded_crc e ≡ e.crc32)
    → ((e : Entry) → codec.content_crc e ≡ crc e.content)
    → Journal
file_journal codec crc recorded computed = record {
  File = FileBytes;
  crc = crc;
  load = load_wal codec;
  append = append_wal codec;
  Stands = Holds codec;
  load-Stands = load_wal-Holds codec;
  append-Stands = λ f es e h sealed.
      append_wal-Holds codec f es e h (recorded e ∙ (sealed ∙ ap some (sym (computed e))));
}
