-- ===== src/Ledger.antt =====
-- harnessd/ledger.py: the rows of the run-ledger. The children have its file (Frame, File), what
-- the file stands for (Torn, Refinement), and the binding ledger (Bindings).
pub mod Codec
pub mod Frame
pub mod File
pub mod Torn
pub mod Heal
pub mod Refinement
pub mod Unterminated
pub mod Journal
use long_horizon_agentic_har.Prelude.{ℕ, String, Option, some, List}
use long_horizon_agentic_har.Value.{Value}
use long_horizon_agentic_har.Dict.{Dict}

-- The arguments of `build_wal_record`.
pub record Row : Type 0 where
  pub seq : ℕ
  pub node_address : String
  pub event : String
  pub from_state : Value
  pub to_state : Value
  pub expected_generation : Value
  pub generation : Value
  pub lease_epoch : Value
  pub owner_token : Value
  pub binding_delta : Dict Value
  pub summary : String
  pub artifacts : Value

-- The record but for its checksum.
pub record Content : Type 0 where
  pub ts : String
  pub actor : String
  pub row : Row
  pub open row use *

pub record Entry : Type 0 where
  pub content : Content
  pub open content use *
  pub crc32 : Option ℕ

-- `crc` is the checksum of the JSON text of a content, and `now` the clock. The values of the
-- model hold no dates, so `normalize_scalars` has nothing to do.
unfoldable pub build_wal_record : (Content → ℕ) → String → Row → Entry
build_wal_record crc now row =
    let content : Content = record { ts = now; actor = "harnessd"; row = row } in
    record { content = content; crc32 = some (crc content) }
