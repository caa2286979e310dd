-- ===== src/Addressing/Paths.antt =====
-- The files that an address has below the runtime root: the path functions of
-- harnessd/addressing.py, as paths relative to that root.
use Prim.Native.String.{◌++◌}
use long_horizon_agentic_har.Prelude.{String}
use long_horizon_agentic_har.Addressing.{split_address, node_path}

unfoldable pub node_dir : String → String
node_dir address = "nodes/" ++ node_path address

unfoldable pub signal_path : String → String
signal_path address = node_dir address ++ ("/.signal." ++ ((split_address address).1 ++ ".json"))

unfoldable pub signoff_path : String → String
signoff_path address = node_dir address ++ ("/.sign-off." ++ ((split_address address).1 ++ ".json"))

unfoldable pub inbox_path : String → String
inbox_path address = node_dir address ++ ("/.inbox." ++ ((split_address address).1 ++ ".jsonl"))
