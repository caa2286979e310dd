-- ===== src/Examples/Nodes.antt =====
-- A tree of files around a running node, and the world outside it.
use long_horizon_agentic_har.Prelude.{str_eq, true, none, some, [], ◌∷◌, if◌then◌else◌}
use long_horizon_agentic_har.Result.{Result, ok, err}
use long_horizon_agentic_har.Value.{null, num, str}
use long_horizon_agentic_har.Executor.{Binding}
use long_horizon_agentic_har.Runtime.{Site, Tree, delivered}
use long_horizon_agentic_har.Chokepoint.Kickoff.{LevelConfig, SpawnResult, opened, Spawner}
use long_horizon_agentic_har.Examples.Worlds.{list_journal}

abbrev pub site : Site
site = record {
  instant = λ s. if str_eq s "t0" then some 0 else if str_eq s "t1" then some 60000000 else none;
  targets = ("harness-p-exec", []) ∷ [];
  capture = λ s. some "❯ ";
  transcript = λ s. none;
  notes = λ v. some "";
  line_size = λ m. 10;
  send = λ a b. delivered;
  workspace = λ s. none;
  patterns = record { id_tokens = λ s. []; stanzas = λ s. []; serves_list = λ s. none };
}

abbrev pub leaf : Binding
leaf =
    ("node_address", str "p#exec")
    ∷ ("state", str "running")
    ∷ ("generation", num 3)
    ∷ ("owner_token", str "p#exec:s:u:2")
    ∷ ("lease_epoch", num 2)
    ∷ ("subagent_id", str "s")
    ∷ ("session_uuid", str "u")
    ∷ ("parent_address", str "#exec")
    ∷ ("transcript_path", str "p.jsonl")
    ∷ ("tmux_target", str "harness-p-exec")
    ∷ ("stale_check_count", num 2)
    ∷ ("last_applied_seq", num 0)
    ∷ []

abbrev pub tree_of : Binding → Tree list_journal
tree_of b = record {
  world = record { wal = []; bindings = ("p#exec", b) ∷ []; now = "t1" };
  signals = [];
  signoffs = [];
  inboxes = [];
  sizes = [];
  commands = [];
}

abbrev pub leaf_tree : Tree list_journal
leaf_tree = tree_of leaf

-- What a call returned, and the tree that it left.
abbrev pub returned : {A : Type 0} → A → Result (A × Tree list_journal) → A × Tree list_journal
returned a (ok x) = x
returned a (err e) = (a, leaf_tree)

abbrev pub spawned : SpawnResult
spawned = record {
  spawned = true;
  session_uuid = str "u2";
  model_used = "m";
  role_variant = "r";
  system_prompt_file = "s.md";
  tmux_target = "harness-p-exec";
  transcript_path = str "p.jsonl";
  failure_class = none;
  permission_posture = null;
}

abbrev pub spawner : Spawner
spawner = record {
  pin_and_open = λ a level resumed. opened spawned;
  check_boundary = λ a level n. none;
  boot = λ t. "❯ " ∷ [];
}

abbrev pub level : LevelConfig
level = record { level = "L4"; role_variant = "r" }
