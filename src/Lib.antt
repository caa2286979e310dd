-- ===== src/Lib.antt =====
-- The harness daemon: the run-ledger, the single writer of the binding map, the fencing of owners,
-- the recovery after a crash, and around them the detector, the watchdog and the spawn chokepoint. The daemon runs agents in tmux panes;
-- every node of its tree has a binding, a dictionary with a lifecycle state, a generation, an owner
-- token and a lease epoch. The executor writes bindings: it first appends a row to the
-- run-ledger, then replaces the binding map. At boot, reconciliation replays over the map the rows
-- that a crash kept from it.
--
-- Files and the code they model:
-- - States, States/Edges, States/History: harnessd/states.py, the table of legal transitions
--   (`_build_allowed_transitions`), `is_legal`, `is_terminal` and the terminal vocabulary.
-- - Fencing, Fencing/Tokens: harnessd/fencing.py.
-- - Validate, Validate/Sound: harnessd/validate.py, the check before a commit.
-- - Ledger, Ledger/Frame, Ledger/File: harnessd/ledger.py and `append_framed` of
--   harnessd/store.py, on a file that is absent or a list of bytes. Ledger/Torn and Ledger/Heal
--   hold the lemmas, Ledger/Refinement the refinement to a list of records, Ledger/Unterminated the
--   case of a frame without its newline.
-- - Ledger/Journal: the interface through which the executor and reconciliation use the
--   run-ledger, and the file as an implementation of it.
-- - Executor, Executor/Transition, Executor/OwnSlice, Executor/Checkpoint: harnessd/executor.py;
--   `transition`, `claim`, `commit`, the own-slice writes, `journal` and `watchdog_checkpoint`. A
--   state is a World: the journal, the binding map and the time that the clock gives.
-- - Reconcile, Reconcile/Sweep: harnessd/reconcile.py; `replay_wal`, `_apply_one` and the sweep.
--   Reconcile/Replay, Reconcile/Recovery, Reconcile/Synced, Reconcile/Invariant and
--   Reconcile/Idempotence relate the replay to the writes of the executor; Reconcile/Sweep/Necro and
--   Reconcile/Sweep/Spares are about the nodes that the sweep reaps and those that it leaves.
-- - Addressing, Addressing/Paths: harnessd/addressing.py, the split of an address, the session name
--   and the paths of a node's files below the runtime root. Addressing/SessionName is about the
--   characters of a session name.
-- - Runtime: the state and the surroundings of the modules around the executor. A Tree is a World
--   with the signal, sign-off and inbox files, the sizes that the detector remembers, and the
--   commands to tmux so far; a Site is what a step reads from outside.
-- - Detector, Detector/Signals: harnessd/detector.py and harnessd/detector_signals.py. Detector/Verdict
--   has what each verdict rests on.
-- - Watchdog, Watchdog/Gates: harnessd/watchdog.py, which reads a node's sign-off, asks the detector,
--   and prods or fails an idle leaf through the executor. Watchdog/Signed and Watchdog/Failed are
--   about the nodes that it fails.
-- - ReturnContract, ReturnContract/Trace: harnessd/return_contract.py, what a node must have written
--   before its DONE is accepted. ReturnContract/Once is about its rows in the run-ledger.
-- - Chokepoint: harnessd/spawn/chokepoint.py. The pause of a subtree is in Chokepoint itself with
--   Chokepoint/Ancestors and Chokepoint/Pause; `escalate` and `collapse` in Chokepoint/Collapse with
--   Chokepoint/Collapse/Outcome and Chokepoint/Collapse/Again; the release of a claim and the seed of
--   a node that is registered again in Chokepoint/Claim with Chokepoint/Claim/Seed; `claim_and_spawn`
--   in Chokepoint/Kickoff and Chokepoint/Spawn; `register_and_spawn_child` and `resume` in
--   Chokepoint/Children. Chokepoint/Spawn/Fresh and Chokepoint/Children/Firewall are about the
--   session that an actor is opened with.
-- - Daemon, Daemon/Tick: harnessd/daemon.py, `_wake_on_unacked_inbox` with the fence before a send, and
--   the visit of one node by `_watchdog_tick`. Daemon/Fence, Daemon/Nudge and Daemon/Wake are about the
--   keys that a wake types, Daemon/Watermark about the inbox lines that it acks, and Daemon/Same,
--   Daemon/Kept, Daemon/Kept/Wakes and Daemon/Visit about the states that a visit leaves.
-- - Ipc, Ipc/Pause, Ipc/Answer: harnessd/ipc.py, the operator's verbs transition, kill, pause, resume
--   and answer, and how the spawn chokepoint and the detector read a pause and an answer.
-- - Value, Dict, Decimal, Strings, Result, Prelude: the Python values that bindings hold,
--   dictionaries with their insertion order, `str` of a number, and the exceptions that the code can raise.
-- - Examples: concrete worlds and files.
--
-- Parameters, for code that is not in the repository: the json encoding of a record, `zlib.crc32`
-- and the reading of a decimal number with their laws (Ledger/Codec), the listing of tmux targets,
-- the clock, in the sweep the detector's verdict, and the fields of a Site and of a Spawner: the
-- parser of instants, the panes and their text, the sizes and texts of files, the regular
-- expressions of the return contract, the adapter that opens an actor, and the check of the pieces.
--
-- A body of the executor runs under one exclusive lock, so it is one step here. Error texts are
-- constructors, summaries that repeat their arguments are shortened, and the actor argument, which
-- the code does not store, is left out. Digits are computed with as much fuel as the number itself,
-- which is at least the count of its digits; the walk over a node's parents has one more than there
-- are bindings, and takes another binding in each round.
--
-- Not modelled: the lock files, `atomic_replace` and `normalize_scalars` of harnessd/store.py, the
-- binding map's rendering as a file, the briefs, forms and containment files of a spawn, an
-- I/O error of a write to an inbox, the adapters, the other verbs of ipc, the daemon's sweep over
-- all nodes, which goes on after a node that raises, promotion and genesis.
mod Prelude
pub mod Result
pub mod Strings
pub mod Value
pub mod Dict
pub mod Decimal
pub mod States
pub mod Fencing
pub mod Ipc
pub mod Ledger
pub mod Validate
pub mod Executor
pub mod Reconcile
pub mod Addressing
pub mod Runtime
pub mod Daemon
pub mod Detector
pub mod Chokepoint
pub mod ReturnContract
pub mod Watchdog
mod Examples
