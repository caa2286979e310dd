-- ===== src/Chokepoint/Spawn.antt =====
-- `claim_and_spawn` of harnessd/spawn/chokepoint.py: the claim, the gate, the actor, and the
-- rollback.
pub mod Fresh
use Prim.Native.String.{◌++◌}
use long_horizon_agentic_har.Prelude.{
  ℕ, String, str_eq, Bool, true, false, not, ◌&&◌, ◌||◌, Option, none, some, List, [], ◌∷◌,
  if◌then◌else◌,
}
use mathlib.Core.List as L
use long_horizon_agentic_har.Strings.{contains}
use long_horizon_agentic_har.Result.{Result, ok, err, key_error, ◌>>=◌}
use long_horizon_agentic_har.Value.{Value, null, num, str, json, truthy}
use long_horizon_agentic_har.Dict
use long_horizon_agentic_har.Dict.{Dict}
use long_horizon_agentic_har.Validate.{or_null}
use long_horizon_agentic_har.Addressing.{split_address}
use long_horizon_agentic_har.Addressing.Paths.{node_dir, signoff_path, inbox_path}
use long_horizon_agentic_har.Ledger.Journal.{Journal}
use long_horizon_agentic_har.Executor.{Binding, World, TransitionResult}
use long_horizon_agentic_har.Executor.OwnSlice.{journal, record_wake_pending}
use long_horizon_agentic_har.Executor.Transition.{Request, transition, claim}
use long_horizon_agentic_har.Runtime.{
  Message, Site, Sent, delivered, exited, raised, Tree, open_actor, send_keys, lines_of, lines_size,
  append_line, attempt, command, on_world,
}
use long_horizon_agentic_har.Detector.Signals.{pane_working_marker}
use long_horizon_agentic_har.Chokepoint.{subtree_paused}
use long_horizon_agentic_har.Chokepoint.Claim.{
  is_released, kill_stale_pane, release_claim, rollback_spawning, emit_spawn_failure_escalation,
}
use long_horizon_agentic_har.Chokepoint.Kickoff.{
  LevelConfig, SpawnResult, Opening, Spawner, result_failed, class_or, await_kickoff_gate,
  kickoff_pointer, kickoff_line, transcript_size, open_request, running_request, or_bare,
  work_node_for, refused_spawn, exception, opened,
}

module _ (j : Journal) where
  abbrev write_pending : World j → Result (TransitionResult × World j) → World j
  write_pending w (ok (result, w')) = w'
  write_pending w (err e) = w

  unfoldable pub journal_kickoff_event : String → String → String → Tree j → Tree j
  unfolding journal
  journal_kickoff_event node_address event target = attempt (
      journal j node_address event (str "running") (str "running") null null
        (("inbox", str (inbox_path node_address)) ∷ ("tmux_target", str target) ∷ []) event
        (json "[]"))

  abbrev pub after_send : Site → String → String → Value → Sent → Tree j → Tree j
  after_send site node_address target transcript_path (raised e) t = t
  after_send site node_address target transcript_path exited t =
      journal_kickoff_event node_address "kickoff_send_failed" target t
  after_send site node_address target transcript_path delivered t = record t {
    world = write_pending t.world (
        record_wake_pending j node_address
          (lines_size site (lines_of (Dict.get (inbox_path node_address) t.inboxes)))
          (transcript_size site transcript_path) null t.world);
    commands = send_keys target (kickoff_pointer node_address) ∷ t.commands;
  }

  -- The durable line, the gate, the keys, and the verification that is owed.
  unfoldable pub deliver_kickoff : Site → Spawner → String → SpawnResult → Tree j → Tree j
  unfolding await_kickoff_gate journal_kickoff_event record_wake_pending lines_size
  deliver_kickoff site spawner node_address r t =
      let lined = append_line (inbox_path node_address) (kickoff_line node_address) t in
      if str_eq r.tmux_target ""
      then lined
      else if not (await_kickoff_gate (spawner.boot r.tmux_target))
      then journal_kickoff_event node_address "kickoff_gate_timeout" r.tmux_target lined
      else after_send site node_address r.tmux_target r.transcript_path
          (site.send r.tmux_target (kickoff_pointer node_address)) lined

  -- Any failure after the claim: the claim is released, and the failure has a row. The model is in
  -- the result only where the adapter refused.
  abbrev pub give_up :
      String
      → String
      → String
      → String
      → (Tree j → Result (Option TransitionResult × Tree j))
      → Tree j
      → Result (SpawnResult × Tree j)
  give_up node_address failure_class model_used reported release t = do
    (released, t') ← release t
    ok (
      result_failed failure_class node_address reported,
      emit_spawn_failure_escalation j node_address failure_class model_used (is_released released)
          t',
    )

  abbrev pub confirm :
      Site
      → Spawner
      → String
      → Value
      → SpawnResult
      → TransitionResult × Tree j
      → Result (SpawnResult × Tree j)
  confirm site spawner node_address token r (step4, t) =
      if not step4.committed
      then give_up node_address "runtime_down" r.model_used "" (release_claim j node_address token)
          t
      else do
        generation ← Dict.index (or_bare step4.binding) "generation"
        (step5, t') ← on_world (transition j (running_request node_address generation token)) t
        if not step5.committed
            then give_up node_address "runtime_down" r.model_used ""
                (rollback_spawning j node_address token) t'
            else ok (r, deliver_kickoff site spawner node_address r t')

  abbrev pub on_opening :
      Site
      → Spawner
      → String
      → Value
      → Value
      → Option Value
      → Opening
      → Tree j
      → Result (SpawnResult × Tree j)
  on_opening site spawner node_address token generation resumed
        (refused_spawn failure_class model_used) t =
      give_up node_address (class_or "model_unavailable" failure_class) model_used model_used
        (release_claim j node_address token) t
  on_opening site spawner node_address token generation resumed (exception name) t =
      give_up node_address ("spawn_exception:" ++ name) "" "" (release_claim j node_address token) t
  on_opening site spawner node_address token generation resumed (opened r) t =
      let t' = command (open_actor node_address resumed) t in
      if not r.spawned
      then give_up node_address (class_or "runtime_down" r.failure_class) r.model_used ""
          (release_claim j node_address token) t'
      else do
        step4 ← on_world (transition j (open_request node_address generation token r)) t'
        confirm site spawner node_address token r step4

  -- From a committed claim to a running actor, or back to a planned slot.
  unfoldable pub spawn_after_claim :
      Site
      → Spawner
      → String
      → Binding
      → LevelConfig
      → Option Value
      → Tree j
      → Result (SpawnResult × Tree j)
  unfolding kill_stale_pane release_claim rollback_spawning emit_spawn_failure_escalation transition
      deliver_kickoff
  spawn_after_claim site spawner node_address claimed level resumed t = do
    let killed = kill_stale_pane (str node_address) t
    token ← Dict.index claimed "owner_token"
    generation ← Dict.index claimed "generation"
    on_opening site spawner node_address token generation resumed
        (spawner.pin_and_open node_address level resumed)
        (record killed { signoffs = Dict.set (signoff_path node_address) token killed.signoffs })

  abbrev pub gated :
      Site
      → Spawner
      → String
      → Binding
      → LevelConfig
      → Option String
      → Tree j
      → Result (SpawnResult × Tree j)
  gated site spawner node_address claimed level none t =
      spawn_after_claim site spawner node_address claimed level none t
  gated site spawner node_address claimed level (some message) t = do
    (released, t') ← release_claim j node_address (or_null (Dict.get "owner_token" claimed)) t
    ok (
      result_failed "pieces_missing" node_address "",
      emit_spawn_failure_escalation j node_address ("pieces_missing: " ++ message) ""
          (is_released released) t',
    )

  abbrev pub on_claim :
      Site
      → Spawner
      → String
      → LevelConfig
      → TransitionResult × Tree j
      → Result (SpawnResult × Tree j)
  on_claim site spawner node_address level (result, t) =
      if not result.committed
      then ok (result_failed "claim_lost" node_address "", t)
      else let claimed = or_bare result.binding in
        gated site spawner node_address claimed level
          (spawner.check_boundary node_address level (work_node_for site node_address claimed)) t

  unfoldable pub claim_and_spawn :
      Site
      → Spawner
      → String
      → Value
      → Value
      → Value
      → LevelConfig
      → Tree j
      → Result (SpawnResult × Tree j)
  unfolding subtree_paused claim work_node_for release_claim emit_spawn_failure_escalation
      spawn_after_claim
  claim_and_spawn site spawner node_address expected_state expected_generation expected_owner_token
        level t =
      if subtree_paused node_address t.world.bindings
      then ok (result_failed "paused_subtree" node_address "", t)
      else do
        claimed ←
            on_world (claim j node_address expected_state expected_generation expected_owner_token)
              t
        on_claim site spawner node_address level claimed
