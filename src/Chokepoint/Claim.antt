-- ===== src/Chokepoint/Claim.antt =====
-- The claims of harnessd/spawn/chokepoint.py: how one is released, and what a node that is
-- registered again is seeded with.
pub mod Seed
use Prim.Native.String.{◌++◌}
use long_horizon_agentic_har.Prelude.{
  ℕ, ◌+◌, String, str_eq, Bool, true, false, ◌||◌, ltb, Option, none, some, List, [], ◌∷◌,
  if◌then◌else◌,
}
use long_horizon_agentic_har.Strings.{contains, split_once}
use long_horizon_agentic_har.Result.{Result, ok, err, ◌>>=◌}
use long_horizon_agentic_har.Value.{Value, null, bool, num, str, json, same, truthy}
use long_horizon_agentic_har.Dict
use long_horizon_agentic_har.Validate.{or_null}
use long_horizon_agentic_har.Fencing.{advance_epoch, mint_owner_token}
use long_horizon_agentic_har.Addressing.{session_name_for}
use long_horizon_agentic_har.Addressing.Paths.{signal_path, signoff_path}
use long_horizon_agentic_har.Ledger.{Entry}
use long_horizon_agentic_har.Ledger.Journal.{Journal}
use long_horizon_agentic_har.Executor.{Binding, World, TransitionResult}
use long_horizon_agentic_har.Executor.OwnSlice.{journal}
use long_horizon_agentic_har.Executor.Transition.{Request, transition}
use long_horizon_agentic_har.Runtime.{kill_session, Tree, attempt, command, on_world}

abbrev before_colon : String → Option (String × String) → String
before_colon identifier none = identifier
before_colon identifier (some (before, after)) = before

-- The tmux session that a recorded identifier names.
unfoldable pub stale_session_name : String → String
unfolding contains split_once session_name_for
stale_session_name identifier =
    if contains "/" identifier || contains "#" identifier
    then session_name_for identifier
    else before_colon identifier (split_once 58 identifier)

-- The request that gives a slot back, at the next epoch.
abbrev pub release_request : String → String → Value → Value → ℕ → String → String → Request
release_request node_address from_state generation expected_owner_token new_lease_epoch
      new_owner_token summary =
    record {
      node_address = node_address;
      expected_state = str from_state;
      expected_generation = generation;
      expected_owner_token = expected_owner_token;
      target_state = "planned";
      binding_delta =
          ("state", str "planned")
          ∷ ("lease_epoch", num new_lease_epoch)
          ∷ ("owner_token", str new_owner_token)
          ∷ [];
      new_lease_epoch = num new_lease_epoch;
      new_owner_token = str new_owner_token;
      event = "release_claim";
      summary = summary;
      artifacts = json "[]";
    }

abbrev pub is_released : Option TransitionResult → Bool
is_released none = false
is_released (some result) = result.committed

abbrev max_epoch_of : ℕ → Value → ℕ
max_epoch_of acc (num n) = if ltb acc n then n else acc
max_epoch_of acc v = acc

-- The loop over the run-ledger: the history flag, the greatest epoch of the address, and the
-- greatest seq of all.
unfoldable pub scan : String → Bool × ℕ × ℕ → List Entry → Bool × ℕ × ℕ
scan a acc [] = acc
scan a (has_history, max_epoch, max_seq) (e ∷ es) =
    scan a
      (
        if str_eq e.node_address a then true else has_history,
        if str_eq e.node_address a then max_epoch_of max_epoch e.lease_epoch else max_epoch,
        if ltb max_seq e.seq then e.seq else max_seq,
      )
      es

abbrev pub prior_seed : Option Binding → Bool × ℕ × ℕ
prior_seed none = (false, 0, 0)
prior_seed (some prior) = (true, max_epoch_of 0 (or_null (Dict.get "lease_epoch" prior)), 0)

abbrev pub seed_of : Bool × ℕ × ℕ → ℕ × ℕ
seed_of (has_history, max_epoch, max_seq) = if has_history then (max_epoch + 1, max_seq) else (1, 0)

module _ {j : Journal} where
  abbrev pub kill_stale : Value → Tree j → Tree j
  kill_stale (str target) t =
      if str_eq target "" then t else command (kill_session (stale_session_name target)) t
  kill_stale target t = t

  unfoldable pub kill_stale_pane : Value → Tree j → Tree j
  unfolding stale_session_name
  kill_stale_pane tmux_target t = kill_stale tmux_target t

  -- The signal and the sign-off of the incarnation that is replaced.
  unfoldable pub purge_stale_seat_artifacts : String → Tree j → Tree j
  purge_stale_seat_artifacts node_address t = record t {
    signals = Dict.remove (signal_path node_address) t.signals;
    signoffs = Dict.remove (signoff_path node_address) t.signoffs;
  }

module _ (j : Journal) where
  unfoldable pub reregister_identity_seed : String → World j → Result (ℕ × ℕ)
  unfolding scan
  reregister_identity_seed node_address w = do
    wal ← j.load w.wal
    ok (seed_of (scan node_address (prior_seed (Dict.get node_address w.bindings)) wal))

  abbrev pub released_live :
      String
      → String
      → Value
      → String
      → Binding
      → Tree j
      → Result (Option TransitionResult × Tree j)
  released_live node_address from_state expected_owner_token summary live t = do
    new_lease_epoch ← advance_epoch live
    new_owner_token ←
        mint_owner_token node_address (or_null (Dict.get "subagent_id" live))
          (or_null (Dict.get "session_uuid" live)) new_lease_epoch
    generation ← Dict.index live "generation"
    (result, t') ←
        on_world
          (transition j (
            release_request node_address from_state generation expected_owner_token new_lease_epoch
              new_owner_token summary))
          t
    ok (some result, t')

  abbrev pub release_found :
      String → Value → Option Binding → Tree j → Result (Option TransitionResult × Tree j)
  release_found node_address expected_owner_token none t = ok (none, t)
  release_found node_address expected_owner_token (some live) t =
      released_live node_address "claimed" expected_owner_token "claim released" live t

  unfoldable pub release_claim : String → Value → Tree j → Result (Option TransitionResult × Tree j)
  unfolding transition
  release_claim node_address expected_owner_token t =
      release_found node_address expected_owner_token (Dict.get node_address t.world.bindings) t

  abbrev pub rollback_found :
      String → Value → Option Binding → Tree j → Result (Option TransitionResult × Tree j)
  rollback_found node_address expected_owner_token none t = ok (none, t)
  rollback_found node_address expected_owner_token (some live) t =
      if same (or_null (Dict.get "state" live)) (str "spawning")
      then released_live node_address "spawning" expected_owner_token "actor-open-confirm failed"
          live t
      else ok (none, t)

  unfoldable pub rollback_spawning :
      String → Value → Tree j → Result (Option TransitionResult × Tree j)
  unfolding transition
  rollback_spawning node_address expected_owner_token t =
      rollback_found node_address expected_owner_token (Dict.get node_address t.world.bindings) t

  -- The row of a failed spawn, with the true outcome of the rollback.
  unfoldable pub emit_spawn_failure_escalation : String → String → String → Bool → Tree j → Tree j
  unfolding journal
  emit_spawn_failure_escalation node_address failure_class model_used released = attempt (
      journal j node_address "spawn_failed" (str "claimed")
        (str (if released then "planned" else "claimed")) null null
        (("failure_class", str failure_class)
          ∷ ("model_used", str model_used)
          ∷ ("claim_released", bool released)
          ∷ [])
        "spawn-failure escalation" (json "[]"))
