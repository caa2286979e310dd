-- ===== src/Chokepoint/Children.antt =====
-- `register_and_spawn_child` and `resume` of harnessd/spawn/chokepoint.py.
pub mod Firewall
use Prim.Native.String.{◌++◌}
use Prim.Native.Char.{code}
use Prim.Native.String as Text
use long_horizon_agentic_har.Prelude.{
  ℕ, String, str_eq, Bool, true, false, not, ◌&&◌, ◌||◌, Option, none, some, List, [], ◌∷◌,
  if◌then◌else◌, ◌==◌,
}
use long_horizon_agentic_har.Result.{Result, ok, err, ◌>>=◌}
use long_horizon_agentic_har.Value.{Value, null, num, str, same, is_null}
use long_horizon_agentic_har.Dict
use long_horizon_agentic_har.States.{is_terminal_value}
use long_horizon_agentic_har.Validate.{or_null}
use long_horizon_agentic_har.Fencing.{mint_owner_token}
use long_horizon_agentic_har.Addressing.{session_name_for}
use long_horizon_agentic_har.Addressing.Paths.{node_dir}
use long_horizon_agentic_har.Ledger.Journal.{Journal}
use long_horizon_agentic_har.Executor.{Binding, World, TransitionResult}
use long_horizon_agentic_har.Executor.Transition.{claim}
use long_horizon_agentic_har.Runtime.{Site, Tree, on_world, set_world}
use long_horizon_agentic_har.Chokepoint.{subtree_paused}
use long_horizon_agentic_har.Chokepoint.Claim.{
  kill_stale_pane, reregister_identity_seed, purge_stale_seat_artifacts,
}
use long_horizon_agentic_har.Chokepoint.Kickoff.{
  LevelConfig, SpawnResult, Spawner, result_failed, or_bare,
}
use long_horizon_agentic_har.Chokepoint.Spawn.{spawn_after_claim, claim_and_spawn}

unfoldable pub parent_is_live : Option Binding → Bool
parent_is_live none = false
parent_is_live (some parent) = not (is_terminal_value (or_null (Dict.get "state" parent)))

-- "/" and "#" become "__".
unfoldable pub sanitize_address : String → String
sanitize_address Text.[] = ""
sanitize_address (Text.◌∷◌ c s) =
    let rest = sanitize_address s in
    if code c == 47 || code c == 35 then "__" ++ rest else Text.◌∷◌ c rest

abbrev text_or : String → String → String
text_or default s = if str_eq s "" then default else s

abbrev pub child_binding : String → String → LevelConfig → ℕ → ℕ → String → Binding
child_binding child_address parent_address level lease_epoch last_applied_seq owner_token =
    ("node_address", str child_address)
    ∷ ("parent_address", str parent_address)
    ∷ ("level", str (text_or "L3" level.level))
    ∷ ("subagent_id", str ("subagent-" ++ sanitize_address child_address))
    ∷ ("session_uuid", str ("registered-" ++ sanitize_address child_address))
    ∷ ("tmux_target", str (session_name_for child_address))
    ∷ ("state", str "planned")
    ∷ ("generation", num 0)
    ∷ ("lease_epoch", num lease_epoch)
    ∷ ("owner_token", str owner_token)
    ∷ ("last_applied_seq", num last_applied_seq)
    ∷ ("liveness_state", str "claimed")
    ∷ ("terminal_signal", null)
    ∷ ("terminal_signal_at", null)
    ∷ ("gate_crossed_at", null)
    ∷ ("paused_at", null)
    ∷ ("workspace", str (node_dir child_address))
    ∷ ("spec_pointer", str (node_dir child_address ++ "/brief.md"))
    ∷ ("frozen_acceptance_ref", str (node_dir child_address ++ "/acceptance.md"))
    ∷ []

abbrev is_live_child : Binding → Bool
is_live_child live =
    not (is_terminal_value (or_null (Dict.get "state" live)))
    && not (same (or_null (Dict.get "state" live)) (str "planned"))

module _ (j : Journal) where
  abbrev pub seed_child : String → String → LevelConfig → Tree j → Result (Binding × Tree j)
  seed_child child_address parent_address level t = do
    (lease_epoch, last_applied_seq) ← reregister_identity_seed j child_address t.world
    owner_token ←
        mint_owner_token child_address (str ("subagent-" ++ sanitize_address child_address))
          (str ("registered-" ++ sanitize_address child_address)) lease_epoch
    let binding =
        child_binding child_address parent_address level lease_epoch last_applied_seq owner_token
    let purged = purge_stale_seat_artifacts child_address t
    ok (
      binding,
      set_world
          (record purged.world { bindings = Dict.set child_address binding purged.world.bindings })
          purged,
    )

  abbrev register_found :
      String → String → LevelConfig → Option Binding → Tree j → Result (Binding × Tree j)
  register_found child_address parent_address level none t =
      seed_child child_address parent_address level t
  register_found child_address parent_address level (some live) t =
      if is_live_child live
      then ok (live, t)
      else seed_child child_address parent_address level (
          if is_terminal_value (or_null (Dict.get "state" live))
          then kill_stale_pane (or_null (Dict.get "tmux_target" live)) t
          else t)

  -- A live child stays as it is, and is returned.
  unfoldable pub register_child : String → String → LevelConfig → Tree j → Result (Binding × Tree j)
  unfolding reregister_identity_seed kill_stale_pane purge_stale_seat_artifacts sanitize_address
  register_child child_address parent_address level t =
      register_found child_address parent_address level (Dict.get child_address t.world.bindings) t

  abbrev fresh_token : Binding → Option Binding → Value
  fresh_token registered none = or_null (Dict.get "owner_token" registered)
  fresh_token registered (some fresh) = or_null (Dict.get "owner_token" fresh)

  -- The parent is fenced only where the caller presents a token.
  unfoldable pub register_and_spawn_child :
      Site
      → Spawner
      → String
      → String
      → LevelConfig
      → Value
      → Tree j
      → Result (SpawnResult × Tree j)
  unfolding parent_is_live register_child claim_and_spawn
  register_and_spawn_child site spawner parent_address child_address level
        expected_parent_owner_token t =
      if not (parent_is_live (Dict.get parent_address t.world.bindings))
      then ok (result_failed "dead_parent" child_address "", t)
      else if not (is_null expected_parent_owner_token)
          && not (
              same
                (or_null
                  (Dict.get "owner_token" (or_bare (Dict.get parent_address t.world.bindings))))
                expected_parent_owner_token)
      then ok (result_failed "parent_fence" child_address "", t)
      else do
        (registered, t') ← register_child child_address parent_address level t
        generation ← Dict.index registered "generation"
        claim_and_spawn j site spawner child_address (str "planned") generation
            (fresh_token registered (Dict.get child_address t'.world.bindings)) level t'

  abbrev pub resume_claimed :
      Site
      → Spawner
      → String
      → LevelConfig
      → Binding
      → TransitionResult × Tree j
      → Result (SpawnResult × Tree j)
  resume_claimed site spawner node_address level live (result, t) =
      if not result.committed
      then ok (result_failed "claim_lost" node_address "", t)
      else spawn_after_claim j site spawner node_address (or_bare result.binding) level
          (if not (is_null (or_null (Dict.get "gate_crossed_at" live)))
            then none
            else some (or_null (Dict.get "session_uuid" live)))
          (kill_stale_pane (or_null (Dict.get "tmux_target" live)) t)

  abbrev pub resume_found :
      Site
      → Spawner
      → String
      → Value
      → Value
      → Value
      → LevelConfig
      → Option Binding
      → Tree j
      → Result (SpawnResult × Tree j)
  resume_found site spawner node_address expected_state expected_generation expected_owner_token
        level none t =
      ok (result_failed "absent_node" node_address "", t)
  resume_found site spawner node_address expected_state expected_generation expected_owner_token
        level (some live) t =
      do
        claimed ←
            on_world (claim j node_address expected_state expected_generation expected_owner_token)
              t
        resume_claimed site spawner node_address level live claimed

  -- The actor is given the session of the incarnation before it only if the gate is not crossed.
  unfoldable pub resume :
      Site
      → Spawner
      → String
      → Value
      → Value
      → Value
      → LevelConfig
      → Tree j
      → Result (SpawnResult × Tree j)
  unfolding subtree_paused claim kill_stale_pane spawn_after_claim
  resume site spawner node_address expected_state expected_generation expected_owner_token level t =
      if subtree_paused node_address t.world.bindings
      then ok (result_failed "paused_subtree" node_address "", t)
      else resume_found site spawner node_address expected_state expected_generation
          expected_owner_token level (Dict.get node_address t.world.bindings) t
