-- ===== src/Chokepoint/Spawn/Fresh.antt =====
-- The session that an actor is opened with: `claim_and_spawn` and `resume` of
-- harnessd/spawn/chokepoint.py.
use Prim.Native.String.{◌++◌}
use long_horizon_agentic_har.Prelude.{
  String, str_eq, Bool, not, Option, none, some, ◌≡◌, subst, All, Bool-cases, inl, inr,
  if◌then◌else◌,
}
use long_horizon_agentic_har.Result.{Result, ok, ok-inj, ◌>>=◌, >>=-eq-ok}
use long_horizon_agentic_har.Value.{Value, null, bool, num, str, json, same}
use long_horizon_agentic_har.Dict
use long_horizon_agentic_har.Validate.{or_null}
use long_horizon_agentic_har.Fencing.{advance_epoch, mint_owner_token}
use long_horizon_agentic_har.Addressing.Paths.{signoff_path}
use long_horizon_agentic_har.Ledger.Journal.{Journal}
use long_horizon_agentic_har.Executor.{Binding, World, TransitionResult}
use long_horizon_agentic_har.Executor.Transition.{transition}
use long_horizon_agentic_har.Runtime.{
  Command, open_actor, Sent, delivered, exited, raised, Site, Tree, command, on_world, set_world,
}
use long_horizon_agentic_har.Chokepoint.Claim.{
  kill_stale_pane, release_request, released_live, release_found, release_claim, rollback_found,
  rollback_spawning, is_released, emit_spawn_failure_escalation,
}
use long_horizon_agentic_har.Chokepoint.Kickoff.{
  LevelConfig, SpawnResult, Opening, refused_spawn, exception, opened, Spawner, result_failed,
  await_kickoff_gate, kickoff_pointer, open_request, running_request, class_or, or_bare,
}
use long_horizon_agentic_har.Chokepoint.Spawn.{
  journal_kickoff_event, after_send, deliver_kickoff, give_up, confirm, on_opening,
  spawn_after_claim,
}

-- The command opens no actor on the session of an incarnation before it.
abbrev pub IsFresh : Command → Type 0
IsFresh (open_actor a (some session)) = ⊥
IsFresh _ = Unit

abbrev pub AllFresh : {j : Journal} → Tree j → Type 0
AllFresh t = All IsFresh t.commands

module _ {j : Journal} where
  pub on_world-AllFresh {ℓ} :
      {A : Type ℓ} (step : World j → Result (A × World j)) (t : Tree j) (x : A) (t' : Tree j)
      → on_world step t ≡ ok (x, t')
      → AllFresh t
      → AllFresh t'
  on_world-AllFresh {A = A} step t x t' h fresh =
      let ((y, w), e, k) =
        >>=-eq-ok (step t.world) (λ (p : A × World j). ok (p.0, set_world p.1 t)) h in
      subst (λ (p : A × Tree j). AllFresh p.1) (ok-inj _ _ k) fresh

  pub kill_stale_pane-AllFresh :
      (v : Value) (t : Tree j) → AllFresh t → AllFresh (kill_stale_pane v t)
  unfolding kill_stale_pane
  kill_stale_pane-AllFresh (str target) t fresh = elim (Bool-cases (str_eq target "")) [
    | inl q ↦ rw q fresh
    | inr q ↦ rw q (tt, fresh)
  ]
  kill_stale_pane-AllFresh null t fresh = fresh
  kill_stale_pane-AllFresh (bool b) t fresh = fresh
  kill_stale_pane-AllFresh (num n) t fresh = fresh
  kill_stale_pane-AllFresh (json x) t fresh = fresh

module _ (j : Journal) where
  released_live-AllFresh :
      (a from : String) (token : Value) (summary : String) (live : Binding) (t : Tree j)
      (r : Option TransitionResult) (t' : Tree j)
      → released_live j a from token summary live t ≡ ok (r, t')
      → AllFresh t
      → AllFresh t'
  released_live-AllFresh a from token summary live t r t' h fresh =
      let (epoch, _, h1) = >>=-eq-ok (advance_epoch live) _ h in
      let (minted, _, h2) =
        >>=-eq-ok
          (mint_owner_token a (or_null (Dict.get "subagent_id" live))
            (or_null (Dict.get "session_uuid" live)) epoch)
          _ h1 in
      let (generation, _, h3) = >>=-eq-ok (Dict.index live "generation") _ h2 in
      let ((res, t1), e, h4) =
        >>=-eq-ok
          (on_world (transition j (release_request a from generation token epoch minted summary)) t)
          (λ (p : TransitionResult × Tree j). ok (some p.0, p.1)) h3 in
      subst (λ (p : Option TransitionResult × Tree j). AllFresh p.1) (ok-inj _ _ h4)
        (on_world-AllFresh
          (transition j (release_request a from generation token epoch minted summary)) t res t1 e
          fresh)

  release_claim-AllFresh :
      (a : String) (token : Value) (t : Tree j) (r : Option TransitionResult) (t' : Tree j)
      → release_claim j a token t ≡ ok (r, t')
      → AllFresh t
      → AllFresh t'
  unfolding release_claim
  release_claim-AllFresh a token t r t' h fresh = by_live (Dict.get a t.world.bindings) h
    where
      by_live : (o : Option Binding) → release_found j a token o t ≡ ok (r, t') → AllFresh t'
      by_live none k =
          subst (λ (p : Option TransitionResult × Tree j). AllFresh p.1)
            (ok-inj (none, t) (r, t') k) fresh
      by_live (some live) k =
          released_live-AllFresh a "claimed" token "claim released" live t r t' k fresh

  rollback_spawning-AllFresh :
      (a : String) (token : Value) (t : Tree j) (r : Option TransitionResult) (t' : Tree j)
      → rollback_spawning j a token t ≡ ok (r, t')
      → AllFresh t
      → AllFresh t'
  unfolding rollback_spawning
  rollback_spawning-AllFresh a token t r t' h fresh = by_live (Dict.get a t.world.bindings) h
    where
      by_live : (o : Option Binding) → rollback_found j a token o t ≡ ok (r, t') → AllFresh t'
      by_live none k =
          subst (λ (p : Option TransitionResult × Tree j). AllFresh p.1)
            (ok-inj (none, t) (r, t') k) fresh
      by_live (some live) k =
          elim (Bool-cases (same (or_null (Dict.get "state" live)) (str "spawning"))) [
            | inl q ↦
                released_live-AllFresh a "spawning" token "actor-open-confirm failed" live t r t'
                  (rw q at k) fresh
            | inr q ↦
                subst (λ (p : Option TransitionResult × Tree j). AllFresh p.1)
                  (ok-inj (none, t) (r, t') (rw q at k)) fresh
          ]

  after_send-AllFresh :
      (site : Site) (a target : String) (path : Value) (s : Sent) (t : Tree j)
      → AllFresh t
      → AllFresh (after_send j site a target path s t)
  unfolding journal_kickoff_event
  after_send-AllFresh site a target path (raised e) t fresh = fresh
  after_send-AllFresh site a target path exited t fresh = fresh
  after_send-AllFresh site a target path delivered t fresh = (tt, fresh)

  deliver_kickoff-AllFresh :
      (site : Site) (spawner : Spawner) (a : String) (r : SpawnResult) (t : Tree j)
      → AllFresh t
      → AllFresh (deliver_kickoff j site spawner a r t)
  unfolding deliver_kickoff
  deliver_kickoff-AllFresh site spawner a r t fresh = elim (Bool-cases (str_eq r.tmux_target "")) [
    | inl q ↦ rw q fresh
    | inr q ↦ elim (Bool-cases (await_kickoff_gate (spawner.boot r.tmux_target))) [
      | inl g ↦
          rw (q, g)
            (after_send-AllFresh site a r.tmux_target r.transcript_path
              (site.send r.tmux_target (kickoff_pointer a)) _ fresh)
      | inr g ↦ rw (q, g) fresh
    ]
  ]

  give_up-AllFresh :
      (a failure model reported : String)
      (release : Tree j → Result (Option TransitionResult × Tree j)) (t : Tree j) (r : SpawnResult)
      (t' : Tree j)
      → ((x : Option TransitionResult) (t1 : Tree j)
          → release t ≡ ok (x, t1)
          → AllFresh t
          → AllFresh t1)
      → give_up j a failure model reported release t ≡ ok (r, t')
      → AllFresh t
      → AllFresh t'
  unfolding emit_spawn_failure_escalation
  give_up-AllFresh a failure model reported release t r t' keeps h fresh =
      let ((x, t1), e, k) =
        >>=-eq-ok (release t)
          (λ (p : Option TransitionResult × Tree j). ok (
            result_failed failure a reported,
            emit_spawn_failure_escalation j a failure model (is_released p.0) p.1,
          ))
          h in
      subst (λ (p : SpawnResult × Tree j). AllFresh p.1) (ok-inj _ _ k) (keeps x t1 e fresh)

  confirm-AllFresh :
      (site : Site) (spawner : Spawner) (a : String) (token : Value) (opening : SpawnResult)
      (step4 : TransitionResult) (t : Tree j) (r : SpawnResult) (t' : Tree j)
      → confirm j site spawner a token opening (step4, t) ≡ ok (r, t')
      → AllFresh t
      → AllFresh t'
  confirm-AllFresh site spawner a token opening step4 t r t' h fresh =
      elim (Bool-cases step4.committed) [
        | inr q ↦
            give_up-AllFresh a "runtime_down" opening.model_used "" (release_claim j a token) t r t'
              (λ x t1 e. release_claim-AllFresh a token t x t1 e) (rw q at h) fresh
        | inl q ↦
            let (generation, _, h1) =
              >>=-eq-ok (Dict.index (or_bare step4.binding) "generation")
                (λ generation. do
                  (step5, t1) ← on_world (transition j (running_request a generation token)) t
                  running generation step5 t1)
                (rw q at h) in
            let ((step5, t1), e, h2) =
              >>=-eq-ok (on_world (transition j (running_request a generation token)) t)
                (λ (p : TransitionResult × Tree j). running generation p.0 p.1) h1 in
            let fresh1 =
              on_world-AllFresh (transition j (running_request a generation token)) t step5 t1 e
                fresh in
            elim (Bool-cases step5.committed) [
              | inr c ↦
                  give_up-AllFresh a "runtime_down" opening.model_used ""
                    (rollback_spawning j a token) t1 r t'
                    (λ x t2 e. rollback_spawning-AllFresh a token t1 x t2 e) (rw c at h2) fresh1
              | inl c ↦
                  subst (λ (p : SpawnResult × Tree j). AllFresh p.1)
                    (ok-inj (opening, deliver_kickoff j site spawner a opening t1) (r, t')
                      (rw c at h2))
                    (deliver_kickoff-AllFresh site spawner a opening t1 fresh1)
            ]
      ]
    where
      running : Value → TransitionResult → Tree j → Result (SpawnResult × Tree j)
      running generation step5 t1 =
          if not step5.committed
          then give_up j a "runtime_down" opening.model_used "" (rollback_spawning j a token) t1
          else ok (opening, deliver_kickoff j site spawner a opening t1)

  opened-AllFresh :
      (site : Site) (spawner : Spawner) (a : String) (token generation : Value)
      (opening : SpawnResult) (t : Tree j) (r : SpawnResult) (t' : Tree j)
      → on_opening j site spawner a token generation none (opened opening) t ≡ ok (r, t')
      → AllFresh t
      → AllFresh t'
  opened-AllFresh site spawner a token generation opening t r t' h fresh =
      elim (Bool-cases opening.spawned) [
        | inr q ↦
            give_up-AllFresh a (class_or "runtime_down" opening.failure_class) opening.model_used ""
              (release_claim j a token) (command (open_actor a none) t) r t'
              (λ x t1 e. release_claim-AllFresh a token (command (open_actor a none) t) x t1 e)
              (subst (λ x. by_spawned x ≡ ok (r, t')) q h) (tt, fresh)
        | inl q ↦
            let ((step4, t1), e, h1) =
              >>=-eq-ok
                (on_world (transition j (open_request a generation token opening))
                  (command (open_actor a none) t))
                (λ (p : TransitionResult × Tree j). confirm j site spawner a token opening p)
                (subst (λ x. by_spawned x ≡ ok (r, t')) q h) in
            confirm-AllFresh site spawner a token opening step4 t1 r t' h1 (
              on_world-AllFresh (transition j (open_request a generation token opening))
                (command (open_actor a none) t) step4 t1 e (tt, fresh))
      ]
    where
      by_spawned : Bool → Result (SpawnResult × Tree j)
      by_spawned spawned =
          if not spawned
          then give_up j a (class_or "runtime_down" opening.failure_class) opening.model_used ""
              (release_claim j a token) (command (open_actor a none) t)
          else do
            step4 ←
                on_world (transition j (open_request a generation token opening))
                  (command (open_actor a none) t)
            confirm j site spawner a token opening step4

  on_opening-AllFresh :
      (site : Site) (spawner : Spawner) (a : String) (token generation : Value) (o : Opening)
      (t : Tree j) (r : SpawnResult) (t' : Tree j)
      → on_opening j site spawner a token generation none o t ≡ ok (r, t')
      → AllFresh t
      → AllFresh t'
  on_opening-AllFresh site spawner a token generation (refused_spawn failure model) t r t' h fresh =
      give_up-AllFresh a (class_or "model_unavailable" failure) model model
        (release_claim j a token) t r t' (λ x t1 e. release_claim-AllFresh a token t x t1 e) h fresh
  on_opening-AllFresh site spawner a token generation (exception name) t r t' h fresh =
      give_up-AllFresh a ("spawn_exception:" ++ name) "" "" (release_claim j a token) t r t'
        (λ x t1 e. release_claim-AllFresh a token t x t1 e) h fresh
  on_opening-AllFresh site spawner a token generation (opened opening) t r t' h fresh =
      opened-AllFresh site spawner a token generation opening t r t' h fresh

  pub spawn_after_claim-AllFresh :
      (site : Site) (spawner : Spawner) (a : String) (claimed : Binding) (level : LevelConfig)
      (t : Tree j) (r : SpawnResult) (t' : Tree j)
      → spawn_after_claim j site spawner a claimed level none t ≡ ok (r, t')
      → AllFresh t
      → AllFresh t'
  unfolding spawn_after_claim
  spawn_after_claim-AllFresh site spawner a claimed level t r t' h fresh =
      let killed = kill_stale_pane (str a) t in
      let (token, _, h1) =
        >>=-eq-ok (Dict.index claimed "owner_token")
          (λ token. do
            generation ← Dict.index claimed "generation"
            on_opening j site spawner a token generation none (spawner.pin_and_open a level none)
                (record killed { signoffs = Dict.set (signoff_path a) token killed.signoffs }))
          h in
      let (generation, _, h2) =
        >>=-eq-ok (Dict.index claimed "generation")
          (λ generation.
            on_opening j site spawner a token generation none (spawner.pin_and_open a level none)
              (record killed { signoffs = Dict.set (signoff_path a) token killed.signoffs }))
          h1 in
      on_opening-AllFresh site spawner a token generation (spawner.pin_and_open a level none) _ r t'
        h2 (kill_stale_pane-AllFresh (str a) t fresh)
