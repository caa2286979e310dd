-- ===== src/Chokepoint/Children/Firewall.antt =====
-- `resume` of harnessd/spawn/chokepoint.py on a node that has crossed its gate.
use long_horizon_agentic_har.Prelude.{String, false, some, ◌≡◌, subst, Bool-cases, inl, inr}
use long_horizon_agentic_har.Result.{ok, ok-inj, >>=-eq-ok}
use long_horizon_agentic_har.Value.{Value, is_null}
use long_horizon_agentic_har.Dict
use long_horizon_agentic_har.Validate.{or_null}
use long_horizon_agentic_har.Ledger.Journal.{Journal}
use long_horizon_agentic_har.Executor.{Binding, TransitionResult}
use long_horizon_agentic_har.Executor.Transition.{claim}
use long_horizon_agentic_har.Runtime.{Site, Tree, on_world}
use long_horizon_agentic_har.Chokepoint.{subtree_paused}
use long_horizon_agentic_har.Chokepoint.Claim.{kill_stale_pane}
use long_horizon_agentic_har.Chokepoint.Kickoff.{LevelConfig, SpawnResult, Spawner, or_bare}
use long_horizon_agentic_har.Chokepoint.Spawn.Fresh.{
  AllFresh, on_world-AllFresh, kill_stale_pane-AllFresh, spawn_after_claim-AllFresh,
}
use long_horizon_agentic_har.Chokepoint.Children.{resume_claimed, resume_found, resume}

module _ (j : Journal) where
  resume_claimed-AllFresh :
      (site : Site) (spawner : Spawner) (a : String) (level : LevelConfig) (live : Binding)
      (claimed : TransitionResult) (t : Tree j) (r : SpawnResult) (t' : Tree j)
      → resume_claimed j site spawner a level live (claimed, t) ≡ ok (r, t')
      → is_null (or_null (Dict.get "gate_crossed_at" live)) ≡ false
      → AllFresh t
      → AllFresh t'
  resume_claimed-AllFresh site spawner a level live claimed t r t' h crossed fresh =
      elim (Bool-cases claimed.committed) [
        | inr q ↦ subst (λ (p : SpawnResult × Tree j). AllFresh p.1) (ok-inj _ _ (rw q at h)) fresh
        | inl q ↦
            spawn_after_claim-AllFresh j site spawner a (or_bare claimed.binding) level
              (kill_stale_pane (or_null (Dict.get "tmux_target" live)) t) r t'
              (rw (q, crossed) at h)
              (kill_stale_pane-AllFresh (or_null (Dict.get "tmux_target" live)) t fresh)
      ]

  -- A resume of a node that has crossed its gate opens no actor on the session that the node had
  -- before, on any of its paths.
  pub resume-AllFresh :
      (site : Site) (spawner : Spawner) (a : String) (xs xg xt : Value) (level : LevelConfig)
      (t : Tree j) (r : SpawnResult) (t' : Tree j) (live : Binding)
      → resume j site spawner a xs xg xt level t ≡ ok (r, t')
      → Dict.get a t.world.bindings ≡ some live
      → is_null (or_null (Dict.get "gate_crossed_at" live)) ≡ false
      → AllFresh t
      → AllFresh t'
  unfolding resume
  resume-AllFresh site spawner a xs xg xt level t r t' live h found crossed fresh =
      elim (Bool-cases (subtree_paused a t.world.bindings)) [
        | inl q ↦ subst (λ (p : SpawnResult × Tree j). AllFresh p.1) (ok-inj _ _ (rw q at h)) fresh
        | inr q ↦
            let ((claimed, t1), e, k) =
              >>=-eq-ok (on_world (claim j a xs xg xt) t)
                (λ (p : TransitionResult × Tree j). resume_claimed j site spawner a level live p)
                (subst (λ o. resume_found j site spawner a xs xg xt level o t ≡ ok (r, t')) found
                  (rw q at h)) in
            resume_claimed-AllFresh site spawner a level live claimed t1 r t' k crossed
              (on_world-AllFresh (claim j a xs xg xt) t claimed t1 e fresh)
      ]
