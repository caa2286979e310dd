-- ===== src/Chokepoint/Collapse/Outcome.antt =====
-- What a committed `collapse` and a committed `escalate` of harnessd/spawn/chokepoint.py leave.
use long_horizon_agentic_har.Prelude.{String, true, some, ◌≡◌, sym, ◌∙◌, ap}
use long_horizon_agentic_har.Result.{Result, ok, ok-inj, >>=-eq-ok}
use long_horizon_agentic_har.Value.{Value, bool, str}
use long_horizon_agentic_har.Dict
use long_horizon_agentic_har.States.{is_terminal}
use long_horizon_agentic_har.Ledger.Journal.{Journal}
use long_horizon_agentic_har.Executor.{Binding, World, TransitionResult}
use long_horizon_agentic_har.Runtime.{Tree, on_world, set_world}
use long_horizon_agentic_har.Chokepoint.Collapse.{collapse_targets}

module _ {j : Journal} where
  -- A step of the single writer, read off the tree.
  pub on_world-ok :
      (step : World j → Result (TransitionResult × World j)) (t : Tree j) (res : TransitionResult)
      (t' : Tree j)
      → on_world step t ≡ ok (res, t')
      → (w : World j) × (step t.world ≡ ok (res, w)) × (t' ≡ set_world w t)
  on_world-ok step t res t' h =
      let ((r, w), e, k) =
        >>=-eq-ok (step t.world) (λ (p : TransitionResult × World j). ok (p.0, set_world p.1 t))
          h in
      let q = ok-inj _ _ k in
      (
        w,
        e ∙ ap (λ (p : TransitionResult × Tree j). ok (p.0, w)) q,
        sym (ap (λ (p : TransitionResult × Tree j). p.1) q),
      )

module _ (j : Journal) where
  -- What a node's binding is after its collapse.
  pub record Ended (a signal : String) (t' : Tree j) : Type 0 where
    pub target : String
    pub target_is : Dict.get signal collapse_targets ≡ some target
    pub ended : is_terminal target ≡ true
    pub stored : Binding
    pub found : Dict.get a t'.world.bindings ≡ some stored
    pub state_is : Dict.get "state" stored ≡ some (str target)
    pub signal_is : Dict.get "terminal_signal" stored ≡ some (str signal)
    pub released : Dict.get "in_flight_release" stored ≡ some (bool true)
