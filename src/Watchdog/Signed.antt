-- ===== src/Watchdog/Signed.antt =====
-- What a sign-off leads to in harnessd/watchdog.py fails no node on the spot.
use long_horizon_agentic_har.Prelude.{
  String, Bool, true, false, Option, none, some, List, [], ◌∷◌, ◌≡◌, refl, subst, inl, inr,
  Bool-cases,
}
use long_horizon_agentic_har.Result.{ok, ok-inj, >>=-eq-ok}
use long_horizon_agentic_har.Value.{Value, str, same}
use long_horizon_agentic_har.Dict
use long_horizon_agentic_har.Dict.{Dict}
use long_horizon_agentic_har.Validate.{or_null}
use long_horizon_agentic_har.Ledger.Journal.{Journal}
use long_horizon_agentic_har.Executor.{Binding, TransitionResult}
use long_horizon_agentic_har.Runtime.{Site, Tree}
use long_horizon_agentic_har.Detector.Signals.{read_terminal_signal, escalation_answered}
use long_horizon_agentic_har.Chokepoint.Collapse.{escalate, collapse}
use long_horizon_agentic_har.ReturnContract.Trace.{Defect}
use long_horizon_agentic_har.Watchdog.Gates.{Kind, failed, WatchdogAction}
use long_horizon_agentic_har.Watchdog.{
  after_escalate, after_collapse, collapse_signal, done_signal, on_signal, on_terminal_signal,
  check_terminal_signal,
}

abbrev pub is_failed : Kind → Bool
is_failed failed = true
is_failed _ = false

-- An outcome that fails no node.
abbrev pub Spares : {j : Journal} → Option WatchdogAction × Tree j → Type 0
Spares (none, t) = Unit
Spares (some x, t) = is_failed x.kind ≡ false

module _ (j : Journal) where
  after_escalate-Spares :
      (site : Site) (a : String) (b : Binding) (ts : Value) (r : Option TransitionResult)
      (t : Tree j)
      → Spares (after_escalate j site a b ts (r, t))
  after_escalate-Spares site a b ts none t = elim (Bool-cases (escalation_answered site b ts)) [
    | inl q ↦ rw q tt
    | inr q ↦ rw q refl
  ]
  after_escalate-Spares site a b ts (some r) t = elim (Bool-cases r.committed) [
    | inl q ↦ rw q refl
    | inr q ↦ rw q refl
  ]

  after_collapse-Spares :
      (a signal : String) (evidence : Value) (r : Option TransitionResult) (t : Tree j)
      → Spares (after_collapse j a signal evidence (r, t))
  after_collapse-Spares a signal evidence none t = refl
  after_collapse-Spares a signal evidence (some r) t = elim (Bool-cases r.committed) [
    | inl q ↦ rw q refl
    | inr q ↦ rw q refl
  ]

  collapse_signal-Spares :
      (site : Site) (a signal : String) (b : Binding) (evidence : Value) (t : Tree j)
      (x : Option WatchdogAction × Tree j)
      → collapse_signal j site a b signal evidence t ≡ ok x
      → Spares x
  collapse_signal-Spares site a signal b evidence t x h =
      let ((r, t'), _, k) =
        >>=-eq-ok (collapse j site a signal (or_null (Dict.get "owner_token" b)) t) _ h in
      subst Spares (ok-inj _ _ k) (after_collapse-Spares a signal evidence r t')

  done_signal-Spares :
      (site : Site) (a : String) (b : Binding) (ts evidence : Value) (ds : List Defect) (t : Tree j)
      (x : Option WatchdogAction × Tree j)
      → done_signal j site a b ts evidence ds t ≡ ok x
      → Spares x
  done_signal-Spares site a b ts evidence [] t x h =
      collapse_signal-Spares site a "DONE" b evidence t x h
  done_signal-Spares site a b ts evidence (d ∷ ds) t x h = subst Spares (ok-inj _ _ h) refl

  on_signal-Spares :
      (site : Site) (a : String) (b : Binding) (sig : Dict Value) (t : Tree j)
      (x : Option WatchdogAction × Tree j)
      → on_signal j site a b sig t ≡ ok x
      → Spares x
  on_signal-Spares site a b sig t x h =
      let signal = or_null (Dict.get "signal" sig) in
      elim (Bool-cases (same signal (str "ESCALATED"))) [
        | inl q ↦
            let ((r, t'), _, k) =
              >>=-eq-ok
                (escalate j site a (or_null (Dict.get "owner_token" b))
                  (or_null (Dict.get "ts" sig)) t)
                (λ y. ok (after_escalate j site a b (or_null (Dict.get "ts" sig)) y)) (rw q at h) in
            subst Spares (ok-inj _ _ k)
              (after_escalate-Spares site a b (or_null (Dict.get "ts" sig)) r t')
        | inr q ↦ elim (Bool-cases (same signal (str "DONE"))) [
          | inl d ↦ done_signal-Spares site a b _ _ _ t x (rw (q, d) at h)
          | inr d ↦ elim (Bool-cases (same signal (str "FAILED"))) [
            | inl f ↦ collapse_signal-Spares site a "FAILED" b _ t x (rw (q, d, f) at h)
            | inr f ↦ subst Spares (ok-inj (none, t) x (rw (q, d, f) at h)) tt
          ]
        ]
      ]

  pub check_terminal_signal-Spares :
      (site : Site) (a : String) (b : Binding) (t : Tree j) (x : Option WatchdogAction × Tree j)
      → check_terminal_signal j site a b t ≡ ok x
      → Spares x
  unfolding check_terminal_signal
  check_terminal_signal-Spares site a b t x h = by_signal (read_terminal_signal a b t) h
    where
      by_signal :
          (r : Option (Dict Value) × Tree j) → on_terminal_signal j site a b r ≡ ok x → Spares x
      by_signal (none, t') k = subst Spares (ok-inj (none, t') x k) tt
      by_signal (some sig, t') k = on_signal-Spares site a b sig t' x k
