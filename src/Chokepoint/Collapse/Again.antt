-- ===== src/Chokepoint/Collapse/Again.antt =====
-- How often `escalate` of harnessd/spawn/chokepoint.py writes for one signal file.
use long_horizon_agentic_har.Prelude.{
  String, true, false, Option, none, some, ◌≡◌, refl, sym, ◌∙◌, ap, subst, inl, inr, Bool-cases,
  Option-cases,
}
use long_horizon_agentic_har.Result.{ok, ok-inj, ◌>>=◌, >>=-eq-ok}
use long_horizon_agentic_har.Value.{Value, str, same}
use long_horizon_agentic_har.Dict
use long_horizon_agentic_har.Dict.{get-set, get-set_self, get-All}
use long_horizon_agentic_har.Validate.{or_null}
use long_horizon_agentic_har.Ledger.Journal.{Journal}
use long_horizon_agentic_har.Executor.{Binding, World, TransitionResult, refused, not_running}
use long_horizon_agentic_har.Executor.Transition.{transition}
use long_horizon_agentic_har.Executor.Transition.Outcome.{stamped, transition-Committed}
use long_horizon_agentic_har.Executor.Transition.Candidate.{get-build_candidate}
use long_horizon_agentic_har.Runtime.{Site, Tree, on_world}
use long_horizon_agentic_har.Detector.Signals.{ts_is_newer}
use long_horizon_agentic_har.Chokepoint.Collapse.Outcome.{on_world-ok}
use long_horizon_agentic_har.Chokepoint.Collapse.{
  escalate_request, is_journaled, escalate_live, escalate_found, escalate,
}

module _ (j : Journal) where
  -- The binding of an escalation that is in the run-ledger.
  pub record Journaled (site : Site) (a : String) (ts : Value) (t' : Tree j) : Type 0 where
    pub stored : Binding
    pub found : Dict.get a t'.world.bindings ≡ some stored
    pub journaled : is_journaled site ts stored ≡ true

  transition-Journaled :
      (site : Site) (a now : String) (ts generation token : Value) (w w' : World j)
      (res : TransitionResult) (t' : Tree j)
      → transition j (escalate_request a generation token now) w ≡ ok (res, w')
      → res.committed ≡ true
      → ts_is_newer site ts (str now) ≡ false
      → t'.world ≡ w'
      → Journaled site a ts t'
  unfolding Dict.get is_journaled
  transition-Journaled site a now ts generation token w w' res t' h k older world_is =
      let r = escalate_request a generation token now in
      let c = transition-Committed j (escalate_request a generation token now) w res w' h k in
      let b = stamped r c.live c.next c.seq in
      let signal_is : Dict.get "terminal_signal" b ≡ some (str "ESCALATED") =
        get-set "last_applied_seq" "terminal_signal" _ _
        ∙ get-build_candidate r c.live c.next "terminal_signal" in
      let at_is : Dict.get "terminal_signal_at" b ≡ some (str now) =
        get-set "last_applied_seq" "terminal_signal_at" _ _
        ∙ get-build_candidate r c.live c.next "terminal_signal_at" in
      record {
        stored = b;
        found =
            ap (λ (x : World j). Dict.get a x.bindings) world_is
            ∙ (ap (Dict.get a) c.bindings ∙ get-set_self a b w.bindings);
        journaled = journaled_of b signal_is at_is;
      }
    where
      journaled_of :
          (b : Binding)
          → Dict.get "terminal_signal" b ≡ some (str "ESCALATED")
          → Dict.get "terminal_signal_at" b ≡ some (str now)
          → is_journaled site ts b ≡ true
      journaled_of b p q = rw (p, q, older) refl

  escalate_live-Journaled :
      (site : Site) (a : String) (token ts : Value) (live : Binding) (t : Tree j)
      (res : TransitionResult) (t' : Tree j)
      → escalate_live j site a token ts live t ≡ ok (some res, t')
      → res.committed ≡ true
      → ts_is_newer site ts (str t.world.now) ≡ false
      → Journaled site a ts t'
  escalate_live-Journaled site a token ts live t res t' h k older =
      elim (Bool-cases (is_journaled site ts live)) [
        | inl q ↦
            let clash : none ≡ some res =
              ap (λ (p : Option TransitionResult × Tree j). p.0) (ok-inj _ _ (rw q at h)) in
            absurd (cc clash)
        | inr q ↦ elim (Bool-cases (same (or_null (Dict.get "state" live)) (str "running"))) [
          | inr r ↦
              let early : some (refused not_running (some live)) ≡ some res =
                ap (λ (p : Option TransitionResult × Tree j). p.0) (ok-inj _ _ (rw (q, r) at h)) in
              let same_res : refused not_running (some live) ≡ res = cc in
              let clash : false ≡ true = ap (λ (x : TransitionResult). x.committed) same_res ∙ k in
              absurd (cc clash)
          | inl r ↦
              let (generation, _, h1) =
                >>=-eq-ok (Dict.index live "generation")
                  (λ generation. do
                    (result, t2) ←
                        on_world (transition j (escalate_request a generation token t.world.now)) t
                    ok (some result, t2))
                  (rw (q, r) at h) in
              let ((res', t2), e2, h2) =
                >>=-eq-ok
                  (on_world (transition j (escalate_request a generation token t.world.now)) t)
                  (λ (x : TransitionResult × Tree j). ok (some x.0, x.1)) h1 in
              let same_option : some res' ≡ some res =
                ap (λ (p : Option TransitionResult × Tree j). p.0) (ok-inj _ _ h2) in
              let same_res : res' ≡ res = cc in
              let (w, ew, et) =
                on_world-ok (transition j (escalate_request a generation token t.world.now)) t res'
                  t2 e2 in
              transition-Journaled site a t.world.now ts generation token t.world w res' t' ew
                (ap (λ (x : TransitionResult). x.committed) same_res ∙ k) older
                (ap (λ (p : Option TransitionResult × Tree j). p.1.world) (sym (ok-inj _ _ h2))
                  ∙ ap (λ (x : Tree j). x.world) et)
        ]
      ]

  -- Once an escalation is in the run-ledger, the same signal file escalates no more, whichever
  -- token is presented; unless its ts is later than the clock was at the first time.
  pub escalate_again :
      (site : Site) (a : String) (token later ts : Value) (t : Tree j) (res : TransitionResult)
      (t' : Tree j)
      → escalate j site a token ts t ≡ ok (some res, t')
      → res.committed ≡ true
      → ts_is_newer site ts (str t.world.now) ≡ false
      → escalate j site a later ts t' ≡ ok (none, t')
  unfolding escalate
  escalate_again site a token later ts t res t' h k older =
      elim (Option-cases (Dict.get a t.world.bindings)) [
        | inl gone ↦
            let clash : none ≡ some res =
              ap (λ (p : Option TransitionResult × Tree j). p.0)
                (ok-inj _ _
                  (subst (λ o. escalate_found j site a token ts o t ≡ ok (some res, t')) gone h)) in
            absurd (cc clash)
        | inr (b, e) ↦
            let done =
              escalate_live-Journaled site a token ts b t res t'
                (subst (λ o. escalate_found j site a token ts o t ≡ ok (some res, t')) e h) k
                older in
            subst (λ o. escalate_found j site a later ts o t' ≡ ok (none, t')) (sym done.found)
              (settled done.stored done.journaled)
      ]
    where
      settled :
          (b : Binding)
          → is_journaled site ts b ≡ true
          → escalate_live j site a later ts b t' ≡ ok (none, t')
      settled b q = rw q refl
