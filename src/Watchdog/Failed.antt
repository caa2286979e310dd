-- ===== src/Watchdog/Failed.antt =====
-- When `check_leaf` of harnessd/watchdog.py fails a node.
use long_horizon_agentic_har.Prelude.{
  ℕ, ◌≤◌, String, str_eq, Bool, true, false, not, ◌&&◌, ◌||◌, Option, none, some, ◌≡◌, sym, ◌∙◌, ap,
  subst, inl, inr, Bool-cases, leb, leb→le, if◌then◌else◌,
}
use long_horizon_agentic_har.Result.{Result, ok, ok-inj, ◌>>=◌, >>=-eq-ok}
use long_horizon_agentic_har.Value.{Value, null, truthy}
use long_horizon_agentic_har.Dict
use long_horizon_agentic_har.Dict.{Dict}
use long_horizon_agentic_har.Validate.{or_null}
use long_horizon_agentic_har.Ledger.Journal.{Journal}
use long_horizon_agentic_har.Executor.{Binding, TransitionResult}
use long_horizon_agentic_har.Executor.Transition.{transition}
use long_horizon_agentic_har.Runtime.{Site, Tree, on_world}
use long_horizon_agentic_har.Detector.{Liveness, w_window, liveness}
use long_horizon_agentic_har.Chokepoint.{subtree_paused}
use long_horizon_agentic_har.Watchdog.Gates.{
  noop, prod, failed, idle_within_w, not_idle, WatchdogAction, stale_count, grace_checks,
  age_beyond_w, fail_request, prod_precondition, prodded,
}
use long_horizon_agentic_har.Watchdog.{
  check_terminal_signal, fail_and_escalate, after_fail, checkpoint, rung, ladder, recovered, judge,
  unsigned, signed_or, check_leaf,
}
use long_horizon_agentic_har.Watchdog.Signed.{is_failed, check_terminal_signal-Spares}

module _ (j : Journal) where
  -- The grounds on which a leaf is failed.
  pub record Abandoned (site : Site) (a : String) (b : Binding) (now : String) (x : WatchdogAction)
      (t t' : Tree j) : Type 0 where
    pub running : subtree_paused a t.world.bindings ≡ false
    pub verdict : Liveness
    pub seen : Tree j
    pub verdict_is : liveness site a t ≡ ok (verdict, seen)
    pub idle : str_eq verdict.state "idle" ≡ true
    pub overdue : age_beyond_w site verdict.last_progress_at (w_window b) now ≡ ok true
    pub count : ℕ
    pub count_is : stale_count b ≡ ok count
    pub grace : ℕ
    pub grace_is : grace_checks b ≡ ok grace
    pub spent : grace ≤ count
    pub state : Value
    pub generation : Value
    pub result : TransitionResult
    pub transitioned :
        on_world
          (transition j (fail_request a state generation (or_null (Dict.get "owner_token" b))))
          seen
        ≡ ok (result, t')
    pub committed : result.committed ≡ true
    pub told : x.target ≡ or_null (Dict.get "parent_address" b)

  after_fail-failed :
      (a : String) (parent : Value) (r : TransitionResult) (t : Tree j) (x : WatchdogAction)
      (t' : Tree j)
      → after_fail j a parent (r, t) ≡ (x, t')
      → x.kind ≡ failed
      → (r.committed ≡ true) × (t ≡ t') × (x.target ≡ parent)
  after_fail-failed a parent r t x t' h k = elim (Bool-cases r.committed) [
    | inl q ↦
        let same_pair = (rw q at h) in
        (
          q,
          ap (λ (p : WatchdogAction × Tree j). p.1) h,
          sym (ap (λ (p : WatchdogAction × Tree j). p.0.target) same_pair),
        )
    | inr q ↦
        let clash : noop ≡ x.kind = ap (λ (p : WatchdogAction × Tree j). p.0.kind) (rw q at h) in cc
  ]

  -- What a failing rung has done.
  record FailedBy (a : String) (b : Binding) (x : WatchdogAction) (t t' : Tree j) : Type 0 where
    pub state : Value
    pub generation : Value
    pub result : TransitionResult
    pub transitioned :
        on_world
          (transition j (fail_request a state generation (or_null (Dict.get "owner_token" b))))
          t
        ≡ ok (result, t')
    pub committed : result.committed ≡ true
    pub told : x.target ≡ or_null (Dict.get "parent_address" b)

  fail_and_escalate-FailedBy :
      (a : String) (b : Binding) (t : Tree j) (x : WatchdogAction) (t' : Tree j)
      → fail_and_escalate j a b t ≡ ok (x, t')
      → x.kind ≡ failed
      → FailedBy a b x t t'
  unfolding fail_and_escalate
  fail_and_escalate-FailedBy a b t x t' h k =
      let (state, _, h1) = >>=-eq-ok (Dict.index b "state") _ h in
      let (generation, _, h2) = >>=-eq-ok (Dict.index b "generation") _ h1 in
      let ((r, t1), e3, h3) =
        >>=-eq-ok
          (on_world
            (transition j (fail_request a state generation (or_null (Dict.get "owner_token" b)))) t)
          (λ y. ok (after_fail j a (or_null (Dict.get "parent_address" b)) y)) h2 in
      let (done, same_tree, told) = after_fail-failed a _ r t1 x t' (ok-inj _ _ h3) k in
      record {
        state = state;
        generation = generation;
        result = r;
        transitioned = e3 ∙ ap (λ y. ok (r, y)) same_tree;
        committed = done;
        told = told;
      }

  rung-FailedBy :
      (site : Site) (a : String) (b : Binding) (p : Value) (count grace : ℕ) (t : Tree j)
      (x : WatchdogAction) (t' : Tree j)
      → rung j site a b p count grace t ≡ ok (x, t')
      → x.kind ≡ failed
      → (grace ≤ count) × FailedBy a b x t t'
  rung-FailedBy site a b p count grace t x t' h k = elim (Bool-cases (leb grace count)) [
    | inl q ↦ (leb→le grace count q, fail_and_escalate-FailedBy a b t x t' (rw q at h) k)
    | inr q ↦ elim (Bool-cases (prod_precondition site b)) [
      | inr c ↦
          let clash : noop ≡ x.kind =
            ap (λ (y : WatchdogAction × Tree j). y.0.kind) (ok-inj _ _ (rw (q, c) at h)) in
          absurd (cc (clash, k))
      | inl c ↦
          let (t1, e, h1) =
            >>=-eq-ok (checkpoint j a b "idle" p t)
              (λ (t1 : Tree j). ok (prodded a count grace, t1)) (rw (q, c) at h) in
          let clash : prod ≡ x.kind =
            ap (λ (y : WatchdogAction × Tree j). y.0.kind) (ok-inj _ _ h1) in
          absurd (cc (clash, k))
    ]
  ]

  ladder-FailedBy :
      (site : Site) (a : String) (b : Binding) (p : Value) (t : Tree j) (x : WatchdogAction)
      (t' : Tree j)
      → ladder j site a b p t ≡ ok (x, t')
      → x.kind ≡ failed
      → (count : ℕ) × (grace : ℕ) × (stale_count b ≡ ok count)
        × (grace_checks b ≡ ok grace)
        × (grace ≤ count)
        × FailedBy a b x t t'
  unfolding ladder
  ladder-FailedBy site a b p t x t' h k =
      let (count, e1, h1) =
        >>=-eq-ok (stale_count b)
          (λ count. do grace ← grace_checks b; rung j site a b p count grace t) h in
      let (grace, e2, h2) =
        >>=-eq-ok (grace_checks b) (λ grace. rung j site a b p count grace t) h1 in
      let (le, by) = rung-FailedBy site a b p count grace t x t' h2 k in
      (count, grace, e1, e2, le, by)

  -- `judge` by the test for an idle verdict.
  abbrev judged :
      Site → String → Binding → String → Liveness → Tree j → Bool → Result (WatchdogAction × Tree j)
  judged site a b now v t idle = if not idle then recovered j a b v t else do
    overdue ← age_beyond_w site v.last_progress_at (w_window b) now
    if not overdue
        then ok (record { kind = noop; node = a; target = null; detail = idle_within_w }, t)
        else ladder j site a b v.last_progress_at t

  recovered_kind :
      (a : String) (b : Binding) (v : Liveness) (t : Tree j) (x : WatchdogAction) (t' : Tree j)
      → recovered j a b v t ≡ ok (x, t')
      → noop ≡ x.kind
  recovered_kind a b v t x t' h =
      let (t1, _, h1) =
        >>=-eq-ok
          (if (str_eq v.state "working" || str_eq v.state "waiting")
              && truthy (or_null (Dict.get "stale_check_count" b))
            then checkpoint j a b v.state v.last_progress_at t
            else ok t)
          (λ (t1 : Tree j).
            ok (record { kind = noop; node = a; target = null; detail = not_idle v.state }, t1))
          h in
      ap (λ (y : WatchdogAction × Tree j). y.0.kind) (ok-inj _ _ h1)

  late_Abandoned :
      (site : Site) (a : String) (b : Binding) (now : String) (v : Liveness) (t0 t : Tree j)
      (x : WatchdogAction) (t' : Tree j) (late : Bool)
      → subtree_paused a t0.world.bindings ≡ false
      → liveness site a t0 ≡ ok (v, t)
      → str_eq v.state "idle" ≡ true
      → age_beyond_w site v.last_progress_at (w_window b) now ≡ ok late
      → (if not late
          then ok (record { kind = noop; node = a; target = null; detail = idle_within_w }, t)
          else ladder j site a b v.last_progress_at t)
        ≡ ok (x, t')
      → x.kind ≡ failed
      → Abandoned site a b now x t0 t'
  late_Abandoned site a b now v t0 t x t' false run look q e h k =
      let clash : noop ≡ x.kind = ap (λ (y : WatchdogAction × Tree j). y.0.kind) (ok-inj _ _ h) in
      absurd (cc (clash, k))
  late_Abandoned site a b now v t0 t x t' true run look q e h k =
      let (count, grace, ec, eg, le, by) = ladder-FailedBy site a b v.last_progress_at t x t' h k in
      record {
        running = run;
        verdict = v;
        seen = t;
        verdict_is = look;
        idle = q;
        overdue = e;
        count = count;
        count_is = ec;
        grace = grace;
        grace_is = eg;
        spent = le;
        state = by.state;
        generation = by.generation;
        result = by.result;
        transitioned = by.transitioned;
        committed = by.committed;
        told = by.told;
      }

  judge-Abandoned :
      (site : Site) (a : String) (b : Binding) (now : String) (v : Liveness) (t0 t : Tree j)
      (x : WatchdogAction) (t' : Tree j)
      → subtree_paused a t0.world.bindings ≡ false
      → liveness site a t0 ≡ ok (v, t)
      → judge j site a b now v t ≡ ok (x, t')
      → x.kind ≡ failed
      → Abandoned site a b now x t0 t'
  unfolding judge
  judge-Abandoned site a b now v t0 t x t' run look h k =
      elim (Bool-cases (str_eq v.state "idle")) [
        | inr q ↦
            let clash : noop ≡ x.kind =
              recovered_kind a b v t x t'
                (subst (λ i. judged site a b now v t i ≡ ok (x, t')) q h) in
            absurd (cc (clash, k))
        | inl q ↦
            let (late, e1, h1) =
              >>=-eq-ok (age_beyond_w site v.last_progress_at (w_window b) now)
                (λ late.
                  if not late
                  then ok
                      (record { kind = noop; node = a; target = null; detail = idle_within_w }, t)
                  else ladder j site a b v.last_progress_at t)
                (subst (λ i. judged site a b now v t i ≡ ok (x, t')) q h) in
            late_Abandoned site a b now v t0 t x t' late run look q e1 h1 k
      ]

  unsigned-Abandoned :
      (site : Site) (a : String) (b : Binding) (now : String) (t : Tree j) (x : WatchdogAction)
      (t' : Tree j)
      → unsigned j site a b now t ≡ ok (x, t')
      → x.kind ≡ failed
      → Abandoned site a b now x t t'
  unsigned-Abandoned site a b now t x t' h k =
      elim (Bool-cases (subtree_paused a t.world.bindings)) [
        | inl q ↦
            let clash : noop ≡ x.kind =
              ap (λ (y : WatchdogAction × Tree j). y.0.kind) (ok-inj _ _ (rw q at h)) in
            absurd (cc (clash, k))
        | inr q ↦
            let ((v, t1), e1, h1) =
              >>=-eq-ok (liveness site a t)
                (λ (y : Liveness × Tree j). judge j site a b now y.0 y.1) (rw q at h) in
            judge-Abandoned site a b now v t t1 x t' q e1 h1 k
      ]

  -- A tick fails a leaf only if its signal file holds nothing to act on, no node above it is paused,
  -- the detector says idle, the window has passed, the stale checks have reached the grace, and the
  -- transition to failed is committed; and then it is the parent that is told.
  pub check_leaf-Abandoned :
      (site : Site) (a : String) (b : Binding) (now : String) (t : Tree j) (x : WatchdogAction)
      (t' : Tree j)
      → check_leaf j site a b now t ≡ ok (x, t')
      → x.kind ≡ failed
      → (t1 : Tree j) × (check_terminal_signal j site a b t ≡ ok (none, t1))
        × Abandoned site a b now x t1 t'
  unfolding check_leaf
  check_leaf-Abandoned site a b now t x t' h k =
      let ((signed, t1), e1, h1) =
        >>=-eq-ok (check_terminal_signal j site a b t) (signed_or j site a b now) h in
      by_signed signed t1 e1 h1
    where
      by_signed :
          (signed : Option WatchdogAction) (t1 : Tree j)
          → check_terminal_signal j site a b t ≡ ok (signed, t1)
          → signed_or j site a b now (signed, t1) ≡ ok (x, t')
          → (t1 : Tree j) × (check_terminal_signal j site a b t ≡ ok (none, t1))
            × Abandoned site a b now x t1 t'
      by_signed none t1 e h1 = (t1, e, unsigned-Abandoned site a b now t1 x t' h1 k)
      by_signed (some y) t1 e h1 =
          let spared = check_terminal_signal-Spares j site a b t (some y, t1) e in
          let same_action : y ≡ x = ap (λ (p : WatchdogAction × Tree j). p.0) (ok-inj _ _ h1) in
          let clash : is_failed failed ≡ false =
            sym (ap is_failed (ap (λ (z : WatchdogAction). z.kind) same_action ∙ k)) ∙ spared in
          absurd (cc clash)
