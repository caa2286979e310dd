-- ===== src/Detector/Verdict.antt =====
-- What each verdict of `liveness` in harnessd/detector.py rests on.
use long_horizon_agentic_har.Prelude.{
  String, Bool, true, false, not, ◌||◌, none, some, ◌≡◌, refl, sym, ◌∙◌, ap, ◌⊎◌, inl, inr,
  Bool-cases, Option-cases, if◌then◌else◌,
}
use long_horizon_agentic_har.Result.{Result, ok, ok-inj, ◌>>=◌, >>=-eq-ok}
use long_horizon_agentic_har.Value.{Value}
use long_horizon_agentic_har.Dict
use long_horizon_agentic_har.Validate.{or_null}
use long_horizon_agentic_har.Ledger.Journal.{Journal}
use long_horizon_agentic_har.Executor.{Binding}
use long_horizon_agentic_har.Runtime.{Site, Tree}
use long_horizon_agentic_har.Detector.{
  Liveness, w_window, within_w, has_legit_waiting_reason, verdict, quiet, liveness_of,
  liveness_found, liveness,
}
use long_horizon_agentic_har.Detector.Signals.{jsonl_progress, pane_alive, pane_activity}

-- The pane is gone.
pub record Dead (site : Site) (binding : Binding) (state : String) : Type 0 where
  pub is_dead : state ≡ "dead"
  pub gone : pane_alive site binding ≡ ok false

module _ {j : Journal} where
  -- The pane is there, and the transcript has grown, or the last progress lies in the window, or the
  -- pane shows a turn in flight.
  pub record Working (site : Site) (a : String) (binding : Binding) (t : Tree j) (state : String)
      : Type 0 where
    pub is_working : state ≡ "working"
    pub alive : pane_alive site binding ≡ ok true
    pub grew : Bool
    pub looked : Tree j
    pub look : jsonl_progress site a binding t ≡ ok (grew, looked)
    pub evidence :
        (grew ≡ true)
        ⊎ (within_w site
              (or_null (Dict.get "last_progress_at" binding))
              looked.world.now
              (w_window binding)
            ≡ ok true)
        ⊎ (pane_activity site binding ≡ true)

  -- The pane is there, and nothing of that holds; a reason to wait tells the two verdicts apart.
  pub record Quiet (site : Site) (a : String) (binding : Binding) (t : Tree j) (state : String)
      : Type 0 where
    pub alive : pane_alive site binding ≡ ok true
    pub looked : Tree j
    pub look : jsonl_progress site a binding t ≡ ok (false, looked)
    pub flat :
        within_w site
          (or_null (Dict.get "last_progress_at" binding))
          looked.world.now
          (w_window binding)
        ≡ ok false
    pub inactive : pane_activity site binding ≡ false
    pub reason :
        state ≡ (if (has_legit_waiting_reason site a binding looked).0 then "waiting" else "idle")

  abbrev pub Grounds : Site → String → Binding → Tree j → String → Type 0
  Grounds site a binding t state =
      Dead site binding state ⊎ (Working site a binding t state ⊎ Quiet site a binding t state)

  state_of :
      (x : Value) (s : String) (t : Tree j) (v : Liveness) (t' : Tree j)
      → verdict x s t ≡ ok (v, t')
      → v.state ≡ s
  state_of x s t v t' h = sym (ap (λ (p : Liveness × Tree j). p.0.state) (ok-inj _ _ h))

  quiet_Grounds :
      (site : Site) (a : String) (binding : Binding) (t t1 : Tree j) (v : Liveness) (t' : Tree j)
      → jsonl_progress site a binding t ≡ ok (false, t1)
      → pane_alive site binding ≡ ok true
      → within_w site
          (or_null (Dict.get "last_progress_at" binding))
          t1.world.now
          (w_window binding)
        ≡ ok false
      → pane_activity site binding ≡ false
      → quiet site a binding (or_null (Dict.get "last_progress_at" binding)) t1 ≡ ok (v, t')
      → Quiet site a binding t v.state
  quiet_Grounds site a binding t t1 v t' look alive flat inactive h = record {
    alive = alive;
    looked = t1;
    look = look;
    flat = flat;
    inactive = inactive;
    reason = state_of _ _ _ v t' h;
  }

  abbrev warm : Site → String → Binding → Value → Bool → Tree j → Result (Liveness × Tree j)
  warm site a binding last_progress_at grew t =
      if grew then verdict last_progress_at "working" t else do
        within ← within_w site last_progress_at t.world.now (w_window binding)
        if within || pane_activity site binding
            then verdict last_progress_at "working" t
            else quiet site a binding last_progress_at t

  warm_Grounds :
      (site : Site) (a : String) (binding : Binding) (t t1 : Tree j) (grew : Bool) (v : Liveness)
      (t' : Tree j)
      → jsonl_progress site a binding t ≡ ok (grew, t1)
      → pane_alive site binding ≡ ok true
      → warm site a binding (or_null (Dict.get "last_progress_at" binding)) grew t1 ≡ ok (v, t')
      → Working site a binding t v.state ⊎ Quiet site a binding t v.state
  warm_Grounds site a binding t t1 true v t' look alive h = inl (record {
    is_working = state_of _ _ t1 v t' h;
    alive = alive;
    grew = true;
    looked = t1;
    look = look;
    evidence = inl refl;
  })
  warm_Grounds site a binding t t1 false v t' look alive h =
      let (within, e, h1) = >>=-eq-ok (within_w site _ t1.world.now (w_window binding)) _ h in
      elim (Bool-cases within) [
        | inl q ↦ inl (record {
          is_working = state_of _ _ t1 v t' (rw q at h1);
          alive = alive;
          grew = false;
          looked = t1;
          look = look;
          evidence = inr (inl (e ∙ ap ok q));
        })
        | inr q ↦ elim (Bool-cases (pane_activity site binding)) [
          | inl m ↦ inl (record {
            is_working = state_of _ _ t1 v t' (rw (q, m) at h1);
            alive = alive;
            grew = false;
            looked = t1;
            look = look;
            evidence = inr (inr m);
          })
          | inr m ↦
              inr (
                quiet_Grounds site a binding t t1 v t' look alive (e ∙ ap ok q) m (rw (q, m) at h1))
        ]
      ]

  pane_Grounds :
      (site : Site) (a : String) (binding : Binding) (t t1 : Tree j) (grew alive : Bool)
      (v : Liveness) (t' : Tree j)
      → jsonl_progress site a binding t ≡ ok (grew, t1)
      → pane_alive site binding ≡ ok alive
      → (if not alive
          then verdict (or_null (Dict.get "last_progress_at" binding)) "dead" t1
          else warm site a binding (or_null (Dict.get "last_progress_at" binding)) grew t1)
        ≡ ok (v, t')
      → Grounds site a binding t v.state
  pane_Grounds site a binding t t1 grew false v t' look e h =
      inl (record { is_dead = state_of _ _ t1 v t' h; gone = e })
  pane_Grounds site a binding t t1 grew true v t' look e h =
      inr (warm_Grounds site a binding t t1 grew v t' look e h)

  pub liveness_of-Grounds :
      (site : Site) (a : String) (binding : Binding) (t : Tree j) (v : Liveness) (t' : Tree j)
      → liveness_of site a binding t ≡ ok (v, t')
      → Grounds site a binding t v.state
  unfolding liveness_of
  liveness_of-Grounds site a binding t v t' h =
      let ((grew, t1), e1, h1) = >>=-eq-ok (jsonl_progress site a binding t) _ h in
      let (alive, e2, h2) =
        >>=-eq-ok (pane_alive site binding)
          (λ alive.
            if not alive
            then verdict (or_null (Dict.get "last_progress_at" binding)) "dead" t1
            else warm site a binding (or_null (Dict.get "last_progress_at" binding)) grew t1)
          h1 in
      pane_Grounds site a binding t t1 grew alive v t' e1 e2 h2

  -- Each verdict rests on what it says of the node: a dead one on a pane that is gone; a working one
  -- on a pane that is there and a transcript that has grown, a last progress inside the window or a
  -- turn in flight; a waiting or an idle one on a pane that is there and none of these, the two told
  -- apart by an unanswered escalation. There is no other verdict, and none on a node without a binding.
  pub liveness-Grounds :
      (site : Site) (a : String) (t : Tree j) (v : Liveness) (t' : Tree j)
      → liveness site a t ≡ ok (v, t')
      → (binding : Binding) × (Dict.get a t.world.bindings ≡ some binding)
        × Grounds site a binding t v.state
  unfolding liveness
  liveness-Grounds site a t v t' h = elim (Option-cases (Dict.get a t.world.bindings)) [
    | inl e ↦ let gone : liveness_found site a none t ≡ ok (v, t') = rw e at h in cc
    | inr (b, e) ↦ (b, e, liveness_of-Grounds site a b t v t' (rw e at h))
  ]
