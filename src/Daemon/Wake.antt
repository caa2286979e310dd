-- ===== src/Daemon/Wake.antt =====
-- When `_wake_on_unacked_inbox` of harnessd/daemon.py types into a pane.
use long_horizon_agentic_har.Prelude.{
  ℕ, String, str_eq, Bool, true, false, Option, none, some, ◌≡◌, refl, sym, ◌∙◌, ap, subst, ◌⊎◌,
  inl, inr, Bool-cases, if◌then◌else◌,
}
use long_horizon_agentic_har.Result.{Result, ok, err, ok-inj, ◌>>=◌, >>=-eq-ok}
use long_horizon_agentic_har.Value.{Value, null, bool, num, str, json, same}
use long_horizon_agentic_har.Dict
use long_horizon_agentic_har.Dict.{get-set_ne}
use long_horizon_agentic_har.Validate.{or_null}
use long_horizon_agentic_har.Ledger.Journal.{Journal}
use long_horizon_agentic_har.Executor.{Binding, TransitionResult}
use long_horizon_agentic_har.Executor.OwnSlice.{ack_inbox}
use long_horizon_agentic_har.Runtime.{Site, Tree, on_world}
use long_horizon_agentic_har.Chokepoint.{subtree_paused}
use long_horizon_agentic_har.Watchdog.Gates.{
  prod_precondition, prompt_at, confirm_prod_worked, num_or,
}
use long_horizon_agentic_har.Watchdog.{inbox_has_unacked}
use long_horizon_agentic_har.Daemon.{
  agrees, send_fence_open, number, acked, nudge, if_unacked, verified, owed, resolve,
  wake_on_unacked_inbox,
}
use long_horizon_agentic_har.Daemon.Fence.{Fenced, send_fence_open-Fenced, on_world-commands}
use long_horizon_agentic_har.Daemon.Nudge.{Nudged, nudge-Quiet}

module _ (j : Journal) where
  -- The ack of an earlier nudge that a tick finds verified: the transcript has grown past the size at
  -- that nudge, the live binding passed the fence, and the offset is the one that was pending.
  pub record Acked (site : Site) (a : String) (snapshot : Binding) (t t1 : Tree j) : Type 0 where
    pub offset : ℕ
    pub pending : or_null (Dict.get "wake_pending_ack_offset" snapshot) ≡ num offset
    pub baseline : ℕ
    pub sent_at : num_or 0 (or_null (Dict.get "wake_sent_transcript_size" snapshot)) ≡ ok baseline
    pub grown : confirm_prod_worked site snapshot baseline ≡ true
    pub live : Binding
    pub fenced : Fenced a snapshot live t
    pub result : TransitionResult
    pub wrote : on_world (ack_inbox j a offset null) t ≡ ok (result, t1)
    pub owed : inbox_has_unacked j site a (acked offset snapshot) t1 ≡ ok true

  -- What a wake types is one nudge, at the tree of the tick or at the one that its ack leaves.
  abbrev pub Woken : Site → String → Binding → Tree j → Tree j → Type 0
  Woken site a snapshot t t' =
      Nudged j site a snapshot t t'
      ⊎ ((t1 : Tree j) × Acked site a snapshot t t1
          × (t1.commands ≡ t.commands)
          × Nudged j site a snapshot t1 t')

  acked-Nudged :
      (site : Site) (a : String) (b : Binding) (offset : ℕ) (t1 t' : Tree j)
      → Nudged j site a (acked offset b) t1 t'
      → Nudged j site a b t1 t'
  unfolding prod_precondition
  acked-Nudged site a b offset t1 t' n = record {
    gate =
        subst (λ v. prompt_at site (or_null v) ≡ true) (reads "tmux_target" refl refl refl) n.gate;
    live = n.live;
    fenced = record {
      found = n.fenced.found;
      in_use = n.fenced.in_use;
      same_token = agreed "owner_token" n.live refl refl refl n.fenced.same_token;
      same_epoch = agreed "lease_epoch" n.live refl refl refl n.fenced.same_epoch;
      same_session = agreed "session_uuid" n.live refl refl refl n.fenced.same_session;
    };
    target = n.target;
    pane = n.pane;
    typed = n.typed;
  }
    where
      reads :
          (k : String)
          → str_eq "wake_sent_transcript_size" k ≡ false
          → str_eq "wake_pending_ack_offset" k ≡ false
          → str_eq "last_inbox_acked_offset" k ≡ false
          → Dict.get k (acked offset b) ≡ Dict.get k b
      reads k p q r =
          get-set_ne "wake_sent_transcript_size" k null _ p
          ∙ (get-set_ne "wake_pending_ack_offset" k null _ q
              ∙ get-set_ne "last_inbox_acked_offset" k (num offset) b r)

      agreed :
          (k : String) (live : Binding)
          → str_eq "wake_sent_transcript_size" k ≡ false
          → str_eq "wake_pending_ack_offset" k ≡ false
          → str_eq "last_inbox_acked_offset" k ≡ false
          → agrees k live (acked offset b) ≡ true
          → agrees k live b ≡ true
      agreed k live p q r h =
          subst (λ v. same (or_null (Dict.get k live)) (or_null v) ≡ true) (reads k p q r) h

  unchanged : (t t' : Tree j) → ok t ≡ ok t' → t'.commands ≡ t.commands
  unchanged t t' h = sym (ap (λ (x : Tree j). x.commands) (ok-inj t t' h))

  -- A wake that types does so behind its tests.
  abbrev Wakes : Site → String → Binding → Tree j → Tree j → Type 0
  Wakes site a b t t' = (t'.commands ≡ t.commands) ⊎ Woken site a b t t'

  after_ack-Wakes :
      (site : Site) (a : String) (b : Binding) (offset : ℕ) (t t1 t' : Tree j) (test : Result Bool)
      → inbox_has_unacked j site a (acked offset b) t1 ≡ test
      → (inbox_has_unacked j site a (acked offset b) t1 ≡ ok true → Acked site a b t t1)
      → t1.commands ≡ t.commands
      → if_unacked j test t1 (nudge j site a (acked offset b) t1) ≡ ok t'
      → Wakes site a b t t'
  after_ack-Wakes site a b offset t t1 t' (err e) q ack same_commands k =
      inl (unchanged t1 t' k ∙ same_commands)
  after_ack-Wakes site a b offset t t1 t' (ok false) q ack same_commands k =
      inl (unchanged t1 t' k ∙ same_commands)
  after_ack-Wakes site a b offset t t1 t' (ok true) q ack same_commands k =
      elim (nudge-Quiet j site a (acked offset b) t1 t' k) [
        | inl c ↦ inl (c ∙ same_commands)
        | inr n ↦ inr (inr (t1, ack q, same_commands, acked-Nudged site a b offset t1 t' n))
      ]

  pub pending_num : (v : Value) (offset : ℕ) → number v ≡ ok offset → v ≡ num offset
  pending_num (num n) offset h = ap num (ok-inj n offset h)
  pending_num null offset h = absurd (cc h)
  pending_num (bool b) offset h = absurd (cc h)
  pending_num (str s) offset h = absurd (cc h)
  pending_num (json s) offset h = absurd (cc h)

  verified-Wakes :
      (site : Site) (a : String) (b : Binding) (pending : Value) (baseline : ℕ) (o : Option Binding)
      (t t' : Tree j)
      → or_null (Dict.get "wake_pending_ack_offset" b) ≡ pending
      → num_or 0 (or_null (Dict.get "wake_sent_transcript_size" b)) ≡ ok baseline
      → confirm_prod_worked site b baseline ≡ true
      → send_fence_open a b t.world.bindings ≡ o
      → verified j site a b pending o t ≡ ok t'
      → Wakes site a b t t'
  verified-Wakes site a b pending baseline none t t' same_pending sent grown passes h =
      inl (unchanged t t' h)
  verified-Wakes site a b pending baseline (some live) t t' same_pending sent grown passes h =
      let (offset, eo, h1) =
        >>=-eq-ok (number pending)
          (λ offset. do
            (result, t1) ← on_world (ack_inbox j a offset null) t
            if_unacked j (inbox_has_unacked j site a (acked offset b) t1) t1
                (nudge j site a (acked offset b) t1))
          h in
      let ((res, t1), e, h2) =
        >>=-eq-ok (on_world (ack_inbox j a offset null) t)
          (λ (p : TransitionResult × Tree j).
            if_unacked j (inbox_has_unacked j site a (acked offset b) p.1) p.1
              (nudge j site a (acked offset b) p.1))
          h1 in
      after_ack-Wakes site a b offset t t1 t' (inbox_has_unacked j site a (acked offset b) t1) refl
        (λ more. record {
          offset = offset;
          pending = same_pending ∙ pending_num pending offset eo;
          baseline = baseline;
          sent_at = sent;
          grown = grown;
          live = live;
          fenced = send_fence_open-Fenced a b live t passes;
          result = res;
          wrote = e;
          owed = more;
        })
        (on_world-commands (ack_inbox j a offset null) t res t1 e) h2

  nudged_now :
      (site : Site) (a : String) (b : Binding) (t t' : Tree j)
      → nudge j site a b t ≡ ok t'
      → Wakes site a b t t'
  nudged_now site a b t t' h = elim (nudge-Quiet j site a b t t' h) [
    | inl c ↦ inl c
    | inr n ↦ inr (inl n)
  ]

  owed-Wakes :
      (site : Site) (a : String) (b : Binding) (pending : Value) (t t' : Tree j)
      → or_null (Dict.get "wake_pending_ack_offset" b) ≡ pending
      → owed j site a b pending t ≡ ok t'
      → Wakes site a b t t'
  owed-Wakes site a b pending t t' same_pending h =
      let (baseline, eb, h1) =
        >>=-eq-ok (num_or 0 (or_null (Dict.get "wake_sent_transcript_size" b)))
          (λ baseline.
            if confirm_prod_worked site b baseline
            then verified j site a b pending (send_fence_open a b t.world.bindings) t
            else nudge j site a b t)
          h in
      elim (Bool-cases (confirm_prod_worked site b baseline)) [
        | inl q ↦
            verified-Wakes site a b pending baseline (send_fence_open a b t.world.bindings) t t'
              same_pending eb q refl (rw q at h1)
        | inr q ↦ nudged_now site a b t t' (rw q at h1)
      ]

  resolve-Wakes :
      (site : Site) (a : String) (b : Binding) (pending : Value) (t t' : Tree j)
      → or_null (Dict.get "wake_pending_ack_offset" b) ≡ pending
      → resolve j site a b pending t ≡ ok t'
      → Wakes site a b t t'
  resolve-Wakes site a b null t t' p h = nudged_now site a b t t' h
  resolve-Wakes site a b (bool x) t t' p h = owed-Wakes site a b (bool x) t t' p h
  resolve-Wakes site a b (num x) t t' p h = owed-Wakes site a b (num x) t t' p h
  resolve-Wakes site a b (str x) t t' p h = owed-Wakes site a b (str x) t t' p h
  resolve-Wakes site a b (json x) t t' p h = owed-Wakes site a b (json x) t t' p h

  -- A wake types nothing, or one pointer. It types only if neither the node nor one above it was
  -- paused, the inbox had lines past the watermark, the snapshot's pane showed its prompt, and the
  -- binding in the tree of the tick was not terminal and had the token, the lease epoch and the session
  -- of the snapshot; the pointer goes to the pane of that binding. Where the wake first acked an earlier
  -- nudge, the binding in the tree that the ack left passed the same tests and has the pane, the
  -- transcript had grown since that nudge, what was acked is the pending offset, and lines past it
  -- were left.
  pub wake_on_unacked_inbox-Woken :
      (site : Site) (a : String) (b : Binding) (t t' : Tree j)
      → wake_on_unacked_inbox j site a b t ≡ ok t'
      → (t'.commands ≡ t.commands)
        ⊎ ((inbox_has_unacked j site a b t ≡ ok true)
            × (subtree_paused a t.world.bindings ≡ false)
            × Woken site a b t t')
  unfolding wake_on_unacked_inbox
  wake_on_unacked_inbox-Woken site a b t t' h = by_test (inbox_has_unacked j site a b t) refl h
    where
      by_test :
          (test : Result Bool)
          → inbox_has_unacked j site a b t ≡ test
          → if_unacked j test t (
              if subtree_paused a t.world.bindings
              then ok t
              else resolve j site a b (or_null (Dict.get "wake_pending_ack_offset" b)) t)
            ≡ ok t'
          → (t'.commands ≡ t.commands)
            ⊎ ((inbox_has_unacked j site a b t ≡ ok true)
                × (subtree_paused a t.world.bindings ≡ false)
                × Woken site a b t t')
      by_test (err e) q k = inl (sym (ap (λ (x : Tree j). x.commands) (ok-inj t t' k)))
      by_test (ok false) q k = inl (sym (ap (λ (x : Tree j). x.commands) (ok-inj t t' k)))
      by_test (ok true) q k = elim (Bool-cases (subtree_paused a t.world.bindings)) [
        | inl p ↦ inl (sym (ap (λ (x : Tree j). x.commands) (ok-inj t t' (rw p at k))))
        | inr p ↦
            elim (resolve-Wakes site a b (or_null (Dict.get "wake_pending_ack_offset" b)) t t' refl
              (rw p at k)) [ inl c ↦ inl c | inr n ↦ inr (q, p, n) ]
      ]
