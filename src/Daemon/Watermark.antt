-- ===== src/Daemon/Watermark.antt =====
-- When the wake of harnessd/daemon.py moves the watermark of an inbox.
use long_horizon_agentic_har.Prelude.{
  ◌⊎◌, ◌∙◌, ℕ, String, str_eq, Bool, true, false, Option, none, some, ◌≡◌, refl, sym, ap, subst,
  Bool-cases, inl, inr, if◌then◌else◌,
}
use long_horizon_agentic_har.Result.{Result, ok, err, ok-inj, ◌>>=◌, >>=-eq-ok}
use long_horizon_agentic_har.Value.{Value, null, bool, num, str, json}
use long_horizon_agentic_har.Dict
use long_horizon_agentic_har.Dict.{Dict}
use long_horizon_agentic_har.Validate.{or_null}
use long_horizon_agentic_har.Ledger.Journal.{Journal}
use long_horizon_agentic_har.Executor.{Binding, TransitionResult}
use long_horizon_agentic_har.Executor.OwnSlice.{ack_inbox}
use long_horizon_agentic_har.Runtime.{Site, Tree, on_world}
use long_horizon_agentic_har.Chokepoint.{subtree_paused}
use long_horizon_agentic_har.Chokepoint.Collapse.Outcome.{on_world-ok}
use long_horizon_agentic_har.Watchdog.Gates.{confirm_prod_worked, num_or}
use long_horizon_agentic_har.Watchdog.{inbox_has_unacked}
use long_horizon_agentic_har.Daemon.{
  send_fence_open, number, acked, nudge, if_unacked, verified, owed, resolve, wake_on_unacked_inbox,
}
use long_horizon_agentic_har.Daemon.Same.{Same, value_at, own_slice_write-value}
use long_horizon_agentic_har.Daemon.Fence.{Fenced, send_fence_open-Fenced}
use long_horizon_agentic_har.Daemon.Wake.{pending_num}
use long_horizon_agentic_har.Daemon.Kept.{Kept, Kept-eq, Untouched, nudge-Kept, if_unacked-Kept}

-- The offset up to which the lines of the inbox are acked.
abbrev watermark : String
watermark = "last_inbox_acked_offset"

watermark-Untouched : Untouched watermark
watermark-Untouched = record { mark = refl; pending = refl; sent = refl }

-- A node's watermark has become the pending offset of the snapshot, and no other node's has changed.
-- The live binding passed the fence, and the transcript has grown past its size at the nudge.
pub record Advanced (site : Site) (a : String) (snapshot : Binding) {j : Journal} (t t' : Tree j)
    : Type 0 where
  pub offset : ℕ
  pub pending : or_null (Dict.get "wake_pending_ack_offset" snapshot) ≡ num offset
  pub baseline : ℕ
  pub sent_at : num_or 0 (or_null (Dict.get "wake_sent_transcript_size" snapshot)) ≡ ok baseline
  pub grown : confirm_prod_worked site snapshot baseline ≡ true
  pub live : Binding
  pub fenced : Fenced a snapshot live t
  pub here : value_at "last_inbox_acked_offset" a t'.world.bindings ≡ num offset
  pub others :
      (p : String)
      → str_eq a p ≡ false
      → value_at "last_inbox_acked_offset" p t'.world.bindings
        ≡ value_at "last_inbox_acked_offset" p t.world.bindings

module _ (j : Journal) where
  abbrev Acks : Site → String → Binding → Tree j → Tree j → Type 0
  Acks site a b t t' =
      Same "last_inbox_acked_offset" t.world.bindings t'.world.bindings ⊎ Advanced site a b t t'

  nudged-Kept :
      (site : Site) (a : String) (b : Binding) (t t' : Tree j)
      → nudge j site a b t ≡ ok t'
      → Kept watermark t t'
  nudged-Kept site a b t t' h = nudge-Kept j watermark watermark-Untouched site a b t t' h

  ack_inbox-value :
      (a : String) (offset : ℕ) (t : Tree j) (res : TransitionResult) (t1 : Tree j)
      → on_world (ack_inbox j a offset null) t ≡ ok (res, t1)
      → (t1.world.bindings ≡ t.world.bindings)
        ⊎ ((value_at watermark a t1.world.bindings ≡ num offset)
            × ((p : String)
                → str_eq a p ≡ false
                → value_at watermark p t1.world.bindings ≡ value_at watermark p t.world.bindings))
  unfolding ack_inbox Dict.get
  ack_inbox-value a offset t res t1 h =
      let (w, e, q) = on_world-ok (ack_inbox j a offset null) t res t1 h in
      subst
        (λ (x : Tree j).
          (x.world.bindings ≡ t.world.bindings)
          ⊎ ((value_at watermark a x.world.bindings ≡ num offset)
              × ((p : String)
                  → str_eq a p ≡ false
                  → value_at watermark p x.world.bindings ≡ value_at watermark p t.world.bindings)))
        (sym q)
        (own_slice_write-value j watermark a null (num offset) _ _ _ t.world w res refl refl e)

  verified-Acks :
      (site : Site) (a : String) (b : Binding) (pending : Value) (baseline : ℕ) (o : Option Binding)
      (t t' : Tree j)
      → or_null (Dict.get "wake_pending_ack_offset" b) ≡ pending
      → num_or 0 (or_null (Dict.get "wake_sent_transcript_size" b)) ≡ ok baseline
      → confirm_prod_worked site b baseline ≡ true
      → send_fence_open a b t.world.bindings ≡ o
      → verified j site a b pending o t ≡ ok t'
      → Acks site a b t t'
  verified-Acks site a b pending baseline none t t' same_pending sent grown passes h =
      inl (Kept-eq watermark t t' (ok-inj t t' h))
  verified-Acks site a b pending baseline (some live) t t' same_pending sent grown passes h =
      let (offset, eo, h1) =
        >>=-eq-ok (number pending)
          (λ offset. do
            (result, t1) ← on_world (ack_inbox j a offset null) t
            if_unacked j (inbox_has_unacked j site a (acked offset b) t1) t1
                (nudge j site a (acked offset b) t1))
          h in
      let ((res, t1), e, h2) =
        >>=-eq-ok (on_world (ack_inbox j a offset null) t)
          (λ (p : TransitionResult × Tree j).
            if_unacked j (inbox_has_unacked j site a (acked offset b) p.1) p.1
              (nudge j site a (acked offset b) p.1))
          h1 in
      let later : Kept watermark t1 t' =
        if_unacked-Kept j watermark watermark-Untouched
          (inbox_has_unacked j site a (acked offset b) t1) t1 t'
          (nudge j site a (acked offset b) t1) h2
          (λ k. nudged-Kept site a (acked offset b) t1 t' k) in
      elim (ack_inbox-value a offset t res t1 e) [
        | inl q ↦ inl (λ p. later p ∙ ap (value_at watermark p) q)
        | inr (here, others) ↦ inr (record {
          offset = offset;
          pending = same_pending ∙ pending_num j pending offset eo;
          baseline = baseline;
          sent_at = sent;
          grown = grown;
          live = live;
          fenced = send_fence_open-Fenced a b live t passes;
          here = later a ∙ here;
          others = λ p r. later p ∙ others p r;
        })
      ]

  owed-Acks :
      (site : Site) (a : String) (b : Binding) (pending : Value) (t t' : Tree j)
      → or_null (Dict.get "wake_pending_ack_offset" b) ≡ pending
      → owed j site a b pending t ≡ ok t'
      → Acks site a b t t'
  owed-Acks site a b pending t t' same_pending h =
      let (baseline, eb, h1) =
        >>=-eq-ok (num_or 0 (or_null (Dict.get "wake_sent_transcript_size" b)))
          (λ baseline.
            if confirm_prod_worked site b baseline
            then verified j site a b pending (send_fence_open a b t.world.bindings) t
            else nudge j site a b t)
          h in
      elim (Bool-cases (confirm_prod_worked site b baseline)) [
        | inl q ↦
            verified-Acks site a b pending baseline (send_fence_open a b t.world.bindings) t t'
              same_pending eb q refl (rw q at h1)
        | inr q ↦ inl (nudged-Kept site a b t t' (rw q at h1))
      ]

  resolve-Acks :
      (site : Site) (a : String) (b : Binding) (pending : Value) (t t' : Tree j)
      → or_null (Dict.get "wake_pending_ack_offset" b) ≡ pending
      → resolve j site a b pending t ≡ ok t'
      → Acks site a b t t'
  resolve-Acks site a b null t t' p h = inl (nudged-Kept site a b t t' h)
  resolve-Acks site a b (bool x) t t' p h = owed-Acks site a b (bool x) t t' p h
  resolve-Acks site a b (num x) t t' p h = owed-Acks site a b (num x) t t' p h
  resolve-Acks site a b (str x) t t' p h = owed-Acks site a b (str x) t t' p h
  resolve-Acks site a b (json x) t t' p h = owed-Acks site a b (json x) t t' p h

  if_unacked-Acks :
      (site : Site) (a : String) (b : Binding) (test : Result Bool) (t t' : Tree j)
      (next : Result (Tree j))
      → if_unacked j test t next ≡ ok t'
      → (next ≡ ok t' → Acks site a b t t')
      → Acks site a b t t'
  if_unacked-Acks site a b (err e) t t' next h k = inl (Kept-eq watermark t t' (ok-inj t t' h))
  if_unacked-Acks site a b (ok false) t t' next h k = inl (Kept-eq watermark t t' (ok-inj t t' h))
  if_unacked-Acks site a b (ok true) t t' next h k = k h

  -- A wake leaves every node's watermark as it is, or moves that of its own node alone, to the offset
  -- that was pending in the snapshot. It moves it only if the transcript had grown past its size at
  -- the nudge that is pending and the binding in the tree passed the fence: a nudge that nothing shows
  -- to have been read is not acked.
  pub wake_on_unacked_inbox-Advanced :
      (site : Site) (a : String) (b : Binding) (t t' : Tree j)
      → wake_on_unacked_inbox j site a b t ≡ ok t'
      → Same "last_inbox_acked_offset" t.world.bindings t'.world.bindings ⊎ Advanced site a b t t'
  unfolding wake_on_unacked_inbox
  wake_on_unacked_inbox-Advanced site a b t t' h =
      if_unacked-Acks site a b (inbox_has_unacked j site a b t) t t' _ h (λ k.
        elim (Bool-cases (subtree_paused a t.world.bindings)) [
          | inl p ↦ inl (Kept-eq watermark t t' (ok-inj t t' (rw p at k)))
          | inr p ↦
              resolve-Acks site a b (or_null (Dict.get "wake_pending_ack_offset" b)) t t' refl
                (rw p at k)
        ])
