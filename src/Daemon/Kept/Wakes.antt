-- ===== src/Daemon/Kept/Wakes.antt =====
-- The fields of the bindings that the wake of harnessd/daemon.py leaves, an ack included.
use long_horizon_agentic_har.Prelude.{
  ℕ, String, str_eq, false, Option, none, some, ◌≡◌, refl, Bool-cases, inl, inr, if◌then◌else◌,
}
use long_horizon_agentic_har.Result.{ok, ok-inj, ◌>>=◌, >>=-eq-ok}
use long_horizon_agentic_har.Value.{Value, null, bool, num, str, json}
use long_horizon_agentic_har.Dict
use long_horizon_agentic_har.Dict.{Dict}
use long_horizon_agentic_har.Validate.{or_null}
use long_horizon_agentic_har.Ledger.Journal.{Journal}
use long_horizon_agentic_har.Executor.{Binding, TransitionResult}
use long_horizon_agentic_har.Executor.OwnSlice.{ack_inbox}
use long_horizon_agentic_har.Runtime.{Site, Tree, on_world}
use long_horizon_agentic_har.Chokepoint.{subtree_paused}
use long_horizon_agentic_har.Watchdog.Gates.{confirm_prod_worked, num_or}
use long_horizon_agentic_har.Watchdog.{inbox_has_unacked}
use long_horizon_agentic_har.Daemon.{
  send_fence_open, number, acked, nudge, if_unacked, verified, owed, resolve, wake_on_unacked_inbox,
}
use long_horizon_agentic_har.Daemon.Same.{Same-trans, own_slice_write-Same}
use long_horizon_agentic_har.Daemon.Kept.{
  Kept, Kept-eq, Untouched, nudge-Kept, if_unacked-Kept, on_world-Kept,
}

module _ (j : Journal) (key : String) (untouched : Untouched key)
    (unacked : str_eq "last_inbox_acked_offset" key ≡ false) where
  ack_inbox-Kept :
      (a : String) (offset : ℕ) (t : Tree j) (res : TransitionResult) (t' : Tree j)
      → on_world (ack_inbox j a offset null) t ≡ ok (res, t')
      → Kept key t t'
  unfolding ack_inbox Dict.get
  ack_inbox-Kept a offset t res t' h =
      on_world-Kept j key untouched (ack_inbox j a offset null) t res t'
        (λ w e.
          own_slice_write-Same j key a null _ _ _ t.world w res untouched.mark
            (rw (unacked, untouched.pending, untouched.sent) refl) e)
        h

  verified-Kept :
      (site : Site) (a : String) (b : Binding) (pending : Value) (o : Option Binding)
      (t t' : Tree j)
      → verified j site a b pending o t ≡ ok t'
      → Kept key t t'
  verified-Kept site a b pending none t t' h = Kept-eq key t t' (ok-inj t t' h)
  verified-Kept site a b pending (some live) t t' h =
      let (offset, _, h1) =
        >>=-eq-ok (number pending)
          (λ offset. do
            (result, t1) ← on_world (ack_inbox j a offset null) t
            if_unacked j (inbox_has_unacked j site a (acked offset b) t1) t1
                (nudge j site a (acked offset b) t1))
          h in
      let ((res, t1), e, h2) =
        >>=-eq-ok (on_world (ack_inbox j a offset null) t)
          (λ (p : TransitionResult × Tree j).
            if_unacked j (inbox_has_unacked j site a (acked offset b) p.1) p.1
              (nudge j site a (acked offset b) p.1))
          h1 in
      Same-trans key t.world.bindings t1.world.bindings t'.world.bindings
        (ack_inbox-Kept a offset t res t1 e)
        (if_unacked-Kept j key untouched (inbox_has_unacked j site a (acked offset b) t1) t1 t'
          (nudge j site a (acked offset b) t1) h2
          (λ k. nudge-Kept j key untouched site a (acked offset b) t1 t' k))

  owed-Kept :
      (site : Site) (a : String) (b : Binding) (pending : Value) (t t' : Tree j)
      → owed j site a b pending t ≡ ok t'
      → Kept key t t'
  owed-Kept site a b pending t t' h =
      let (baseline, _, h1) =
        >>=-eq-ok (num_or 0 (or_null (Dict.get "wake_sent_transcript_size" b)))
          (λ baseline.
            if confirm_prod_worked site b baseline
            then verified j site a b pending (send_fence_open a b t.world.bindings) t
            else nudge j site a b t)
          h in
      elim (Bool-cases (confirm_prod_worked site b baseline)) [
        | inl q ↦
            verified-Kept site a b pending (send_fence_open a b t.world.bindings) t t' (rw q at h1)
        | inr q ↦ nudge-Kept j key untouched site a b t t' (rw q at h1)
      ]

  resolve-Kept :
      (site : Site) (a : String) (b : Binding) (pending : Value) (t t' : Tree j)
      → resolve j site a b pending t ≡ ok t'
      → Kept key t t'
  resolve-Kept site a b null t t' h = nudge-Kept j key untouched site a b t t' h
  resolve-Kept site a b (bool x) t t' h = owed-Kept site a b (bool x) t t' h
  resolve-Kept site a b (num x) t t' h = owed-Kept site a b (num x) t t' h
  resolve-Kept site a b (str x) t t' h = owed-Kept site a b (str x) t t' h
  resolve-Kept site a b (json x) t t' h = owed-Kept site a b (json x) t t' h

  pub wake_on_unacked_inbox-Kept :
      (site : Site) (a : String) (b : Binding) (t t' : Tree j)
      → wake_on_unacked_inbox j site a b t ≡ ok t'
      → Kept key t t'
  unfolding wake_on_unacked_inbox
  wake_on_unacked_inbox-Kept site a b t t' h =
      if_unacked-Kept j key untouched (inbox_has_unacked j site a b t) t t' _ h (λ k.
        elim (Bool-cases (subtree_paused a t.world.bindings)) [
          | inl p ↦ Kept-eq key t t' (ok-inj t t' (rw p at k))
          | inr p ↦
              resolve-Kept site a b (or_null (Dict.get "wake_pending_ack_offset" b)) t t'
                (rw p at k)
        ])
