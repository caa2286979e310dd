-- ===== src/Daemon/Kept.antt =====
-- The fields of the bindings that a nudge of harnessd/daemon.py leaves.
pub mod Wakes
use long_horizon_agentic_har.Prelude.{
  ℕ, String, str_eq, Bool, true, false, Option, none, some, List, ◌≡◌, refl, sym, ap, subst,
  Bool-cases, inl, inr, if◌then◌else◌,
}
use long_horizon_agentic_har.Result.{Result, ok, err, ok-inj, ◌>>=◌, >>=-eq-ok, Result-cases}
use long_horizon_agentic_har.Value.{Value, null, bool, num, str, json}
use long_horizon_agentic_har.Dict
use long_horizon_agentic_har.Dict.{Dict}
use long_horizon_agentic_har.Validate.{or_null}
use long_horizon_agentic_har.Ledger.Journal.{Journal}
use long_horizon_agentic_har.Executor.{Binding, World, TransitionResult, next_seq}
use long_horizon_agentic_har.Executor.Transition.Outcome.{append_row-bindings}
use long_horizon_agentic_har.Executor.OwnSlice.{ack_inbox, record_wake_pending, journal}
use long_horizon_agentic_har.Runtime.{
  Message, Sent, delivered, exited, raised, Site, Tree, lines_size, on_world, attempt,
}
use long_horizon_agentic_har.Addressing.Paths.{inbox_path}
use long_horizon_agentic_har.Chokepoint.{subtree_paused}
use long_horizon_agentic_har.Chokepoint.Kickoff.{transcript_size}
use long_horizon_agentic_har.Chokepoint.Collapse.Outcome.{on_world-ok}
use long_horizon_agentic_har.Watchdog.Gates.{
  prod_precondition, confirm_prod_worked, wake_keystroke, num_or,
}
use long_horizon_agentic_har.Watchdog.{inbox_has_unacked}
use long_horizon_agentic_har.Daemon.{
  send_fence_open, number, acked, journal_send_failed, after_keys, deliver_to, deliver_keystroke,
  after_delivery, nudge_live, nudge_inbox, nudge, if_unacked, verified, owed, resolve,
  wake_on_unacked_inbox,
}
use long_horizon_agentic_har.Daemon.Same.{Same, Same-eq, Same-trans, own_slice_write-Same}

-- What each node holds under the key is the same in both trees.
abbrev pub Kept : {j : Journal} → String → Tree j → Tree j → Type 0
Kept key t t' = Same key t.world.bindings t'.world.bindings

module _ {j : Journal} (key : String) where
  pub Kept-eq : (t t' : Tree j) → t ≡ t' → Kept key t t'
  Kept-eq t t' e =
      Same-eq key t.world.bindings t'.world.bindings (ap (λ (x : Tree j). x.world.bindings) (sym e))

  pub attempt-Kept :
      (step : World j → Result (World j)) (t : Tree j)
      → ((w : World j) → step t.world ≡ ok w → w.bindings ≡ t.world.bindings)
      → Kept key t (attempt step t)
  attempt-Kept step t keeps = elim (Result-cases (step t.world)) [
    | inl (w, e) ↦ Same-eq key t.world.bindings (attempt step t).world.bindings (rw e (keeps w e))
    | inr (x, e) ↦ Same-eq key t.world.bindings (attempt step t).world.bindings (rw e refl)
  ]

module _ (j : Journal) where
  pub journal-bindings :
      (a event : String) (from to epoch token : Value) (delta : Dict Value) (summary : String)
      (artifacts : Value) (w w' : World j)
      → journal j a event from to epoch token delta summary artifacts w ≡ ok w'
      → w'.bindings ≡ w.bindings
  unfolding journal
  journal-bindings a event from to epoch token delta summary artifacts w w' h =
      let (seq, _, k) = >>=-eq-ok (next_seq j w) _ h in append_row-bindings j _ w w' k

-- A key that the record of a pending wake does not write.
pub record Untouched (key : String) : Type 0 where
  pub mark : str_eq "last_applied_seq" key ≡ false
  pub pending : str_eq "wake_pending_ack_offset" key ≡ false
  pub sent : str_eq "wake_sent_transcript_size" key ≡ false

pub state-Untouched : Untouched "state"
state-Untouched = record { mark = refl; pending = refl; sent = refl }

module _ (j : Journal) (key : String) (untouched : Untouched key) where
  journal_send_failed-Kept :
      (b : Binding) (target kind error : String) (t : Tree j)
      → Kept key t (journal_send_failed j b target kind error t)
  unfolding journal_send_failed
  journal_send_failed-Kept b target kind error t =
      attempt-Kept key (journal j _ _ _ _ _ _ _ _ _) t
        (λ w e. journal-bindings j _ _ _ _ _ _ _ _ _ t.world w e)

  deliver_to-Kept :
      (site : Site) (b : Binding) (target : Value) (keys kind : String) (t : Tree j)
      → Kept key t (deliver_to j site b target keys kind t).1
  deliver_to-Kept site b (str target) keys kind t = elim (Bool-cases (str_eq target "")) [
    | inl q ↦ rw q (λ a. refl)
    | inr q ↦ rw q (by_send (site.send target keys))
  ]
    where
      by_send : (s : Sent) → Kept key t (after_keys j b target keys kind s t).1
      by_send delivered = λ a. refl
      by_send exited = journal_send_failed-Kept b target kind _ t
      by_send (raised e) = journal_send_failed-Kept b target kind e t
  deliver_to-Kept site b null keys kind t = λ a. refl
  deliver_to-Kept site b (bool x) keys kind t = λ a. refl
  deliver_to-Kept site b (num x) keys kind t = λ a. refl
  deliver_to-Kept site b (json x) keys kind t = λ a. refl

  pub on_world-Kept :
      (step : World j → Result (TransitionResult × World j)) (t : Tree j) (res : TransitionResult)
      (t' : Tree j)
      → ((w : World j) → step t.world ≡ ok (res, w) → Same key t.world.bindings w.bindings)
      → on_world step t ≡ ok (res, t')
      → Kept key t t'
  on_world-Kept step t res t' keeps h =
      let (w, e, q) = on_world-ok step t res t' h in subst (λ x. Kept key t x) (sym q) (keeps w e)

  record_wake_pending-Kept :
      (a : String) (size sent : ℕ) (t : Tree j) (res : TransitionResult) (t' : Tree j)
      → on_world (record_wake_pending j a size sent null) t ≡ ok (res, t')
      → Kept key t t'
  unfolding record_wake_pending Dict.get
  record_wake_pending-Kept a size sent t res t' h =
      on_world-Kept (record_wake_pending j a size sent null) t res t'
        (λ w e.
          own_slice_write-Same j key a null _ _ _ t.world w res untouched.mark
            (rw (untouched.pending, untouched.sent) refl) e)
        h

  after_delivery-Kept :
      (site : Site) (a : String) (live : Binding) (size : ℕ) (sent : Bool) (t t' : Tree j)
      → after_delivery j site a live size (sent, t) ≡ ok t'
      → Kept key t t'
  after_delivery-Kept site a live size false t t' h = Kept-eq key t t' (ok-inj t t' h)
  after_delivery-Kept site a live size true t t' h =
      let baseline = transcript_size site (or_null (Dict.get "transcript_path" live)) in
      let ((res, t1), e, k) =
        >>=-eq-ok (on_world (record_wake_pending j a size baseline null) t)
          (λ (p : TransitionResult × Tree j). ok p.1) h in
      subst (λ x. Kept key t x) (ok-inj t1 t' k)
        (record_wake_pending-Kept a size baseline t res t1 e)

  nudge_live-Kept :
      (site : Site) (a : String) (size : ℕ) (o : Option Binding) (t t' : Tree j)
      → nudge_live j site a size o t ≡ ok t'
      → Kept key t t'
  unfolding deliver_keystroke
  nudge_live-Kept site a size none t t' h = Kept-eq key t t' (ok-inj t t' h)
  nudge_live-Kept site a size (some live) t t' h =
      let typed =
        deliver_to j site live (or_null (Dict.get "tmux_target" live)) (wake_keystroke a) "wake"
          t in
      Same-trans key t.world.bindings typed.1.world.bindings t'.world.bindings
        (deliver_to-Kept site live (or_null (Dict.get "tmux_target" live)) (wake_keystroke a) "wake"
          t)
        (after_delivery-Kept site a live size typed.0 typed.1 t' h)

  nudge_inbox-Kept :
      (site : Site) (a : String) (b : Binding) (o : Option (List Message)) (t t' : Tree j)
      → nudge_inbox j site a b o t ≡ ok t'
      → Kept key t t'
  nudge_inbox-Kept site a b none t t' h = Kept-eq key t t' (ok-inj t t' h)
  nudge_inbox-Kept site a b (some lines) t t' h =
      nudge_live-Kept site a (lines_size site lines) (send_fence_open a b t.world.bindings) t t' h

  pub nudge-Kept :
      (site : Site) (a : String) (b : Binding) (t t' : Tree j)
      → nudge j site a b t ≡ ok t'
      → Kept key t t'
  unfolding nudge
  nudge-Kept site a b t t' h = elim (Bool-cases (prod_precondition site b)) [
    | inr q ↦ Kept-eq key t t' (ok-inj t t' (rw q at h))
    | inl q ↦ nudge_inbox-Kept site a b (Dict.get (inbox_path a) t.inboxes) t t' (rw q at h)
  ]

  pub if_unacked-Kept :
      (test : Result Bool) (t t' : Tree j) (next : Result (Tree j))
      → if_unacked j test t next ≡ ok t'
      → (next ≡ ok t' → Kept key t t')
      → Kept key t t'
  if_unacked-Kept (err e) t t' next h k = Kept-eq key t t' (ok-inj t t' h)
  if_unacked-Kept (ok false) t t' next h k = Kept-eq key t t' (ok-inj t t' h)
  if_unacked-Kept (ok true) t t' next h k = k h
