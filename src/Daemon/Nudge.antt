-- ===== src/Daemon/Nudge.antt =====
-- What `_nudge` of harnessd/daemon.py, the inner function of the wake, types into a pane.
use long_horizon_agentic_har.Prelude.{
  ℕ, String, str_eq, Bool, true, false, Option, none, some, List, ◌∷◌, ◌≡◌, refl, sym, ◌∙◌, ap, ◌⊎◌,
  inl, inr, Bool-cases,
}
use long_horizon_agentic_har.Result.{ok, ok-inj, >>=-eq-ok}
use long_horizon_agentic_har.Value.{Value, null, bool, num, str, json}
use long_horizon_agentic_har.Dict
use long_horizon_agentic_har.Dict.{get-set_ne}
use long_horizon_agentic_har.Validate.{or_null}
use long_horizon_agentic_har.Ledger.Journal.{Journal}
use long_horizon_agentic_har.Executor.{Binding, TransitionResult}
use long_horizon_agentic_har.Executor.OwnSlice.{record_wake_pending}
use long_horizon_agentic_har.Runtime.{
  Message, Sent, delivered, exited, raised, send_keys, Site, Tree, lines_size, on_world,
}
use long_horizon_agentic_har.Addressing.Paths.{inbox_path}
use long_horizon_agentic_har.Chokepoint.Kickoff.{transcript_size}
use long_horizon_agentic_har.Watchdog.Gates.{prod_precondition, wake_keystroke}
use long_horizon_agentic_har.Daemon.{
  send_fence_open, journal_send_failed, after_keys, deliver_to, deliver_keystroke, after_delivery,
  nudge_live, nudge_inbox, nudge,
}
use long_horizon_agentic_har.Daemon.Fence.{Fenced, send_fence_open-Fenced, on_world-commands}

module _ (j : Journal) where
  -- One nudge at the tree `seen`, and nothing else typed: the snapshot's pane showed its prompt, the
  -- binding that `seen` holds passed the fence against the snapshot, and its pane got the pointer.
  pub record Nudged (site : Site) (a : String) (snapshot : Binding) (seen t' : Tree j)
      : Type 0 where
    pub gate : prod_precondition site snapshot ≡ true
    pub live : Binding
    pub fenced : Fenced a snapshot live seen
    pub target : String
    pub pane : or_null (Dict.get "tmux_target" live) ≡ str target
    pub typed : t'.commands ≡ send_keys target (wake_keystroke a) ∷ seen.commands

  abbrev pub Quiet : Site → String → Binding → Tree j → Tree j → Type 0
  Quiet site a snapshot seen t' = (t'.commands ≡ seen.commands) ⊎ Nudged site a snapshot seen t'

  after_keys-commands :
      (b : Binding) (target keys kind : String) (s : Sent) (t : Tree j)
      → ((after_keys j b target keys kind s t).0 ≡ false)
          × ((after_keys j b target keys kind s t).1.commands ≡ t.commands)
        ⊎ ((after_keys j b target keys kind s t).1.commands ≡ send_keys target keys ∷ t.commands)
  unfolding journal_send_failed
  after_keys-commands b target keys kind delivered t = inr refl
  after_keys-commands b target keys kind exited t = inl (refl, refl)
  after_keys-commands b target keys kind (raised e) t = inl (refl, refl)

  -- What a delivery leaves: nothing typed, or one line of keys in the pane of that target.
  abbrev Typed : Value → String → Tree j → Bool × Tree j → Type 0
  Typed at keys t (sent, t') =
      (t'.commands ≡ t.commands)
      ⊎ ((target : String) × (at ≡ str target) × (t'.commands ≡ send_keys target keys ∷ t.commands))

  deliver_to-Typed :
      (site : Site) (b : Binding) (target : Value) (keys kind : String) (t : Tree j)
      → Typed target keys t (deliver_to j site b target keys kind t)
  deliver_to-Typed site b (str target) keys kind t = elim (Bool-cases (str_eq target "")) [
    | inl q ↦ rw q (inl refl)
    | inr q ↦ rw q (elim (after_keys-commands b target keys kind (site.send target keys) t) [
      | inl p ↦ inl p.1
      | inr p ↦ inr (target, refl, p)
    ])
  ]
  deliver_to-Typed site b null keys kind t = inl refl
  deliver_to-Typed site b (bool x) keys kind t = inl refl
  deliver_to-Typed site b (num x) keys kind t = inl refl
  deliver_to-Typed site b (json x) keys kind t = inl refl

  after_delivery-commands :
      (site : Site) (a : String) (live : Binding) (size : ℕ) (sent : Bool) (t t' : Tree j)
      → after_delivery j site a live size (sent, t) ≡ ok t'
      → t'.commands ≡ t.commands
  after_delivery-commands site a live size false t t' h =
      sym (ap (λ (x : Tree j). x.commands) (ok-inj t t' h))
  after_delivery-commands site a live size true t t' h =
      let ((res, t1), e, k) =
        >>=-eq-ok
          (on_world
            (record_wake_pending j a size
              (transcript_size site (or_null (Dict.get "transcript_path" live))) null)
            t)
          (λ (p : TransitionResult × Tree j). ok p.1) h in
      sym (ap (λ (x : Tree j). x.commands) (ok-inj t1 t' k))
      ∙ on_world-commands
          (record_wake_pending j a size
            (transcript_size site (or_null (Dict.get "transcript_path" live))) null)
          t res t1 e

  nudge_live-Quiet :
      (site : Site) (a : String) (b live : Binding) (size : ℕ) (t t' : Tree j)
      → prod_precondition site b ≡ true
      → Fenced a b live t
      → nudge_live j site a size (some live) t ≡ ok t'
      → Quiet site a b t t'
  unfolding deliver_keystroke
  nudge_live-Quiet site a b live size t t' gate fenced h =
      let kept = after_delivery-commands site a live size _ _ t' h in
      elim (deliver_to-Typed site live (or_null (Dict.get "tmux_target" live)) (wake_keystroke a)
        "wake" t) [
          | inl p ↦ inl (kept ∙ p)
          | inr (target, pane, p) ↦ inr (record {
            gate = gate;
            live = live;
            fenced = fenced;
            target = target;
            pane = pane;
            typed = kept ∙ p;
          })
        ]

  nudge_fenced-Quiet :
      (site : Site) (a : String) (b : Binding) (size : ℕ) (o : Option Binding) (t t' : Tree j)
      → prod_precondition site b ≡ true
      → send_fence_open a b t.world.bindings ≡ o
      → nudge_live j site a size o t ≡ ok t'
      → Quiet site a b t t'
  nudge_fenced-Quiet site a b size none t t' gate passes h =
      inl (sym (ap (λ (x : Tree j). x.commands) (ok-inj t t' h)))
  nudge_fenced-Quiet site a b size (some live) t t' gate passes h =
      nudge_live-Quiet site a b live size t t' gate (send_fence_open-Fenced a b live t passes) h

  nudge_inbox-Quiet :
      (site : Site) (a : String) (b : Binding) (o : Option (List Message)) (t t' : Tree j)
      → prod_precondition site b ≡ true
      → nudge_inbox j site a b o t ≡ ok t'
      → Quiet site a b t t'
  nudge_inbox-Quiet site a b none t t' gate h =
      inl (sym (ap (λ (x : Tree j). x.commands) (ok-inj t t' h)))
  nudge_inbox-Quiet site a b (some lines) t t' gate h =
      nudge_fenced-Quiet site a b (lines_size site lines) (send_fence_open a b t.world.bindings) t
        t' gate refl h

  pub nudge-Quiet :
      (site : Site) (a : String) (b : Binding) (t t' : Tree j)
      → nudge j site a b t ≡ ok t'
      → Quiet site a b t t'
  unfolding nudge
  nudge-Quiet site a b t t' h = elim (Bool-cases (prod_precondition site b)) [
    | inr q ↦ inl (sym (ap (λ (x : Tree j). x.commands) (ok-inj t t' (rw q at h))))
    | inl q ↦ nudge_inbox-Quiet site a b (Dict.get (inbox_path a) t.inboxes) t t' q (rw q at h)
  ]
