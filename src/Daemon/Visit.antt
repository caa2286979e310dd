-- ===== src/Daemon/Visit.antt =====
-- A visit of a coordinator with a live descendant by harnessd/daemon.py changes no lifecycle state.
use long_horizon_agentic_har.Prelude.{
  String, Bool, true, false, not, ◌∷◌, ◌≡◌, refl, subst, Bool-cases, inl, inr, if◌then◌else◌,
}
use long_horizon_agentic_har.Result.{ok, ok-inj, ◌>>=◌, >>=-eq-ok}
use long_horizon_agentic_har.Value.{Value, null, str, json}
use long_horizon_agentic_har.Dict
use long_horizon_agentic_har.Dict.{Dict}
use long_horizon_agentic_har.States.{is_terminal_value}
use long_horizon_agentic_har.Validate.{or_null}
use long_horizon_agentic_har.Ledger.Journal.{Journal}
use long_horizon_agentic_har.Executor.{Binding, Bindings}
use long_horizon_agentic_har.Executor.OwnSlice.{journal}
use long_horizon_agentic_har.Runtime.{Site, Tree, attempt}
use long_horizon_agentic_har.Reconcile.Sweep.{is_coordinator}
use long_horizon_agentic_har.Watchdog.Gates.{
  WatchdogAction, Kind, collapse_node, noop, prod, failed, escalation, wait,
}
use long_horizon_agentic_har.Watchdog.{check_coordinator_death, check_terminal_signal}
use long_horizon_agentic_har.Daemon.{wake_on_unacked_inbox}
use long_horizon_agentic_har.Daemon.Tick.{
  any_escalation_of, has_live_descendant, journal_escalation_once, orphan_detail, routed, probe,
  after_sign_off, visit_coordinator, visit_leaf, visit,
}
use long_horizon_agentic_har.Daemon.Same.{SameStates, Same-trans}
use long_horizon_agentic_har.Daemon.Kept.Wakes.{wake_on_unacked_inbox-Kept}
use long_horizon_agentic_har.Daemon.Kept.{
  state-Untouched, Kept, Kept-eq, attempt-Kept, journal-bindings,
}

module _ (j : Journal) where
  journal_escalation_once-Kept :
      (a kind summary : String) (detail : Dict Value) (t t' : Tree j)
      → journal_escalation_once j a kind summary detail t ≡ ok t'
      → Kept "state" t t'
  unfolding journal_escalation_once
  journal_escalation_once-Kept a kind summary detail t t' h =
      let step =
        journal j a "reconcile_escalation" null null null null (("kind", str kind) ∷ detail) summary
          (json "[]") in
      let (wal, _, k) =
        >>=-eq-ok (j.load t.world.wal)
          (λ wal. ok (if any_escalation_of a kind wal then t else attempt step t)) h in
      elim (Bool-cases (any_escalation_of a kind wal)) [
        | inl q ↦ Kept-eq "state" t t' (ok-inj t t' (rw q at k))
        | inr q ↦
            subst (λ x. Kept "state" t x) (ok-inj (attempt step t) t' (rw q at k))
              (attempt-Kept "state" step t
                (λ w e. journal-bindings j _ _ _ _ _ _ _ _ _ t.world w e))
      ]

  routed-Kept :
      (a : String) (action : WatchdogAction) (kind : Kind) (t t' : Tree j)
      → routed j a action kind t ≡ ok t'
      → Kept "state" t t'
  routed-Kept a action escalation t t' h =
      journal_escalation_once-Kept a _ _ (orphan_detail action.target) t t' h
  routed-Kept a action collapse_node t t' h = Kept-eq "state" t t' (ok-inj t t' h)
  routed-Kept a action noop t t' h = Kept-eq "state" t t' (ok-inj t t' h)
  routed-Kept a action prod t t' h = Kept-eq "state" t t' (ok-inj t t' h)
  routed-Kept a action failed t t' h = Kept-eq "state" t t' (ok-inj t t' h)
  routed-Kept a action wait t t' h = Kept-eq "state" t t' (ok-inj t t' h)

  probe-Kept :
      (site : Site) (a : String) (b : Binding) (t t' : Tree j)
      → probe j site a b t ≡ ok t'
      → Kept "state" t t'
  probe-Kept site a b t t' h =
      let (action, _, h1) =
        >>=-eq-ok (check_coordinator_death j a b t)
          (λ (action : WatchdogAction). do
            t1 ← routed j a action action.kind t
            wake_on_unacked_inbox j site a b t1)
          h in
      let (t1, e, h2) =
        >>=-eq-ok (routed j a action action.kind t)
          (λ (t1 : Tree j). wake_on_unacked_inbox j site a b t1) h1 in
      Same-trans "state" t.world.bindings t1.world.bindings t'.world.bindings
        (routed-Kept a action action.kind t t1 e)
        (wake_on_unacked_inbox-Kept j "state" state-Untouched refl site a b t1 t' h2)

  -- The visit of a coordinator that has a live descendant leaves the lifecycle state of every node as
  -- it is, whatever the coordinator's signal file, inbox and pane hold: it is neither failed nor
  -- collapsed.
  pub visit-SameStates :
      (site : Site) (a : String) (b : Binding) (now : String) (snapshot : Bindings) (t t' : Tree j)
      → is_coordinator a snapshot ≡ true
      → has_live_descendant a snapshot ≡ true
      → visit j site a b now snapshot t ≡ ok t'
      → SameStates t.world.bindings t'.world.bindings
  unfolding visit
  visit-SameStates site a b now snapshot t t' coordinator live h =
      elim (Bool-cases (is_terminal_value (or_null (Dict.get "state" b)))) [
        | inl q ↦ Kept-eq "state" t t' (ok-inj t t' (rw q at h))
        | inr q ↦
            let coordinated : visit_coordinator j site a b snapshot t ≡ ok t' =
              subst
                (λ x.
                  (if x
                    then visit_coordinator j site a b snapshot t
                    else visit_leaf j site a b now t)
                  ≡ ok t')
                coordinator (rw q at h) in
            probe-Kept site a b t t' (by_live (has_live_descendant a snapshot) live coordinated)
      ]
    where
      by_live :
          (has_live : Bool)
          → has_live ≡ true
          → (if not has_live
              then (do
                signed ← check_terminal_signal j site a b t
                after_sign_off j site a b signed)
              else probe j site a b t)
            ≡ ok t'
          → probe j site a b t ≡ ok t'
      by_live true e k = k
      by_live false e k = absurd (cc e)
