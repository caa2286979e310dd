-- ===== src/Daemon/Tick.antt =====
-- The visit of one node by `_watchdog_tick` of harnessd/daemon.py. An exception that it raises is
-- caught by the sweep over the nodes.
use long_horizon_agentic_har.Prelude.{
  String, str_eq, Bool, true, false, not, ◌&&◌, ◌||◌, Option, none, some, List, [], ◌∷◌,
  if◌then◌else◌,
}
use long_horizon_agentic_har.Result.{Result, ok, ◌>>=◌}
use long_horizon_agentic_har.Value.{Value, null, bool, str, json, same}
use long_horizon_agentic_har.Dict
use long_horizon_agentic_har.Dict.{Dict}
use long_horizon_agentic_har.States.{is_terminal_value}
use long_horizon_agentic_har.Validate.{or_null}
use long_horizon_agentic_har.Ledger.{Entry}
use long_horizon_agentic_har.Ledger.Journal.{Journal}
use long_horizon_agentic_har.Executor.{Binding, Bindings}
use long_horizon_agentic_har.Executor.OwnSlice.{journal}
use long_horizon_agentic_har.Reconcile.Sweep.{is_coordinator}
use long_horizon_agentic_har.Runtime.{Site, Tree, attempt}
use long_horizon_agentic_har.Watchdog.Gates.{
  Detail, idle_within_grace, Kind, prod, escalation, WatchdogAction, has_live_children,
}
use long_horizon_agentic_har.Watchdog.{check_terminal_signal, check_leaf, check_coordinator_death}
use long_horizon_agentic_har.Daemon.{send_fence_open, deliver_keystroke, wake_on_unacked_inbox}

-- A row of that escalation of that node.
unfoldable pub is_escalation_of : String → String → Entry → Bool
is_escalation_of node_address kind e =
    str_eq e.event "reconcile_escalation"
    && (str_eq e.node_address node_address
        && same (or_null (Dict.get "kind" e.binding_delta)) (str kind))

unfoldable pub any_escalation_of : String → String → List Entry → Bool
unfolding is_escalation_of
any_escalation_of node_address kind [] = false
any_escalation_of node_address kind (e ∷ es) =
    is_escalation_of node_address kind e || any_escalation_of node_address kind es

-- A descendant that is not terminal; the watchdog tests its children in the same way.
unfoldable pub has_live_descendant : String → Bindings → Bool
unfolding has_live_children
has_live_descendant node_address bindings = has_live_children node_address bindings

abbrev pub orphan_detail : Value → Dict Value
orphan_detail target =
    ("reason", str "recoverable_orphan")
    ∷ ("coordinator_dead", bool true)
    ∷ ("live_children", bool true)
    ∷ ("recover_vs_reap", str "deferred")
    ∷ ("target", target)
    ∷ []

module _ (j : Journal) where
  -- One row for each node and kind.
  unfoldable pub journal_escalation_once :
      String → String → String → Dict Value → Tree j → Result (Tree j)
  unfolding journal any_escalation_of
  journal_escalation_once node_address kind summary detail t = do
    wal ← j.load t.world.wal
    ok (
        if any_escalation_of node_address kind wal
        then t
        else attempt
            (journal j node_address "reconcile_escalation" null null null null
              (("kind", str kind) ∷ detail) summary (json "[]"))
            t)

  abbrev pub routed : String → WatchdogAction → Kind → Tree j → Result (Tree j)
  routed address action escalation t =
      journal_escalation_once address "recoverable_orphan"
        "watchdog escalation: dead coordinator over live children" (orphan_detail action.target) t
  routed address action kind t = ok t

  abbrev pub probe : Site → String → Binding → Tree j → Result (Tree j)
  probe site address binding t = do
    action ← check_coordinator_death j address binding t
    t' ← routed address action action.kind t
    wake_on_unacked_inbox j site address binding t'

  abbrev pub after_sign_off :
      Site → String → Binding → Option WatchdogAction × Tree j → Result (Tree j)
  after_sign_off site address binding (some action, t) =
      wake_on_unacked_inbox j site address binding t
  after_sign_off site address binding (none, t) = probe site address binding t

  -- The sign-off of a coordinator counts only where no descendant is live.
  abbrev pub visit_coordinator : Site → String → Binding → Bindings → Tree j → Result (Tree j)
  visit_coordinator site address binding snapshot t =
      if not (has_live_descendant address snapshot)
      then (do
        signed ← check_terminal_signal j site address binding t
        after_sign_off site address binding signed)
      else probe site address binding t

  abbrev prodded_live : Site → Option Binding → String → Tree j → Tree j
  prodded_live site none keystroke t = t
  prodded_live site (some live) keystroke t = (deliver_keystroke j site live keystroke "prod" t).1

  abbrev enacted : Site → String → Binding → Detail → Tree j → Tree j
  enacted site address binding (idle_within_grace count grace keystroke) t =
      prodded_live site (send_fence_open address binding t.world.bindings) keystroke t
  enacted site address binding detail t = t

  abbrev pub enact : Site → String → Binding → WatchdogAction → Kind → Tree j → Tree j
  enact site address binding action prod t = enacted site address binding action.detail t
  enact site address binding action kind t = t

  abbrev pub visit_leaf : Site → String → Binding → String → Tree j → Result (Tree j)
  visit_leaf site address binding now t = do
    (action, t') ← check_leaf j site address binding now t
    wake_on_unacked_inbox j site address binding (enact site address binding action action.kind t')

  -- The snapshot is the binding map at the start of the tick.
  unfoldable pub visit : Site → String → Binding → String → Bindings → Tree j → Result (Tree j)
  unfolding is_coordinator has_live_descendant check_terminal_signal check_coordinator_death
      check_leaf journal_escalation_once send_fence_open deliver_keystroke wake_on_unacked_inbox
  visit site address binding now snapshot t =
      if is_terminal_value (or_null (Dict.get "state" binding))
      then ok t
      else if is_coordinator address snapshot
      then visit_coordinator site address binding snapshot t
      else visit_leaf site address binding now t
