-- ===== src/Examples/Watchers.antt =====
-- The detector, the watchdog and the return contract at one running node.
use long_horizon_agentic_har.Prelude.{str_eq, true, false, none, some, [], ◌∷◌, ◌≡◌, refl}
use long_horizon_agentic_har.Result.{ok}
use long_horizon_agentic_har.Value.{null, str}
use long_horizon_agentic_har.Dict
use long_horizon_agentic_har.Detector.{Liveness, liveness_of, liveness}
use long_horizon_agentic_har.Detector.Signals.{pane_activity, read_terminal_signal}
use long_horizon_agentic_har.Detector.Verdict.{Grounds, liveness-Grounds}
use long_horizon_agentic_har.Executor.{Binding}
use long_horizon_agentic_har.Runtime.{Tree}
use long_horizon_agentic_har.ReturnContract.Trace.{missing_report}
use long_horizon_agentic_har.ReturnContract.{journal_defects_once}
use long_horizon_agentic_har.ReturnContract.Once.{
  Refused, journal_defects_once_again, journal_defects_once_unstamped,
}
use long_horizon_agentic_har.Watchdog.Gates.{WatchdogAction, wait, failed, paused_subtree}
use long_horizon_agentic_har.Watchdog.{check_terminal_signal, check_leaf}
use long_horizon_agentic_har.Watchdog.Failed.{Abandoned, check_leaf-Abandoned}
use long_horizon_agentic_har.Examples.Worlds.{list_journal}
use long_horizon_agentic_har.Examples.Nodes.{site, leaf, leaf_tree, returned}

abbrev dead : Liveness
dead = record { state = "dead"; last_progress_at = null }

looks : liveness site "p#exec" leaf_tree ≡ ok (returned dead (liveness site "p#exec" leaf_tree))
unfolding liveness liveness_of Dict.get pane_activity
looks = refl

is_idle : (returned dead (liveness site "p#exec" leaf_tree)).0.state ≡ "idle"
unfolding liveness liveness_of Dict.get pane_activity read_terminal_signal
is_idle = refl

leaf_found : Dict.get "p#exec" leaf_tree.world.bindings ≡ some leaf
unfolding Dict.get
leaf_found = refl

liveness-Grounds_example :
    (b : Binding) × (Dict.get "p#exec" leaf_tree.world.bindings ≡ some b)
    × Grounds site "p#exec" b leaf_tree (returned dead (liveness site "p#exec" leaf_tree)).0.state
liveness-Grounds_example = liveness-Grounds site "p#exec" leaf_tree _ _ looks

abbrev waits : WatchdogAction
waits = record { kind = wait; node = "p#exec"; target = null; detail = paused_subtree }

checks :
    check_leaf list_journal site "p#exec" leaf "t1" leaf_tree
    ≡ ok (returned waits (check_leaf list_journal site "p#exec" leaf "t1" leaf_tree))
unfolding check_leaf Dict.get long_horizon_agentic_har.Chokepoint.mem pane_activity
    long_horizon_agentic_har.Executor.Transition.decide
    long_horizon_agentic_har.States.is_legal_value long_horizon_agentic_har.States.is_legal
    long_horizon_agentic_har.States.allowed_transitions
    long_horizon_agentic_har.Executor.Transition.decide_candidate
    long_horizon_agentic_har.Validate.validate Dict.update
    long_horizon_agentic_har.Executor.Transition.perform
checks = refl

fails : (returned waits (check_leaf list_journal site "p#exec" leaf "t1" leaf_tree)).0.kind ≡ failed
unfolding check_leaf Dict.get long_horizon_agentic_har.Chokepoint.mem pane_activity
    long_horizon_agentic_har.Executor.Transition.decide
    long_horizon_agentic_har.States.is_legal_value long_horizon_agentic_har.States.is_legal
    long_horizon_agentic_har.States.allowed_transitions
    long_horizon_agentic_har.Executor.Transition.decide_candidate
    long_horizon_agentic_har.Validate.validate Dict.update
    long_horizon_agentic_har.Executor.Transition.perform
fails = refl

check_leaf-Abandoned_example :
    (t : Tree list_journal) × (check_terminal_signal list_journal site "p#exec" leaf leaf_tree
      ≡ ok (none, t))
    × Abandoned list_journal site "p#exec" leaf "t1"
        (returned waits (check_leaf list_journal site "p#exec" leaf "t1" leaf_tree)).0
        t
        (returned waits (check_leaf list_journal site "p#exec" leaf "t1" leaf_tree)).1
check_leaf-Abandoned_example =
    check_leaf-Abandoned list_journal site "p#exec" leaf "t1" leaf_tree _ _ checks fails

named : str_eq "t1" "" ≡ false
named = refl

journal_defects_once_again_example :
    journal_defects_once list_journal "p#exec" leaf
      (str "t1")
      []
      (journal_defects_once list_journal "p#exec" leaf (str "t1") (missing_report ∷ []) leaf_tree).1
    ≡ (
      false,
      (journal_defects_once list_journal "p#exec" leaf
          (str "t1")
          (missing_report ∷ [])
          leaf_tree).1,
    )
journal_defects_once_again_example =
    journal_defects_once_again list_journal "p#exec" "t1" leaf leaf (missing_report ∷ []) []
      leaf_tree [] refl named

journal_defects_once_unstamped_example :
    (t' : Tree list_journal) × (journal_defects_once list_journal "p#exec" leaf null
        (missing_report ∷ [])
        leaf_tree
      ≡ (true, t'))
    × Refused list_journal "p#exec" (missing_report ∷ []) leaf_tree t' []
journal_defects_once_unstamped_example =
    journal_defects_once_unstamped list_journal "p#exec" leaf (missing_report ∷ []) leaf_tree []
      refl
