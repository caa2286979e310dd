-- ===== src/Examples/Operators.antt =====
-- The wake of the daemon and the verbs of an operator at one running node.
use long_horizon_agentic_har.Prelude.{str_eq, true, false, none, some, [], ◌∷◌, ◌≡◌, ◌⊎◌, refl}
use long_horizon_agentic_har.Result.{Result, ok, err}
use long_horizon_agentic_har.Value.{null, str}
use long_horizon_agentic_har.Dict
use long_horizon_agentic_har.Validate.{or_null}
use long_horizon_agentic_har.Addressing.Paths.{inbox_path, signal_path}
use long_horizon_agentic_har.Executor.{Binding}
use long_horizon_agentic_har.Runtime.{Tree, payload}
use long_horizon_agentic_har.Detector.{is_waiting, ts_of}
use long_horizon_agentic_har.Detector.Signals.{ts_is_newer}
use long_horizon_agentic_har.Chokepoint.{parent_of, subtree_paused}
use long_horizon_agentic_har.Watchdog.{inbox_has_unacked}
use long_horizon_agentic_har.Daemon.{wake_on_unacked_inbox}
use long_horizon_agentic_har.Daemon.Wake.{Woken, wake_on_unacked_inbox-Woken}
use long_horizon_agentic_har.Reconcile.Sweep.{is_coordinator}
use long_horizon_agentic_har.Daemon.Tick.{has_live_descendant, visit}
use long_horizon_agentic_har.Daemon.Same.{SameStates}
use long_horizon_agentic_har.Daemon.Visit.{visit-SameStates}
use long_horizon_agentic_har.Ipc.{Response, answer_line, handle_pause, handle_answer}
use long_horizon_agentic_har.Ipc.Pause.{LiesUnder, same_node, child, handle_pause-subtree_paused}
use long_horizon_agentic_har.Ipc.Answer.{Answered, handle_answer-is_waiting}
use long_horizon_agentic_har.Examples.Worlds.{list_journal}
use long_horizon_agentic_har.Examples.Nodes.{site, leaf, tree_of, leaf_tree, returned}

abbrev mailed : Tree list_journal
mailed = record leaf_tree { inboxes = (inbox_path "p#exec", answer_line "q#exec" ∷ []) ∷ [] }

abbrev left_by : Result (Tree list_journal) → Tree list_journal
left_by (ok t) = t
left_by (err e) = leaf_tree

abbrev woken : Tree list_journal
woken = left_by (wake_on_unacked_inbox list_journal site "p#exec" leaf mailed)

wakes : wake_on_unacked_inbox list_journal site "p#exec" leaf mailed ≡ ok woken
unfolding wake_on_unacked_inbox Dict.get inbox_path
    long_horizon_agentic_har.Addressing.Paths.node_dir long_horizon_agentic_har.Addressing.node_path
    long_horizon_agentic_har.Addressing.split_address
    long_horizon_agentic_har.Addressing.partition_hash long_horizon_agentic_har.Chokepoint.mem
    long_horizon_agentic_har.States.is_terminal_value long_horizon_agentic_har.States.is_terminal
    long_horizon_agentic_har.Executor.OwnSlice.own_slice_write
    long_horizon_agentic_har.Executor.is_stale long_horizon_agentic_har.Executor.next_seq
    long_horizon_agentic_har.Executor.OwnSlice.write_slice
wakes = refl

wake_on_unacked_inbox-Woken_example :
    (woken.commands ≡ mailed.commands)
    ⊎ ((inbox_has_unacked list_journal site "p#exec" leaf mailed ≡ ok true)
        × (subtree_paused "p#exec" mailed.world.bindings ≡ false)
        × Woken list_journal site "p#exec" leaf mailed woken)
wake_on_unacked_inbox-Woken_example =
    wake_on_unacked_inbox-Woken list_journal site "p#exec" leaf mailed woken wakes

abbrev no_response : Response
no_response = record {
  accepted = false;
  errors = [];
  warnings = [];
  binding = none;
  wake_target = none;
}

abbrev below : Binding
below = ("parent_address", str "p#exec") ∷ []

abbrev family : Tree list_journal
family = record leaf_tree {
  world = record leaf_tree.world { bindings = ("p#exec", leaf) ∷ ("p/c#exec", below) ∷ [] };
}

abbrev paused : Response × Tree list_journal
paused = returned no_response (handle_pause list_journal "p#exec" null family)

pauses : handle_pause list_journal "p#exec" null family ≡ ok (paused.0, paused.1)
unfolding handle_pause long_horizon_agentic_har.Executor.OwnSlice.own_slice_write Dict.get
    long_horizon_agentic_har.Executor.is_stale long_horizon_agentic_har.Executor.next_seq
    long_horizon_agentic_har.Executor.OwnSlice.write_slice
pauses = refl

pause_accepted : paused.0.accepted ≡ true
unfolding handle_pause long_horizon_agentic_har.Executor.OwnSlice.own_slice_write Dict.get
    long_horizon_agentic_har.Executor.is_stale long_horizon_agentic_har.Executor.next_seq
    long_horizon_agentic_har.Executor.OwnSlice.write_slice
pause_accepted = refl

below_found : Dict.get "p/c#exec" family.world.bindings ≡ some below
unfolding Dict.get
below_found = refl

below_parent : parent_of below ≡ str "p#exec"
unfolding Dict.get
below_parent = refl

below_LiesUnder : LiesUnder family.world.bindings "p/c#exec" "p#exec"
below_LiesUnder = child refl below_found below_parent (same_node refl)

handle_pause-subtree_paused_example : subtree_paused "p/c#exec" paused.1.world.bindings ≡ true
handle_pause-subtree_paused_example =
    handle_pause-subtree_paused list_journal "p#exec" "p/c#exec" null family paused.0 paused.1
      pauses pause_accepted below_LiesUnder

abbrev escalated : Binding
escalated = ("terminal_signal", str "ESCALATED") ∷ ("terminal_signal_at", str "t0") ∷ leaf

abbrev answered : Response × Tree list_journal
answered = returned no_response (handle_answer list_journal "p#exec" "yes" (tree_of escalated))

answers :
    handle_answer list_journal "p#exec" "yes" (tree_of escalated) ≡ ok (answered.0, answered.1)
unfolding handle_answer Dict.get long_horizon_agentic_har.Executor.OwnSlice.own_slice_write
    long_horizon_agentic_har.Executor.is_stale long_horizon_agentic_har.Executor.next_seq
    long_horizon_agentic_har.Executor.OwnSlice.write_slice
answers = refl

answer_accepted : answered.0.accepted ≡ true
unfolding handle_answer Dict.get long_horizon_agentic_har.Executor.OwnSlice.own_slice_write
    long_horizon_agentic_har.Executor.is_stale long_horizon_agentic_har.Executor.next_seq
    long_horizon_agentic_har.Executor.OwnSlice.write_slice
answer_accepted = refl

escalated_found : Dict.get "p#exec" (tree_of escalated).world.bindings ≡ some escalated
unfolding Dict.get
escalated_found = refl

stamp_older :
    ts_is_newer site
      (or_null (Dict.get "terminal_signal_at" escalated))
      (str (tree_of escalated).world.now)
    ≡ false
unfolding ts_is_newer Dict.get
stamp_older = refl

file_older : ts_is_newer site (ts_of none) (str (tree_of escalated).world.now) ≡ false
unfolding ts_is_newer
file_older = refl

clock_shown : str_eq (tree_of escalated).world.now "" ≡ false
clock_shown = refl

handle_answer-is_waiting_example :
    Answered list_journal "p#exec" "yes" escalated (tree_of escalated) answered.1
    × ((b : Binding)
        → Dict.get "p#exec" answered.1.world.bindings ≡ some b
        → is_waiting site b none ≡ false)
handle_answer-is_waiting_example =
    handle_answer-is_waiting list_journal site "p#exec" "yes" escalated none (tree_of escalated)
      answered.0 answered.1 answers answer_accepted escalated_found clock_shown stamp_older
      file_older

abbrev running_child : Binding
running_child = ("parent_address", str "p#exec") ∷ ("state", str "running") ∷ []

-- The coordinator has signed off, and its child still runs.
abbrev supervised : Tree list_journal
supervised = record family {
  world = record family.world { bindings = ("p#exec", leaf) ∷ ("p/c#exec", running_child) ∷ [] };
  signals =
      (
        signal_path "p#exec",
        payload (("signal", str "DONE") ∷ ("owner_token", str "p#exec:s:u:2") ∷ []),
      )
      ∷ [];
}

abbrev visited : Tree list_journal
visited = left_by (visit list_journal site "p#exec" leaf "t1" supervised.world.bindings supervised)

visits :
    visit list_journal site "p#exec" leaf "t1" supervised.world.bindings supervised ≡ ok visited
unfolding visit long_horizon_agentic_har.States.is_terminal_value Dict.get
    long_horizon_agentic_har.States.is_terminal
visits = refl

coordinates : is_coordinator "p#exec" supervised.world.bindings ≡ true
unfolding is_coordinator Dict.get
coordinates = refl

child_lives : has_live_descendant "p#exec" supervised.world.bindings ≡ true
unfolding has_live_descendant Dict.get long_horizon_agentic_har.States.is_terminal_value
    long_horizon_agentic_har.States.is_terminal
child_lives = refl

visit-SameStates_example : SameStates supervised.world.bindings visited.world.bindings
visit-SameStates_example =
    visit-SameStates list_journal site "p#exec" leaf "t1" supervised.world.bindings supervised
      visited coordinates child_lives visits
