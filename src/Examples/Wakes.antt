-- ===== src/Examples/Wakes.antt =====
-- A wake whose earlier nudge has been read, at a concrete tree.
use long_horizon_agentic_har.Prelude.{some, [], ◌∷◌, ◌≡◌, refl, ◌⊎◌}
use long_horizon_agentic_har.Result.{Result, ok, err}
use long_horizon_agentic_har.Value.{num}
use long_horizon_agentic_har.Dict
use long_horizon_agentic_har.Addressing.Paths.{inbox_path}
use long_horizon_agentic_har.Executor.{Binding}
use long_horizon_agentic_har.Runtime.{Site, Tree}
use long_horizon_agentic_har.Daemon.{wake_on_unacked_inbox}
use long_horizon_agentic_har.Daemon.Same.{Same, value_at}
use long_horizon_agentic_har.Daemon.Watermark.{Advanced, wake_on_unacked_inbox-Advanced}
use long_horizon_agentic_har.Ipc.{answer_line}
use long_horizon_agentic_har.Examples.Worlds.{list_journal}
use long_horizon_agentic_har.Examples.Nodes.{site, leaf, tree_of, leaf_tree}

-- The transcript has 5 bytes; it had 3 at the nudge, which was for the first 10 bytes of the inbox.
abbrev grown_site : Site
grown_site = record site { transcript = λ s. some 5 }

abbrev nudged_leaf : Binding
nudged_leaf = ("wake_pending_ack_offset", num 10) ∷ ("wake_sent_transcript_size", num 3) ∷ leaf

abbrev nudged : Tree list_journal
nudged = record (tree_of nudged_leaf) {
  inboxes = (inbox_path "p#exec", answer_line "q#exec" ∷ answer_line "r#exec" ∷ []) ∷ [];
}

abbrev left_by : Result (Tree list_journal) → Tree list_journal
left_by (ok t) = t
left_by (err e) = leaf_tree

abbrev acked_tree : Tree list_journal
acked_tree = left_by (wake_on_unacked_inbox list_journal grown_site "p#exec" nudged_leaf nudged)

acks : wake_on_unacked_inbox list_journal grown_site "p#exec" nudged_leaf nudged ≡ ok acked_tree
unfolding wake_on_unacked_inbox Dict.get inbox_path
    long_horizon_agentic_har.Addressing.Paths.node_dir long_horizon_agentic_har.Addressing.node_path
    long_horizon_agentic_har.Addressing.split_address
    long_horizon_agentic_har.Addressing.partition_hash long_horizon_agentic_har.Chokepoint.mem
    long_horizon_agentic_har.States.is_terminal_value long_horizon_agentic_har.States.is_terminal
    long_horizon_agentic_har.Executor.OwnSlice.own_slice_write
    long_horizon_agentic_har.Executor.is_stale long_horizon_agentic_har.Executor.next_seq
    long_horizon_agentic_har.Executor.OwnSlice.write_slice Dict.set Dict.update
acks = refl

-- The first ten bytes are acked, and the second nudge is pending for all twenty.
moved :
    (value_at "last_inbox_acked_offset" "p#exec" acked_tree.world.bindings ≡ num 10)
    × (value_at "wake_pending_ack_offset" "p#exec" acked_tree.world.bindings ≡ num 20)
unfolding wake_on_unacked_inbox Dict.get inbox_path
    long_horizon_agentic_har.Addressing.Paths.node_dir long_horizon_agentic_har.Addressing.node_path
    long_horizon_agentic_har.Addressing.split_address
    long_horizon_agentic_har.Addressing.partition_hash long_horizon_agentic_har.Chokepoint.mem
    long_horizon_agentic_har.States.is_terminal_value long_horizon_agentic_har.States.is_terminal
    long_horizon_agentic_har.Executor.OwnSlice.own_slice_write
    long_horizon_agentic_har.Executor.is_stale long_horizon_agentic_har.Executor.next_seq
    long_horizon_agentic_har.Executor.OwnSlice.write_slice Dict.set Dict.update
moved = (refl, refl)

wake_on_unacked_inbox-Advanced_example :
    Same "last_inbox_acked_offset" nudged.world.bindings acked_tree.world.bindings
    ⊎ Advanced grown_site "p#exec" nudged_leaf nudged acked_tree
wake_on_unacked_inbox-Advanced_example =
    wake_on_unacked_inbox-Advanced list_journal grown_site "p#exec" nudged_leaf nudged acked_tree
      acks
