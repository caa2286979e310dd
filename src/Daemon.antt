-- ===== src/Daemon.antt =====
-- The wake of harnessd/daemon.py: a node whose inbox has new lines gets one pointer into its pane.
pub mod Fence
pub mod Nudge
pub mod Wake
pub mod Watermark
pub mod Kept
pub mod Tick
pub mod Same
pub mod Visit
use Prim.Native.String.{◌++◌}
use long_horizon_agentic_har.Prelude.{
  ℕ, String, str_eq, Bool, true, false, not, Option, none, some, List, [], ◌∷◌, if◌then◌else◌,
}
use long_horizon_agentic_har.Result.{Result, ok, err, type_error, ◌>>=◌}
use long_horizon_agentic_har.Value.{Value, null, num, str, json, same}
use long_horizon_agentic_har.Dict
use long_horizon_agentic_har.States.{is_terminal_value}
use long_horizon_agentic_har.Validate.{or_null}
use long_horizon_agentic_har.Addressing.Paths.{inbox_path}
use long_horizon_agentic_har.Ledger.Journal.{Journal}
use long_horizon_agentic_har.Executor.{Binding, Bindings, World, TransitionResult}
use long_horizon_agentic_har.Executor.OwnSlice.{journal, ack_inbox, record_wake_pending}
use long_horizon_agentic_har.Runtime.{
  Message, Sent, delivered, exited, raised, send_keys, Site, Tree, lines_size, attempt, command,
  on_world,
}
use long_horizon_agentic_har.Chokepoint.{subtree_paused}
use long_horizon_agentic_har.Chokepoint.Kickoff.{transcript_size}
use long_horizon_agentic_har.Watchdog.Gates.{
  prod_precondition, confirm_prod_worked, wake_keystroke, num_or,
}
use long_horizon_agentic_har.Watchdog.{inbox_has_unacked}

abbrev agrees : String → Binding → Binding → Bool
agrees key live snapshot = same (or_null (Dict.get key live)) (or_null (Dict.get key snapshot))

abbrev pub fence_live : Binding → Option Binding → Option Binding
fence_live snapshot none = none
fence_live snapshot (some live) =
    if is_terminal_value (or_null (Dict.get "state" live))
    then none
    else if not (agrees "owner_token" live snapshot)
    then none
    else if not (agrees "lease_epoch" live snapshot)
    then none
    else if not (agrees "session_uuid" live snapshot)
    then none
    else some live

-- The live binding, unless it is terminal or no longer the one of the snapshot.
unfoldable pub send_fence_open : String → Binding → Bindings → Option Binding
send_fence_open address snapshot bindings = fence_live snapshot (Dict.get address bindings)

abbrev name_of : Value → String
name_of (str s) = s
name_of _ = ""

-- int(v) of a number
abbrev number : Value → Result ℕ
number (num n) = ok n
number _ = err type_error

-- The binding that the rest of the tick goes by after a verified ack.
abbrev pub acked : ℕ → Binding → Binding
acked offset binding = Dict.set "wake_sent_transcript_size" null (
    Dict.set "wake_pending_ack_offset" null
      (Dict.set "last_inbox_acked_offset" (num offset) binding))

module _ (j : Journal) where
  unfoldable pub journal_send_failed : Binding → String → String → String → Tree j → Tree j
  unfolding journal
  journal_send_failed binding target kind error = attempt (
      journal j (name_of (or_null (Dict.get "node_address" binding))) (kind ++ "_send_failed")
        (or_null (Dict.get "state" binding)) (or_null (Dict.get "state" binding))
        (or_null (Dict.get "lease_epoch" binding)) null
        (("tmux_target", str target) ∷ ("error", str error) ∷ [])
        (kind
          ++ (" keystroke send to "
              ++ (target ++ (" failed: " ++ (error ++ " (retried next tick)")))))
        (json "[]"))

  abbrev pub after_keys : Binding → String → String → String → Sent → Tree j → Bool × Tree j
  after_keys binding target keystroke kind delivered t =
      (true, command (send_keys target keystroke) t)
  after_keys binding target keystroke kind exited t =
      (false, journal_send_failed binding target kind "send-keys exited non-zero (target gone?)" t)
  after_keys binding target keystroke kind (raised error) t =
      (false, journal_send_failed binding target kind error t)

  abbrev pub deliver_to : Site → Binding → Value → String → String → Tree j → Bool × Tree j
  deliver_to site binding (str target) keystroke kind t =
      if str_eq target ""
      then (false, t)
      else after_keys binding target keystroke kind (site.send target keystroke) t
  deliver_to site binding target keystroke kind t = (false, t)

  -- Whether the keys have been delivered. A send that fails has a row.
  unfoldable pub deliver_keystroke : Site → Binding → String → String → Tree j → Bool × Tree j
  unfolding journal_send_failed
  deliver_keystroke site binding keystroke kind t =
      deliver_to site binding (or_null (Dict.get "tmux_target" binding)) keystroke kind t

  -- A delivered nudge is not acked: what it covers is pending until the transcript grows.
  abbrev pub after_delivery : Site → String → Binding → ℕ → Bool × Tree j → Result (Tree j)
  after_delivery site address live size_before_send (false, t) = ok t
  after_delivery site address live size_before_send (true, t) = do
    (result, t') ←
        on_world
          (record_wake_pending j address size_before_send
            (transcript_size site (or_null (Dict.get "transcript_path" live))) null)
          t
    ok t'

  abbrev pub nudge_live : Site → String → ℕ → Option Binding → Tree j → Result (Tree j)
  nudge_live site address size_before_send none t = ok t
  nudge_live site address size_before_send (some live) t =
      after_delivery site address live size_before_send
        (deliver_keystroke site live (wake_keystroke address) "wake" t)

  abbrev pub nudge_inbox :
      Site → String → Binding → Option (List Message) → Tree j → Result (Tree j)
  nudge_inbox site address binding none t = ok t
  nudge_inbox site address binding (some lines) t =
      nudge_live site address (lines_size site lines)
        (send_fence_open address binding t.world.bindings) t

  unfoldable pub nudge : Site → String → Binding → Tree j → Result (Tree j)
  unfolding prod_precondition lines_size send_fence_open deliver_keystroke wake_keystroke
      record_wake_pending
  nudge site address binding t =
      if not (prod_precondition site binding)
      then ok t
      else nudge_inbox site address binding (Dict.get (inbox_path address) t.inboxes) t

  -- An inbox that cannot be read has nothing to wake for.
  abbrev pub if_unacked : Result Bool → Tree j → Result (Tree j) → Result (Tree j)
  if_unacked (err e) t next = ok t
  if_unacked (ok false) t next = ok t
  if_unacked (ok true) t next = next

  abbrev pub verified : Site → String → Binding → Value → Option Binding → Tree j → Result (Tree j)
  verified site address binding pending none t = ok t
  verified site address binding pending (some live) t = do
    offset ← number pending
    (result, t') ← on_world (ack_inbox j address offset null) t
    if_unacked (inbox_has_unacked j site address (acked offset binding) t') t'
        (nudge site address (acked offset binding) t')

  abbrev pub owed : Site → String → Binding → Value → Tree j → Result (Tree j)
  owed site address binding pending t = do
    baseline ← num_or 0 (or_null (Dict.get "wake_sent_transcript_size" binding))
    if confirm_prod_worked site binding baseline
        then verified site address binding pending
            (send_fence_open address binding t.world.bindings) t
        else nudge site address binding t

  -- The nudge that is owed a verification is resolved before a new one.
  abbrev pub resolve : Site → String → Binding → Value → Tree j → Result (Tree j)
  resolve site address binding null t = nudge site address binding t
  resolve site address binding pending t = owed site address binding pending t

  unfoldable pub wake_on_unacked_inbox : Site → String → Binding → Tree j → Result (Tree j)
  unfolding inbox_has_unacked subtree_paused confirm_prod_worked send_fence_open ack_inbox nudge
  wake_on_unacked_inbox site address binding t =
      if_unacked (inbox_has_unacked j site address binding t) t (
        if subtree_paused address t.world.bindings
        then ok t
        else resolve site address binding (or_null (Dict.get "wake_pending_ack_offset" binding)) t)
