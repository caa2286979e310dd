-- ===== src/Reconcile/Sweep.antt =====
-- The sweep of harnessd/reconcile.py over the bindings and the live tmux panes.
use Prim.Native.Char.{code}
use Prim.Native.String as Text
use text.Mathlib.Text.{starts_with}
pub mod Necro
pub mod Spares
use long_horizon_agentic_har.Prelude.{
  ℕ, String, str_eq, Bool, true, false, not, ◌&&◌, ◌||◌, leb, Option, none, some, List, [], ◌∷◌,
  ◌++◌, ◌==◌, if◌then◌else◌,
}
use long_horizon_agentic_har.Strings.{is_space}
use long_horizon_agentic_har.Result.{Result, ok, ◌>>=◌}
use long_horizon_agentic_har.Value.{Value, null, bool, num, str, json, same, is_null}
use long_horizon_agentic_har.Dict
use long_horizon_agentic_har.Dict.{Dict}
use long_horizon_agentic_har.States.{
  is_terminal_value, TerminalVocabRow, died_infrastructure, coordinator_died,
}
use long_horizon_agentic_har.Addressing.{partition_hash}
use long_horizon_agentic_har.Validate.{or_null}
use long_horizon_agentic_har.Fencing.{advance_epoch, mint_owner_token}
use long_horizon_agentic_har.Ledger.{Entry}
use long_horizon_agentic_har.Ledger.Journal.{Journal}
use long_horizon_agentic_har.Executor.{Binding, Bindings, World, Reason, TransitionResult}
use long_horizon_agentic_har.Executor.Transition.{Request, transition}
use long_horizon_agentic_har.Reconcile.{replay_wal}

unfoldable pub is_blank : String → Bool
unfolding is_space
is_blank Text.[] = true
is_blank (Text.◌∷◌ c s) = let rest = is_blank s in if is_space (code c) then rest else false

-- value.strip() in ("", "0")
unfoldable pub is_zero_text : String → Bool
unfolding is_blank
is_zero_text Text.[] = true
is_zero_text (Text.◌∷◌ c s) =
    let rest = is_zero_text s in
    if is_space (code c) then rest else if code c == 48 then is_blank s else false

abbrev truthy : Value → Bool
truthy null = false
truthy (bool b) = b
truthy (num n) = not (n == 0)
truthy (str s) = not (is_zero_text s)
truthy (json t) = not (str_eq t "[]" || str_eq t "{}")

abbrev or_zero : Option Value → Value
or_zero none = num 0
or_zero (some v) = v

-- A pane as `tmux.list_targets` describes it.
abbrev pub Target : Type 0
Target = Dict Value

unfoldable pub pane_dead : Target → Bool
unfolding is_zero_text
pane_dead target = truthy (or_zero (Dict.get "pane_dead" target))

unfoldable pub uuid_matches : Binding → Target → Bool
uuid_matches binding target =
    let live_uuid = or_null (Dict.get "session_uuid" target) in
    if is_null live_uuid then true else same live_uuid (or_null (Dict.get "session_uuid" binding))

-- Another binding names this one as its parent.
unfoldable pub names_parent : String → Bindings → Bool
names_parent node_address [] = false
names_parent node_address ((a, b) ∷ bindings) =
    (not (str_eq a node_address) && same (or_null (Dict.get "parent_address" b)) (str node_address))
    || names_parent node_address bindings

-- Another address lies below this one's path.
unfoldable pub has_descendant : String → Bindings → Bool
unfolding partition_hash
has_descendant node_address [] = false
has_descendant node_address ((a, b) ∷ bindings) =
    (not (str_eq a node_address)
      && starts_with (partition_hash a).0 (Text.◌++◌ (partition_hash node_address).0 "/"))
    || has_descendant node_address bindings

unfoldable pub is_coordinator : String → Bindings → Bool
unfolding names_parent has_descendant
is_coordinator node_address bindings =
    names_parent node_address bindings || has_descendant node_address bindings

pub data Kind : Type 0 where
  died_coordinator necro_failed orphan : Kind

pub record Escalation : Type 0 where
  pub node_address : String
  pub kind : Kind
  pub necro_ok : Bool
  pub errors : List Reason

pub record ReconcileReport : Type 0 where
  pub adopted : List String
  pub necroed : List String
  pub escalations : List Escalation

abbrev pub or_text : Option String → String
or_text none = ""
or_text (some s) = s

abbrev signal_delta : Option String → String → Dict Value
signal_delta none now = []
signal_delta (some signal) now =
    ("terminal_signal", str signal) ∷ ("terminal_signal_at", str now) ∷ []

abbrev escalate : Escalation → ReconcileReport → ReconcileReport
escalate e report = record report { escalations = report.escalations ++ (e ∷ []) }

-- What became of an owned node whose pane is dead or gone.
unfoldable pub routed : Bool → String → TransitionResult → ReconcileReport → ReconcileReport
routed true node_address result report =
    escalate
      (record {
        node_address = node_address;
        kind = died_coordinator;
        necro_ok = result.committed;
        errors = result.errors;
      })
      report
routed false node_address result report =
    if result.committed
    then record report { necroed = report.necroed ++ (node_address ∷ []) }
    else escalate
        (record {
          node_address = node_address;
          kind = necro_failed;
          necro_ok = false;
          errors = result.errors;
        })
        report

-- `tmux-present`: the pane is listed and alive.
abbrev pub is_present : Option Target → Bool
is_present none = false
is_present (some target) = not (pane_dead target)

abbrev pub adopt : String → Binding → Option Target → ReconcileReport → ReconcileReport
adopt node_address binding none report = report
adopt node_address binding (some target) report =
    if uuid_matches binding target
    then record report { adopted = report.adopted ++ (node_address ∷ []) }
    else report

-- targets.get(target_name); a name that is no string is no key
abbrev pub target_of : Value → Dict Target → Option Target
target_of (str name) targets = Dict.get name targets
target_of _ targets = none

-- The state of `detector.liveness`, which the tick consults for a present pane; none at boot.
abbrev pub Detector : Type 0
Detector = Option (String → Result String)

abbrev pub still_present : Detector → String → Bool → Result Bool
still_present none node_address present = ok present
still_present (some liveness) node_address false = ok false
still_present (some liveness) node_address true = do
  state ← liveness node_address
  ok (not (str_eq state "dead"))

-- The arguments that `_terminal_necro` gives to `transition`.
abbrev pub necro_request : TerminalVocabRow → String → Value → Value → ℕ → String → String → Request
necro_request row node_address state generation new_lease_epoch new_owner_token now = record {
  node_address = node_address;
  expected_state = state;
  expected_generation = generation;
  expected_owner_token = null;
  target_state = or_text row.state;
  binding_delta =
      ("state", str (or_text row.state))
      ∷ ("liveness_state", str "dead")
      ∷ ("lease_epoch", num new_lease_epoch)
      ∷ ("owner_token", str new_owner_token)
      ∷ signal_delta row.terminal_signal now;
  new_lease_epoch = num new_lease_epoch;
  new_owner_token = str new_owner_token;
  event = row.event;
  summary = "terminal necro";
  artifacts = json "[]";
}

module _ (j : Journal) where
  unfoldable pub terminal_necro :
      TerminalVocabRow → String → Binding → World j → Result (TransitionResult × World j)
  terminal_necro row node_address binding w = do
    new_lease_epoch ← advance_epoch binding
    new_owner_token ←
        mint_owner_token node_address (or_null (Dict.get "subagent_id" binding))
          (or_null (Dict.get "session_uuid" binding)) new_lease_epoch
    state ← Dict.index binding "state"
    generation ← Dict.index binding "generation"
    transition j
        (necro_request row node_address state generation new_lease_epoch new_owner_token w.now) w

  abbrev pub necro_node :
      Bool → String → Binding → ReconcileReport → World j → Result (ReconcileReport × World j)
  necro_node coordinator node_address binding report w = do
    (result, w') ←
        terminal_necro (if coordinator then coordinator_died else died_infrastructure) node_address
          binding w
    ok (routed coordinator node_address result report, w')

  abbrev pub sweep_live :
      Bindings
      → String
      → Binding
      → Option Target
      → ReconcileReport
      → World j
      → Bool
      → Result (ReconcileReport × World j)
  sweep_live bindings node_address binding target report w true =
      ok (adopt node_address binding target report, w)
  sweep_live bindings node_address binding target report w false =
      necro_node (is_coordinator node_address bindings) node_address binding report w

  -- One binding of the sweep; `bindings` is the map as the sweep found it.
  unfoldable pub sweep_node :
      Dict Target
      → Detector
      → Bindings
      → String
      → Binding
      → ReconcileReport
      → World j
      → Result (ReconcileReport × World j)
  sweep_node targets detector bindings node_address binding report w =
      let state = or_null (Dict.get "state" binding) in
      if is_terminal_value state || same state (str "planned")
      then ok (report, w)
      else (let target = target_of (or_null (Dict.get "tmux_target" binding)) targets in
          do
            present ← still_present detector node_address (is_present target)
            sweep_live bindings node_address binding target report w present)

  unfoldable pub sweep_nodes :
      Dict Target
      → Detector
      → Bindings
      → Bindings
      → ReconcileReport
      → World j
      → Result (ReconcileReport × World j)
  sweep_nodes targets detector bindings [] report w = ok (report, w)
  sweep_nodes targets detector bindings ((a, b) ∷ rest) report w = do
    (report', w') ← sweep_node targets detector bindings a b report w
    sweep_nodes targets detector bindings rest report' w'

  -- target_name in owned_targets, which has no empty name
  unfoldable pub is_owned : String → Bindings → Bool
  is_owned target_name [] = false
  is_owned target_name ((a, b) ∷ bindings) =
      (not (str_eq target_name "") && same (or_null (Dict.get "tmux_target" b)) (str target_name))
      || is_owned target_name bindings

  unfoldable pub add_orphans : Dict Target → Bindings → ReconcileReport → ReconcileReport
  unfolding is_owned pane_dead
  add_orphans [] bindings report = report
  add_orphans ((name, target) ∷ targets) bindings report = add_orphans targets bindings (
      if is_owned name bindings || pane_dead target
      then report
      else escalate (record { node_address = name; kind = orphan; necro_ok = false; errors = [] })
          report)

  -- The boot checkpoint: the replayed map is written if the run-ledger has any entry.
  abbrev pub replayed_map : List Entry → Bindings → Result Bindings
  replayed_map [] bindings = ok bindings
  replayed_map (e ∷ es) bindings = replay_wal bindings (e ∷ es)

  unfoldable pub boot_replay : Bool → World j → Result (World j)
  boot_replay false w = ok w
  boot_replay true w = do
    wal ← j.load w.wal
    bindings ← replayed_map wal w.bindings
    ok (record w { bindings = bindings })

  unfoldable pub reconcile :
      Bool → Detector → Dict Target → World j → Result (ReconcileReport × World j)
  unfolding boot_replay sweep_nodes add_orphans
  reconcile replay detector targets w = do
    w0 ← boot_replay replay w
    (report, w1) ←
        sweep_nodes targets detector w0.bindings w0.bindings
          (record { adopted = []; necroed = []; escalations = [] }) w0
    ok (add_orphans targets w0.bindings report, w1)

  unfoldable pub reconcile_on_restart : Dict Target → World j → Result (ReconcileReport × World j)
  unfolding reconcile
  reconcile_on_restart = reconcile true none

  unfoldable pub reconcile_tick :
      (String → Result String) → Dict Target → World j → Result (ReconcileReport × World j)
  unfolding reconcile
  reconcile_tick liveness = reconcile false (some liveness)
