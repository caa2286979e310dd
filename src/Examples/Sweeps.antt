-- ===== src/Examples/Sweeps.antt =====
-- The sweep over one running node.
use long_horizon_agentic_har.Prelude.{arith, true, String, some, [], ◌∷◌, ◌≡◌, refl}
use long_horizon_agentic_har.Result.{Result, ok}
use long_horizon_agentic_har.Value.{num, str}
use long_horizon_agentic_har.Dict
use long_horizon_agentic_har.Dict.{Dict}
use long_horizon_agentic_har.States.{
  is_legal, is_legal_value, allowed_transitions, died_infrastructure,
}
use long_horizon_agentic_har.Decimal
use long_horizon_agentic_har.Fencing.{mint_owner_token, advance_epoch}
use long_horizon_agentic_har.Validate.{validate}
use long_horizon_agentic_har.Ledger.{build_wal_record}
use long_horizon_agentic_har.Executor.{Binding, World, is_stale, commit, next_seq}
use long_horizon_agentic_har.Executor.Transition.{
  transition, decide, decide_candidate, perform, build_candidate, transition_row,
}
use long_horizon_agentic_har.Reconcile.Sweep.{Target, terminal_necro}
use long_horizon_agentic_har.Reconcile.Sweep.Necro.{terminal_necro-fences}
use long_horizon_agentic_har.Examples.Worlds.{list_journal, node, outcome_of}

abbrev running_binding : Binding
running_binding =
    ("node_address", str "p#exec")
    ∷ ("state", str "running")
    ∷ ("generation", num 3)
    ∷ ("owner_token", str "p#exec:s:u:2")
    ∷ ("lease_epoch", num 2)
    ∷ ("subagent_id", str "s")
    ∷ ("session_uuid", str "u")
    ∷ ("tmux_target", str "harness-p-exec:0.0")
    ∷ ("last_applied_seq", num 4)
    ∷ []

abbrev running_world : World list_journal
running_world = record { wal = []; bindings = ("p#exec", running_binding) ∷ []; now = "now" }

abbrev panes : Dict Target
panes = ("harness-p-exec:0.0", ("pane_dead", str "0") ∷ []) ∷ []

abbrev alive : String → Result String
alive a = ok "working"

reaps :
    terminal_necro list_journal died_infrastructure node running_binding running_world
    ≡ ok (
        outcome_of
          (terminal_necro list_journal died_infrastructure node running_binding running_world))
unfolding terminal_necro advance_epoch mint_owner_token Decimal.decimal transition decide
    decide_candidate perform commit validate Dict.get Dict.set Dict.update is_legal_value is_legal
    allowed_transitions next_seq build_candidate transition_row build_wal_record
reaps = refl

reap_commits :
    (outcome_of (
      terminal_necro list_journal died_infrastructure node running_binding
        running_world)).0.committed
    ≡ true
unfolding terminal_necro advance_epoch mint_owner_token Decimal.decimal transition decide
    decide_candidate perform commit validate Dict.get Dict.set Dict.update is_legal_value is_legal
    allowed_transitions next_seq build_candidate transition_row build_wal_record
reap_commits = refl

running_epoch : Dict.get "lease_epoch" running_binding ≡ some (num 2)
unfolding Dict.get
running_epoch = refl

running_token : mint_owner_token node (str "s") (str "u") 2 ≡ ok "p#exec:s:u:2"
unfolding mint_owner_token Decimal.decimal
running_token = refl

terminal_necro-fences_example :
    (stored : Binding) × (Dict.get node
        (outcome_of (
          terminal_necro list_journal died_infrastructure node running_binding
            running_world)).1.bindings
      ≡ some stored)
    × (Dict.get "state" stored ≡ some (str "failed"))
    × (Dict.get "lease_epoch" stored ≡ some (num 3))
    × (is_stale (str "p#exec:s:u:2") stored ≡ ok true)
terminal_necro-fences_example =
    terminal_necro-fences list_journal died_infrastructure node running_binding running_world _ _ 2
      node (str "s") (str "u") 2 "p#exec:s:u:2" reaps reap_commits running_epoch running_token
      (omega arith)
