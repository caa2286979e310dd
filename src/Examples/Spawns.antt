-- ===== src/Examples/Spawns.antt =====
-- The spawn chokepoint at one node.
use long_horizon_agentic_har.Prelude.{
  ℕ, ◌<◌, str_eq, true, false, Option, none, some, [], ◌∷◌, ◌≡◌, refl, arith, All, ◌↔◌, length,
}
use long_horizon_agentic_har.Result.{ok}
use long_horizon_agentic_har.Value.{null, num, str, is_null}
use long_horizon_agentic_har.Dict
use long_horizon_agentic_har.Validate.{or_null}
use long_horizon_agentic_har.Ledger.{Entry}
use long_horizon_agentic_har.Executor.{Binding, Bindings, World, TransitionResult, refused, absent}
use long_horizon_agentic_har.Executor.Transition.{transition}
use long_horizon_agentic_har.Runtime.{Tree}
use long_horizon_agentic_har.Detector.Signals.{ts_is_newer}
use long_horizon_agentic_har.Chokepoint.{subtree_paused, walk, ancestors_inclusive}
use long_horizon_agentic_har.Chokepoint.Ancestors.{ancestors_inclusive_enough}
use long_horizon_agentic_har.Chokepoint.Pause.{Ancestor, subtree_paused-Ancestor}
use long_horizon_agentic_har.Chokepoint.Collapse.{escalate, collapse}
use long_horizon_agentic_har.Chokepoint.Collapse.Again.{escalate_again}
use long_horizon_agentic_har.Chokepoint.Claim.{reregister_identity_seed}
use long_horizon_agentic_har.Chokepoint.Claim.Seed.{
  Superseded, IsOutlived, reregister_identity_seed-Superseded,
}
use long_horizon_agentic_har.Chokepoint.Kickoff.{SpawnResult, result_failed}
use long_horizon_agentic_har.Chokepoint.Children.{resume}
use long_horizon_agentic_har.Chokepoint.Spawn.Fresh.{AllFresh}
use long_horizon_agentic_har.Chokepoint.Children.Firewall.{resume-AllFresh}
use long_horizon_agentic_har.Examples.Worlds.{list_journal}
use long_horizon_agentic_har.Examples.Nodes.{
  site, spawner, level, leaf, tree_of, leaf_tree, returned,
}

-- Each is the parent of the other.
abbrev circle : Bindings
circle =
    ("p#exec", ("parent_address", str "q#exec") ∷ [])
    ∷ ("q#exec", ("parent_address", str "p#exec") ∷ ("paused_at", str "t0") ∷ [])
    ∷ []

plenty : length circle < 9
plenty = omega arith

ancestors_inclusive_enough_example :
    walk 9 [] (str "p#exec") circle ≡ ancestors_inclusive "p#exec" circle
ancestors_inclusive_enough_example = ancestors_inclusive_enough "p#exec" circle 9 plenty

subtree_paused-Ancestor_example : (subtree_paused "p#exec" circle ≡ true) ↔ (
    (c : Binding) × Ancestor circle "p#exec" c
    × (is_null (or_null (Dict.get "paused_at" c)) ≡ false))
subtree_paused-Ancestor_example = subtree_paused-Ancestor "p#exec" circle

abbrev nothing : Option TransitionResult
nothing = none

abbrev unset : TransitionResult
unset = refused absent none

abbrev result_or : TransitionResult → Option TransitionResult → TransitionResult
result_or default none = default
result_or default (some r) = r

abbrev collapses : Option TransitionResult × Tree list_journal
collapses =
    returned nothing (collapse list_journal site "p#exec" "DONE" (str "p#exec:s:u:2") leaf_tree)

abbrev escalates : Option TransitionResult × Tree list_journal
escalates =
    returned nothing (escalate list_journal site "p#exec" (str "p#exec:s:u:2") (str "t0") leaf_tree)

escalates_is :
    escalate list_journal site "p#exec" (str "p#exec:s:u:2") (str "t0") leaf_tree
    ≡ ok (some (result_or unset escalates.0), escalates.1)
unfolding escalate Dict.get long_horizon_agentic_har.Executor.Transition.decide
    long_horizon_agentic_har.Executor.Transition.decide_candidate
    long_horizon_agentic_har.Validate.validate Dict.set Dict.update
    long_horizon_agentic_har.Executor.Transition.perform
    long_horizon_agentic_har.Validate.is_slot_hold
escalates_is = refl

escalates_committed : (result_or unset escalates.0).committed ≡ true
unfolding escalate Dict.get long_horizon_agentic_har.Executor.Transition.decide
    long_horizon_agentic_har.Executor.Transition.decide_candidate
    long_horizon_agentic_har.Validate.validate Dict.set Dict.update
    long_horizon_agentic_har.Executor.Transition.perform
    long_horizon_agentic_har.Validate.is_slot_hold
escalates_committed = refl

older : ts_is_newer site (str "t0") (str "t1") ≡ false
unfolding ts_is_newer
older = refl

escalate_again_example :
    escalate list_journal site "p#exec" null (str "t0") escalates.1 ≡ ok (none, escalates.1)
escalate_again_example =
    escalate_again list_journal site "p#exec" (str "p#exec:s:u:2") null (str "t0") leaf_tree
      (result_or unset escalates.0) escalates.1 escalates_is escalates_committed older

abbrev crossed : Binding
crossed = ("gate_crossed_at", str "t0") ∷ ("state", str "planned") ∷ leaf

abbrev failed_result : SpawnResult
failed_result = result_failed "" "" ""

abbrev resumes : SpawnResult × Tree list_journal
resumes = returned failed_result (
    resume list_journal site spawner "p#exec" (str "planned") (num 3) (str "p#exec:s:u:2") level
      (tree_of crossed))

resumes_is :
    resume list_journal site spawner "p#exec"
      (str "planned")
      (num 3)
      (str "p#exec:s:u:2")
      level
      (tree_of crossed)
    ≡ ok resumes
unfolding resume long_horizon_agentic_har.Chokepoint.mem Dict.get
    long_horizon_agentic_har.Fencing.advance_epoch long_horizon_agentic_har.Fencing.mint_owner_token
    long_horizon_agentic_har.Executor.Transition.decide
    long_horizon_agentic_har.States.is_legal_value long_horizon_agentic_har.States.is_legal
    long_horizon_agentic_har.States.allowed_transitions
    long_horizon_agentic_har.Executor.Transition.perform
    long_horizon_agentic_har.Executor.Transition.decide_candidate
    long_horizon_agentic_har.Validate.validate Dict.update long_horizon_agentic_har.Decimal.decimal
resumes_is = refl

crossed_found : Dict.get "p#exec" (tree_of crossed).world.bindings ≡ some crossed
unfolding Dict.get
crossed_found = refl

crossed_gate : is_null (or_null (Dict.get "gate_crossed_at" crossed)) ≡ false
unfolding Dict.get
crossed_gate = refl

resume-AllFresh_example : AllFresh resumes.1
resume-AllFresh_example =
    resume-AllFresh list_journal site spawner "p#exec" (str "planned") (num 3) (str "p#exec:s:u:2")
      level (tree_of crossed) resumes.0 resumes.1 crossed resumes_is crossed_found crossed_gate tt

abbrev earlier : Entry
earlier = record {
  content = record {
    ts = "t0";
    actor = "harnessd";
    row = record {
      seq = 7;
      node_address = "p#exec";
      event = "heartbeat";
      from_state = str "running";
      to_state = str "running";
      expected_generation = num 2;
      generation = num 2;
      lease_epoch = num 5;
      owner_token = str "p#exec:s:u:5";
      binding_delta = [];
      summary = "heartbeat";
      artifacts = null;
    };
  };
  crc32 = some 0;
}

abbrev earlier_world : World list_journal
earlier_world = record { wal = earlier ∷ []; bindings = ("p#exec", leaf) ∷ []; now = "t1" }

abbrev seeds : ℕ × ℕ
seeds = (6, 7)

seeds_is : reregister_identity_seed list_journal "p#exec" earlier_world ≡ ok seeds
unfolding reregister_identity_seed Dict.get
seeds_is = refl

reregister_identity_seed-Superseded_example :
    All (Superseded "p#exec" seeds) (earlier ∷ [])
    × IsOutlived seeds (Dict.get "p#exec" earlier_world.bindings)
reregister_identity_seed-Superseded_example =
    reregister_identity_seed-Superseded list_journal "p#exec" earlier_world (earlier ∷ []) seeds
      refl seeds_is

reopened : str_eq resumes.0.tmux_target "harness-p-exec" ≡ true
unfolding resume long_horizon_agentic_har.Chokepoint.mem Dict.get
    long_horizon_agentic_har.Fencing.advance_epoch long_horizon_agentic_har.Fencing.mint_owner_token
    long_horizon_agentic_har.Executor.Transition.decide
    long_horizon_agentic_har.States.is_legal_value long_horizon_agentic_har.States.is_legal
    long_horizon_agentic_har.States.allowed_transitions
    long_horizon_agentic_har.Executor.Transition.decide_candidate
    long_horizon_agentic_har.Validate.validate Dict.update
    long_horizon_agentic_har.Executor.Transition.perform long_horizon_agentic_har.Decimal.decimal
reopened = refl
