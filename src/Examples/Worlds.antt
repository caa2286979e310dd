-- ===== src/Examples/Worlds.antt =====
-- A run-ledger that is a list, and a world with one planned node.
use long_horizon_agentic_har.Prelude.{
  String, str_eq, none, some, List, [], ◌∷◌, ◌++◌, ◌≡◌, refl, ap, subst, Bool-cases, inl, inr,
  arith,
}
use long_horizon_agentic_har.Result.{Result, ok, err}
use long_horizon_agentic_har.Value.{num, str}
use long_horizon_agentic_har.Dict
use long_horizon_agentic_har.Ledger.{Entry}
use long_horizon_agentic_har.Ledger.File.{seq_after}
use long_horizon_agentic_har.Ledger.Journal.{Journal}
use long_horizon_agentic_har.Executor.{Binding, World, TransitionResult, refused, absent}
use long_horizon_agentic_har.Reconcile.{apply_all, events_of}
use long_horizon_agentic_har.Reconcile.Synced.{Current, IsSynced}

abbrev pub list_journal : Journal
list_journal = record {
  File = List Entry;
  crc = λ c. 0;
  load = λ f. ok f;
  append = λ e f. ok (f ++ (e ∷ []));
  Stands = λ f es. f ≡ es;
  load-Stands = λ f es h. ap ok h;
  append-Stands = λ f es e h s. (f ++ (e ∷ []), refl, ap (λ x. x ++ (e ∷ [])) h);
}

abbrev pub node : String
node = "p#exec"

abbrev pub planned_binding : Binding
planned_binding =
    ("node_address", str "p#exec")
    ∷ ("state", str "planned")
    ∷ ("generation", num 0)
    ∷ ("owner_token", str "p#exec:s:u:0")
    ∷ ("lease_epoch", num 0)
    ∷ ("subagent_id", str "s")
    ∷ ("session_uuid", str "u")
    ∷ ("last_applied_seq", num 0)
    ∷ []

abbrev pub planned_world : World list_journal
planned_world = record { wal = []; bindings = ("p#exec", planned_binding) ∷ []; now = "now" }

abbrev pub outcome_of :
    Result (TransitionResult × World list_journal) → TransitionResult × World list_journal
outcome_of (ok x) = x
outcome_of (err e) = (refused absent none, planned_world)

planned_only :
    (a : String) (b : Binding) → Dict.get a planned_world.bindings ≡ some b → planned_binding ≡ b
unfolding Dict.get
planned_only a b h = elim (Bool-cases (str_eq "p#exec" a)) [
  | inl e ↦ let found : some planned_binding ≡ some b = rw e at h in cc
  | inr e ↦ let gone : none ≡ some b = rw e at h in cc
]

planned_Current : (a : String) → Current a planned_binding []
unfolding Dict.get seq_after apply_all events_of
planned_Current a = record { mark = 0; mark_is = refl; mark_below = omega arith; settled = refl }

pub planned_world-IsSynced : IsSynced list_journal planned_world []
planned_world-IsSynced = record {
  stands = refl;
  increasing = tt;
  current = λ a b h. subst (λ x. Current a x []) (planned_only a b h) (planned_Current a);
}
