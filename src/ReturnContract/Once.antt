-- ===== src/ReturnContract/Once.antt =====
-- How often `journal_defects_once` of harnessd/return_contract.py writes for one signal.
use Prim.Native.String as Text
use long_horizon_agentic_har.Prelude.{
  some, String, str_eq, true, false, List, [], ◌∷◌, ◌++◌, ◌≡◌, refl, arith, eq_refl, Bool-cases,
  inl, inr, map, take,
}
use long_horizon_agentic_har.Strings.{contains, contains-append, join}
use long_horizon_agentic_har.Result.{ok}
use long_horizon_agentic_har.Value.{Value, null, str, json}
use long_horizon_agentic_har.Dict
use long_horizon_agentic_har.Dict.{Dict, get-set_self}
use long_horizon_agentic_har.Addressing.Paths.{inbox_path}
use long_horizon_agentic_har.Validate.{or_null}
use long_horizon_agentic_har.Ledger.{Entry, build_wal_record}
use long_horizon_agentic_har.Ledger.File.{seq_after}
use long_horizon_agentic_har.Ledger.Journal.{Journal}
use long_horizon_agentic_har.Executor.{Binding, World, next_seq, append_row}
use long_horizon_agentic_har.Executor.OwnSlice.{journal}
use long_horizon_agentic_har.Runtime.{Tree, lines_of, append_line, set_world}
use long_horizon_agentic_har.ReturnContract.Trace.{Defect, tag}
use long_horizon_agentic_har.ReturnContract.{
  contract_event, refusal_line, is_refusal, any_refusal, refusal_summary, journal_defects_once,
}

any_refusal-snoc :
    (a : String) (ts : Value) (es : List Entry) (e : Entry)
    → is_refusal a ts e ≡ true
    → any_refusal a ts (es ++ (e ∷ [])) ≡ true
unfolding any_refusal
any_refusal-snoc a ts [] e h = rw h refl
any_refusal-snoc a ts (d ∷ es) e h = let tail = any_refusal-snoc a ts es e h in ground arith

summary-names_ts :
    (a ts : String) (defects : List Defect)
    → contains ts (refusal_summary a (str ts) defects) ≡ true
summary-names_ts a ts defects =
    contains-append (Text.◌++◌ "return contract REFUSED collapse for " (Text.◌++◌ a " (signal ts "))
      ts (Text.◌++◌ "): " (join "; " (map tag (take 5 defects))))

module _ (j : Journal) where
  -- Where the run-ledger stands for entries, a `journal` call appends a row of its event, its
  -- address and its summary.
  journal-Stands :
      (a event : String) (from_state to_state epoch token : Value) (delta : Dict Value)
      (summary : String) (w : World j) (es : List Entry)
      → j.Stands w.wal es
      → (e : Entry) × (w' : World j) × (journal j a event from_state to_state epoch token delta
            summary
            (json "[]")
            w
          ≡ ok w')
        × j.Stands w'.wal (es ++ (e ∷ []))
        × (e.event ≡ event)
        × (e.node_address ≡ a)
        × (e.summary ≡ summary)
  unfolding journal next_seq append_row build_wal_record
  journal-Stands a event from_state to_state epoch token delta summary w es stands =
      let e = build_wal_record j.crc w.now (record {
        seq = seq_after es;
        node_address = a;
        event = event;
        from_state = from_state;
        to_state = to_state;
        expected_generation = null;
        generation = null;
        lease_epoch = epoch;
        owner_token = token;
        binding_delta = delta;
        summary = summary;
        artifacts = json "[]";
      }) in
      let (f, ef, standing) = j.append-Stands w.wal es e stands refl in
      (
        e,
        record w { wal = f },
        rw (j.load-Stands w.wal es stands) (rw ef refl),
        standing,
        refl,
        refl,
        refl,
      )

  -- For a signal that has a ts, a second poll writes nothing, whatever defects it has found.
  pub journal_defects_once_again :
      (a ts : String) (binding later : Binding) (defects others : List Defect) (t : Tree j)
      (es : List Entry)
      → j.Stands t.world.wal es
      → str_eq ts "" ≡ false
      → journal_defects_once j a later
          (str ts)
          others
          (journal_defects_once j a binding (str ts) defects t).1
        ≡ (false, (journal_defects_once j a binding (str ts) defects t).1)
  unfolding journal_defects_once is_refusal
  journal_defects_once_again a ts binding later defects others t es stands named =
      elim (Bool-cases (any_refusal a (str ts) es)) [
        | inl h ↦
            rw (j.load-Stands t.world.wal es stands)
              (rw h (rw (j.load-Stands t.world.wal es stands) (rw h refl)))
        | inr h ↦
            let state = or_null (Dict.get "state" binding) in
            let (e, w', wrote, standing, ev, ad, su) =
              journal-Stands a contract_event state state (or_null (Dict.get "lease_epoch" binding))
                null (("defects", json (join ", " (map tag (take 10 defects)))) ∷ [])
                (refusal_summary a (str ts) defects) t.world es stands in
            let row : is_refusal a (str ts) e ≡ true =
              rw (ev, ad, su, eq_refl a, named, summary-names_ts a ts defects) refl in
            rw (j.load-Stands t.world.wal es stands) (
              rw h (
                rw wrote (
                  rw (j.load-Stands w'.wal _ standing)
                    (rw (any_refusal-snoc a (str ts) es e row) refl))))
      ]

  unnamed_refusal : (a : String) (es : List Entry) → any_refusal a null es ≡ false
  unfolding any_refusal is_refusal
  unnamed_refusal a [] = refl
  unnamed_refusal a (e ∷ es) = let later = unnamed_refusal a es in ground arith

  -- What a poll writes: one more row of a refusal at the node, and one more line in its inbox.
  pub record Refused (a : String) (defects : List Defect) (t t' : Tree j) (es : List Entry)
      : Type 0 where
    pub row : Entry
    pub stands : j.Stands t'.world.wal (es ++ (row ∷ []))
    pub event : row.event ≡ contract_event
    pub address : row.node_address ≡ a
    pub line :
        Dict.get (inbox_path a) t'.inboxes
        ≡ some (lines_of (Dict.get (inbox_path a) t.inboxes) ++ (refusal_line defects ∷ []))

  -- For a signal that has no ts, each poll of a readable run-ledger writes a row and an inbox line,
  -- whatever rows there are.
  pub journal_defects_once_unstamped :
      (a : String) (binding : Binding) (defects : List Defect) (t : Tree j) (es : List Entry)
      → j.Stands t.world.wal es
      → (t' : Tree j) × (journal_defects_once j a binding null defects t ≡ (true, t'))
        × Refused a defects t t' es
  unfolding journal_defects_once
  journal_defects_once_unstamped a binding defects t es stands =
      let state = or_null (Dict.get "state" binding) in
      let (e, w', wrote, standing, ev, ad, su) =
        journal-Stands a contract_event state state (or_null (Dict.get "lease_epoch" binding)) null
          (("defects", json (join ", " (map tag (take 10 defects)))) ∷ [])
          (refusal_summary a null defects) t.world es stands in
      (
        append_line (inbox_path a) (refusal_line defects) (set_world w' t),
        rw (j.load-Stands t.world.wal es stands) (rw (unnamed_refusal a es) (rw wrote refl)),
        record {
          row = e;
          stands = standing;
          event = ev;
          address = ad;
          line = get-set_self (inbox_path a) _ t.inboxes;
        },
      )
