-- ===== src/Executor/Transition/Candidate.antt =====
-- The candidate that `transition` of harnessd/executor.py builds, key by key, and its commit.
use long_horizon_agentic_har.Prelude.{
  ℕ, String, str_eq, not, ◌&&◌, some, List, [], ◌∷◌, ◌++◌, ◌≡◌, refl, ◌∙◌, ap, if◌then◌else◌,
  Bool-cases, inl, inr,
}
use long_horizon_agentic_har.Result.{ok, ◌>>=◌, >>=-eq-ok, Result-cases, ok-inj}
use long_horizon_agentic_har.Value.{Value, null, num, str, is_null, plus_one}
use long_horizon_agentic_har.Dict
use long_horizon_agentic_har.Dict.{Dict, get-set, get-update, or_else}
use long_horizon_agentic_har.Validate.{Notice, Report, validate}
use long_horizon_agentic_har.Ledger.{Row, Entry, build_wal_record}
use long_horizon_agentic_har.Ledger.Journal.{Journal}
use long_horizon_agentic_har.Executor.{Binding, World, next_seq, commit}
use long_horizon_agentic_har.Executor.Transition.{
  Request, admit, set_given, build_candidate, transition_row, decide_report, decide_candidate,
}

get-set_given :
    (k j : String) (v : Value) (d : Binding)
    → Dict.get j (set_given k v d)
      ≡ (if str_eq k j && not (is_null v) then some v else Dict.get j d)
get-set_given k j null d = elim (Bool-cases (str_eq k j)) [ inl e ↦ rw e refl | inr e ↦ rw e refl ]
get-set_given k j v d = elim (Bool-cases (str_eq k j)) [
  | inl e ↦ rw (get-set, e) refl
  | inr e ↦ rw (get-set, e) refl
]

module _ (r : Request) (b : Binding) (next : Value) where
  -- Each key of the candidate.
  pub get-build_candidate :
      (k : String)
      → Dict.get k (build_candidate r b next) ≡ (
          if str_eq "owner_token" k && not (is_null r.new_owner_token)
          then some r.new_owner_token
          else if str_eq "lease_epoch" k && not (is_null r.new_lease_epoch)
          then some r.new_lease_epoch
          else if str_eq "generation" k
          then some next
          else if str_eq "state" k
          then some (str r.target_state)
          else if str_eq "node_address" k
          then some (str r.node_address)
          else or_else (Dict.get k r.binding_delta) (Dict.get k b))
  unfolding build_candidate
  get-build_candidate k = simp (get-set_given, get-set, get-update)

module _ (j : Journal) where
  -- A commit appends the intent and writes the stamped candidate under its own address only.
  pub commit_lem :
      (c : Binding) (row : Row) (w : World j) (a : String)
      → Dict.get "node_address" c ≡ some (str a)
      → commit j c row w ≡ (do
        wal ← j.append (build_wal_record j.crc w.now row) w.wal
        ok (
          Dict.set "last_applied_seq" (num row.seq) c,
          record w {
            wal = wal;
            bindings = Dict.set a (Dict.set "last_applied_seq" (num row.seq) c) w.bindings;
          },
        ))
  unfolding commit
  commit_lem c row w a h = elim (Result-cases (j.append (build_wal_record j.crc w.now row) w.wal)) [
    | inl (f, e) ↦ simp (e, get-set, h)
    | inr (x, e) ↦ rw e refl
  ]

  -- What an admitted request went through.
  pub record Admitted (r : Request) (b : Binding) (w : World j) (c : Binding) (row : Row)
      (ws : List Notice) : Type 0 where
    pub next : Value
    pub seq : ℕ
    pub entries : List Entry
    pub next_is : plus_one r.expected_generation ≡ ok next
    pub seq_is : next_seq j w ≡ ok seq
    pub loaded : j.load w.wal ≡ ok entries
    pub candidate_is : c ≡ build_candidate r b next
    pub row_is : row ≡ transition_row r (build_candidate r b next) r.expected_state next seq
    pub valid :
        validate (build_candidate r b next) (
          entries
          ++ (build_wal_record j.crc w.now
                (transition_row r (build_candidate r b next) r.expected_state next seq)
              ∷ []))
        ≡ ok ([], ws)

  report_admit :
      (c c' : Binding) (row row' : Row) (ws : List Notice) (rep : Report)
      → decide_report c row rep ≡ admit c' row' ws
      → (c' ≡ c) × (row' ≡ row) × (rep ≡ ([], ws))
  report_admit c c' row row' ws ([], ns) h = (cc, cc, cc)
  report_admit c c' row row' ws (x ∷ xs, ns) h = cc

  pub decide_candidate-Admitted :
      (r : Request) (b : Binding) (w : World j) (c : Binding) (row : Row) (ws : List Notice)
      → decide_candidate j r b r.expected_state r.expected_generation w ≡ ok (admit c row ws)
      → Admitted r b w c row ws
  unfolding decide_candidate
  decide_candidate-Admitted r b w c row ws h =
      let (next, e1, h1) = >>=-eq-ok (plus_one r.expected_generation) _ h in
      let (seq, e2, h2) = >>=-eq-ok (next_seq j w) _ h1 in
      let (entries, e3, h3) = >>=-eq-ok (j.load w.wal) _ h2 in
      let (rep, e4, h4) = >>=-eq-ok (validate _ _) _ h3 in
      let (ec, er, ev) = report_admit _ c _ row ws rep (ok-inj _ _ h4) in
      record {
        next = next;
        seq = seq;
        entries = entries;
        next_is = e1;
        seq_is = e2;
        loaded = e3;
        candidate_is = ec;
        row_is = er;
        valid = e4 ∙ ap ok ev;
      }
