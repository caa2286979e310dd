-- ===== src/Executor/Transition/Outcome.antt =====
-- The two outcomes of `transition` of harnessd/executor.py: a commit and an abort.
use long_horizon_agentic_har.Prelude.{
  ℕ, String, true, false, none, some, List, [], ◌∷◌, ◌≡◌, ◌⊎◌, inl, inr, refl, sym, ◌∙◌, ap, subst,
  Option-cases,
}
use long_horizon_agentic_har.Result.{ok, >>=-eq-ok, ok-inj}
use long_horizon_agentic_har.Value.{Value, num, str, plus_one}
use long_horizon_agentic_har.Dict
use long_horizon_agentic_har.Dict.{Dict, get-set}
use long_horizon_agentic_har.Validate.{Notice}
use long_horizon_agentic_har.Validate.Sound.{Admissible, validate-Admissible}
use long_horizon_agentic_har.Ledger.{Row, Entry, build_wal_record}
use long_horizon_agentic_har.Ledger.Journal.{Journal}
use long_horizon_agentic_har.Executor.{
  Binding, World, fencing, absent, TransitionResult, refused, next_seq, append_row, commit, fence,
}
use long_horizon_agentic_har.Executor.Transition.{
  Request, Decision, refuse, stale, admit, build_candidate, transition_row, decide, perform,
  transition, transition_found,
}
use long_horizon_agentic_har.Executor.Transition.Cas.{Passed, decide-Passed}
use long_horizon_agentic_har.Executor.Transition.Candidate.{
  get-build_candidate, commit_lem, decide_candidate-Admitted,
}

-- The candidate with its replay watermark.
abbrev pub stamped : Request → Binding → Value → ℕ → Binding
stamped r live next seq = Dict.set "last_applied_seq" (num seq) (build_candidate r live next)

-- The row of a commit.
abbrev pub entry_of : (j : Journal) → Request → World j → Binding → Value → ℕ → Entry
entry_of j r w live next seq =
    build_wal_record j.crc w.now
      (transition_row r (build_candidate r live next) r.expected_state next seq)

module _ (j : Journal) where
  -- The live binding passed every gate, its successor is written under its address and nowhere
  -- else, and the run-ledger has one more row.
  pub record Committed (r : Request) (w : World j) (res : TransitionResult) (w' : World j)
      : Type 0 where
    pub live : Binding
    pub found : Dict.get r.node_address w.bindings ≡ some live
    pub passed : Passed j r live
    pub next : Value
    pub next_is : plus_one r.expected_generation ≡ ok next
    pub seq : ℕ
    pub seq_is : next_seq j w ≡ ok seq
    pub bindings : w'.bindings ≡ Dict.set r.node_address (stamped r live next seq) w.bindings
    pub wal : j.append (entry_of j r w live next seq) w.wal ≡ ok w'.wal
    pub admissible : Admissible (build_candidate r live next) (entry_of j r w live next seq)
    pub result : res.binding ≡ some (stamped r live next seq)

  commit_parts :
      (c : Binding) (row : Row) (w : World j) (a : String) (s : Binding) (w' : World j)
      → Dict.get "node_address" c ≡ some (str a)
      → commit j c row w ≡ ok (s, w')
      → (s ≡ Dict.set "last_applied_seq" (num row.seq) c)
        × (w'.bindings ≡ Dict.set a (Dict.set "last_applied_seq" (num row.seq) c) w.bindings)
        × (j.append (build_wal_record j.crc w.now row) w.wal ≡ ok w'.wal)
  commit_parts c row w a s w' h e =
      let (f, ef, k) =
        >>=-eq-ok (j.append (build_wal_record j.crc w.now row) w.wal) _
          (rw (commit_lem j c row w a h) at e) in
      let q = ok-inj _ _ k in
      (
        sym (ap (λ (x : Binding × World j). x.0) q),
        sym (ap (λ (x : Binding × World j). x.1.bindings) q),
        ef ∙ ap (λ (x : Binding × World j). ok x.1.wal) q,
      )

  perform_committed :
      (r : Request) (b : Binding) (d : Decision) (w : World j) (res : TransitionResult)
      (w' : World j)
      → perform j r b d w ≡ ok (res, w')
      → res.committed ≡ true
      → (c : Binding) × (row : Row) × (ws : List Notice) × (s : Binding) × (d ≡ admit c row ws)
        × (commit j c row w ≡ ok (s, w'))
        × (res.binding ≡ some s)
  unfolding perform
  perform_committed r b (refuse es ws) w res w' h t = cc
  perform_committed r b stale w res w' h t =
      let (f, ef, k) = >>=-eq-ok (fence j _ _ _ _ _ w) _ h in cc
  perform_committed r b (admit c row ws) w res w' h t =
      let (p, ep, k) = >>=-eq-ok (commit j c row w) _ h in
      let q = ok-inj _ _ k in
      (
        c,
        row,
        ws,
        p.0,
        refl,
        ep ∙ ap (λ (x : TransitionResult × World j). ok (p.0, x.1)) q,
        sym (ap (λ (x : TransitionResult × World j). x.0.binding) q),
      )

  Committed-of :
      (r : Request) (w : World j) (res : TransitionResult) (w' : World j) (b : Binding)
      (c : Binding) (row : Row) (ws : List Notice) (s : Binding)
      → Dict.get r.node_address w.bindings ≡ some b
      → decide j r b w ≡ ok (admit c row ws)
      → commit j c row w ≡ ok (s, w')
      → res.binding ≡ some s
      → Committed r w res w'
  unfolding transition_row
  Committed-of r w res w' b c row ws s e ed ec es =
      let (passed, hd) = decide-Passed j r b c row ws w ed in
      let adm = decide_candidate-Admitted j r b w c row ws hd in
      let cand = build_candidate r b adm.next in
      let ec' : commit j cand (transition_row r cand r.expected_state adm.next adm.seq) w
          ≡ ok (s, w') =
        subst (λ x. commit j cand x w ≡ ok (s, w')) adm.row_is
          (subst (λ x. commit j x row w ≡ ok (s, w')) adm.candidate_is ec) in
      let (e1, e2, e3) =
        commit_parts cand _ w r.node_address s w' (get-build_candidate r b adm.next "node_address")
          ec' in
      record {
        live = b;
        found = e;
        passed = passed;
        next = adm.next;
        next_is = adm.next_is;
        seq = adm.seq;
        seq_is = adm.seq_is;
        bindings = e2;
        wal = e3;
        admissible = validate-Admissible cand adm.entries _ ws adm.valid;
        result = es ∙ ap some e1;
      }

  -- If `transition` commits, the live binding had the expected state and generation and, where one
  -- is presented, the expected token; the candidate has its required fields and the next
  -- generation, and its edge is legal or the slot hold of an escalated node; the binding map
  -- changes at that address alone, to the candidate with the next seq as its watermark; and the
  -- run-ledger is the old one with that transition's row appended.
  pub transition-Committed :
      (r : Request) (w : World j) (res : TransitionResult) (w' : World j)
      → transition j r w ≡ ok (res, w')
      → res.committed ≡ true
      → Committed r w res w'
  unfolding transition
  transition-Committed r w res w' h t = elim (Option-cases (Dict.get r.node_address w.bindings)) [
    | inl e ↦ let gone : ok (refused absent none, w) ≡ ok (res, w') = rw e at h in cc
    | inr (b, e) ↦
        let (d, ed, k) =
          >>=-eq-ok (decide j r b w) _ (subst (λ o. transition_found j r w o ≡ ok (res, w')) e h) in
        let (c, row, ws, s, dd, ec, es) = perform_committed r b d w res w' k t in
        Committed-of r w res w' b c row ws s e (ed ∙ ap ok dd) ec es
  ]

  pub append_row-bindings :
      (row : Row) (w w' : World j) → append_row j row w ≡ ok w' → w'.bindings ≡ w.bindings
  unfolding append_row
  append_row-bindings row w w' h =
      let (f, ef, k) = >>=-eq-ok (j.append _ w.wal) _ h in
      sym (ap (λ (x : World j). x.bindings) (ok-inj _ _ k))

  -- A fencing row leaves every binding as it is.
  pub fence-bindings :
      (a : String) (b : Binding) (g : Value) (delta : Dict Value) (m : String) (w w' : World j)
      → fence j a b g delta m w ≡ ok w'
      → w'.bindings ≡ w.bindings
  unfolding fence
  fence-bindings a b g delta m w w' h =
      let (s, _, h1) = >>=-eq-ok (Dict.index b "state") _ h in
      let (n, _, h2) = >>=-eq-ok (Dict.index b "generation") _ h1 in
      let (o, _, h3) = >>=-eq-ok (Dict.index b "owner_token") _ h2 in
      let (q, _, h4) = >>=-eq-ok (next_seq j w) _ h3 in append_row-bindings _ w w' h4

  perform_aborted :
      (r : Request) (b : Binding) (d : Decision) (w : World j) (res : TransitionResult)
      (w' : World j)
      → perform j r b d w ≡ ok (res, w')
      → res.committed ≡ false
      → (w'.bindings ≡ w.bindings)
        × (res.binding ≡ some b)
        × ((w' ≡ w) ⊎ (res.errors ≡ fencing ∷ []))
  unfolding perform
  perform_aborted r b (refuse es ws) w res w' h t =
      let q = ok-inj _ _ h in
      (
        sym (ap (λ (x : TransitionResult × World j). x.1.bindings) q),
        sym (ap (λ (x : TransitionResult × World j). x.0.binding) q),
        inl (sym (ap (λ (x : TransitionResult × World j). x.1) q)),
      )
  perform_aborted r b stale w res w' h t =
      let (f, ef, k) = >>=-eq-ok (fence j _ _ _ _ _ w) _ h in
      let q = ok-inj _ _ k in
      (
        sym (ap (λ (x : TransitionResult × World j). x.1.bindings) q)
            ∙ fence-bindings _ _ _ _ _ w f ef,
        sym (ap (λ (x : TransitionResult × World j). x.0.binding) q),
        inr (sym (ap (λ (x : TransitionResult × World j). x.0.errors) q)),
      )
  perform_aborted r b (admit c row ws) w res w' h t =
      let (p, ep, k) = >>=-eq-ok (commit j c row w) _ h in cc

  -- If `transition` aborts, no binding changes, the result holds the live binding, and nothing at
  -- all is written unless the abort is that of a stale token.
  pub transition-aborted :
      (r : Request) (w : World j) (res : TransitionResult) (w' : World j)
      → transition j r w ≡ ok (res, w')
      → res.committed ≡ false
      → (w'.bindings ≡ w.bindings)
        × (res.binding ≡ Dict.get r.node_address w.bindings)
        × ((w' ≡ w) ⊎ (res.errors ≡ fencing ∷ []))
  unfolding transition
  transition-aborted r w res w' h t = elim (Option-cases (Dict.get r.node_address w.bindings)) [
    | inl e ↦
        let q = ok-inj _ _ (subst (λ o. transition_found j r w o ≡ ok (res, w')) e h) in
        (
          sym (ap (λ (x : TransitionResult × World j). x.1.bindings) q),
          sym (ap (λ (x : TransitionResult × World j). x.0.binding) q) ∙ sym e,
          inl (sym (ap (λ (x : TransitionResult × World j). x.1) q)),
        )
    | inr (b, e) ↦
        let (d, ed, k) =
          >>=-eq-ok (decide j r b w) _ (subst (λ o. transition_found j r w o ≡ ok (res, w')) e h) in
        let (e1, e2, e3) = perform_aborted r b d w res w' k t in (e1, e2 ∙ sym e, e3)
  ]
