-- ===== src/Executor/OwnSlice/Slice.antt =====
-- What an own-slice write of harnessd/executor.py changes, and what it leaves.
use long_horizon_agentic_har.Prelude.{
  ℕ, String, str_eq, Bool, true, false, none, some, ◌≡◌, refl, inl, inr, sym, ◌∙◌, ap, subst,
  Option-cases, if◌then◌else◌,
}
use long_horizon_agentic_har.Result.{ok, >>=-eq-ok, ok-inj}
use long_horizon_agentic_har.Value.{Value, num}
use long_horizon_agentic_har.Dict
use long_horizon_agentic_har.Dict.{Dict, get-set, get-update}
use long_horizon_agentic_har.Ledger.{Row, Entry, build_wal_record}
use long_horizon_agentic_har.Ledger.Journal.{Journal}
use long_horizon_agentic_har.Executor.{
  Binding, World, TransitionResult, absent, refused, is_stale, next_seq, append_row, fence,
}
use long_horizon_agentic_har.Executor.Transition.Outcome.{append_row-bindings}
use long_horizon_agentic_har.Executor.OwnSlice.{
  own_slice_row, write_slice, own_slice_live, own_slice_found, own_slice_write,
}

module _ (j : Journal) where
  -- The stored binding is the live one, but for the delta and the watermark.
  pub record Sliced (a : String) (t : Value) (delta : Dict Value) (w w' : World j) : Type 0 where
    pub live : Binding
    pub found : Dict.get a w.bindings ≡ some live
    pub owned : is_stale t live ≡ ok false
    pub stored : Binding
    pub bindings : w'.bindings ≡ Dict.set a stored w.bindings
    pub seq : ℕ
    pub seq_is : next_seq j w ≡ ok seq
    pub content :
        (k : String)
        → Dict.get k stored ≡ (
            if str_eq "last_applied_seq" k
            then some (num seq)
            else Dict.or_else (Dict.get k delta) (Dict.get k live))
    pub entry : Entry
    pub wal : j.append entry w.wal ≡ ok w'.wal
    pub entry_seq : entry.seq ≡ seq
    pub entry_address : entry.node_address ≡ a
    pub entry_seal : entry.crc32 ≡ some (j.crc entry.content)
    pub entry_state : entry.from_state ≡ entry.to_state
    pub entry_generation : entry.expected_generation ≡ entry.generation

  write_slice-bindings :
      (a : String) (c : Binding) (row : Row) (w w' : World j) (s : Binding)
      → write_slice j a c row w ≡ ok (s, w')
      → w'.bindings ≡ Dict.set a (Dict.set "last_applied_seq" (num row.seq) c) w.bindings
  unfolding write_slice append_row
  write_slice-bindings a c row w w' s h =
      let (f, ef, k) = >>=-eq-ok (append_row j row w) _ h in
      sym (ap (λ (x : Binding × World j). x.1.bindings) (ok-inj _ _ k))
      ∙ ap (Dict.set a (Dict.set "last_applied_seq" (num row.seq) c))
          (append_row-bindings j row w f ef)

  write_slice-wal :
      (a : String) (c : Binding) (row : Row) (w w' : World j) (s : Binding)
      → write_slice j a c row w ≡ ok (s, w')
      → j.append (build_wal_record j.crc w.now row) w.wal ≡ ok w'.wal
  unfolding write_slice append_row
  write_slice-wal a c row w w' s h =
      let (f, ef, k) = >>=-eq-ok (append_row j row w) _ h in
      let (g, eg, k') = >>=-eq-ok (j.append (build_wal_record j.crc w.now row) w.wal) _ ef in
      eg
      ∙ ap ok (
          ap (λ (x : World j). x.wal) (ok-inj _ _ k')
          ∙ ap (λ (x : Binding × World j). x.1.wal) (ok-inj _ _ k))

  Sliced-live :
      (a : String) (b : Binding) (t : Value) (delta : Dict Value) (e s : String) (stale : Bool)
      (w w' : World j) (res : TransitionResult)
      → Dict.get a w.bindings ≡ some b
      → is_stale t b ≡ ok stale
      → own_slice_live j a b t delta e s stale w ≡ ok (res, w')
      → res.committed ≡ true
      → Sliced a t delta w w'
  unfolding own_slice_row build_wal_record
  Sliced-live a b t delta e s true w w' res found owned h c =
      let (g, eg, h1) = >>=-eq-ok (Dict.index b "generation") _ h in
      let (f, ef, k) = >>=-eq-ok (fence j a b g _ _ w) _ h1 in
      let q : false ≡ res.committed =
        ap (λ (x : TransitionResult × World j). x.0.committed) (ok-inj _ _ k) in
      cc
  Sliced-live a b t delta e s false w w' res found owned h c =
      let (state, es, h1) = >>=-eq-ok (Dict.index b "state") _ h in
      let (generation, eg, h2) = >>=-eq-ok (Dict.index b "generation") _ h1 in
      let (seq, eq, h3) = >>=-eq-ok (next_seq j w) _ h2 in
      let (p, ep, h4) = >>=-eq-ok (write_slice j a _ _ w) _ h3 in
      record {
        live = b;
        found = found;
        owned = owned;
        stored = Dict.set "last_applied_seq" (num seq) (Dict.update b delta);
        bindings =
            sym (ap (λ (x : TransitionResult × World j). x.1.bindings) (ok-inj _ _ h4))
            ∙ write_slice-bindings a _ _ w p.1 p.0 ep;
        seq = seq;
        seq_is = eq;
        content = λ k. simp (get-set, get-update);
        entry =
            build_wal_record j.crc w.now
              (own_slice_row a (Dict.update b delta) state generation delta e s seq);
        wal =
            write_slice-wal a _ _ w p.1 p.0 ep
            ∙ ap (λ (x : TransitionResult × World j). ok x.1.wal) (ok-inj _ _ h4);
        entry_seq = refl;
        entry_address = refl;
        entry_seal = refl;
        entry_state = refl;
        entry_generation = refl;
      }

  -- A committed own-slice write was presented the live token, or none. It changes the binding of
  -- its node alone, and there the keys of its delta and the watermark alone; the run-ledger is the
  -- old one with one sealed row of that node appended, which keeps the state and the generation.
  pub own_slice_write-Sliced :
      (a : String) (t : Value) (delta : Dict Value) (e s : String) (w w' : World j)
      (res : TransitionResult)
      → own_slice_write j a t delta e s w ≡ ok (res, w')
      → res.committed ≡ true
      → Sliced a t delta w w'
  unfolding own_slice_write
  own_slice_write-Sliced a t delta e s w w' res h c = elim (Option-cases (Dict.get a w.bindings)) [
    | inl n ↦
        let gone : ok (refused absent none, w) ≡ ok (res, w') =
          subst (λ o. own_slice_found j a t delta e s w o ≡ ok (res, w')) n h in
        let q : false ≡ res.committed =
          ap (λ (x : TransitionResult × World j). x.0.committed) (ok-inj _ _ gone) in
        cc
    | inr (b, f) ↦
        let (st, est, k) =
          >>=-eq-ok (is_stale t b) _
            (subst (λ o. own_slice_found j a t delta e s w o ≡ ok (res, w')) f h) in
        Sliced-live a b t delta e s st w w' res f est k c
  ]
