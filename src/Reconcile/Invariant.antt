-- ===== src/Reconcile/Invariant.antt =====
-- The writes of harnessd/executor.py leave nothing that the replay of harnessd/reconcile.py would
-- change.
use long_horizon_agentic_har.Prelude.{
  ◌+◌, ◌<◌, String, str_eq, true, false, some, List, [], ◌∷◌, ◌++◌, ◌≡◌, refl, sym, ◌∙◌, ap, subst,
  arith, All, All-append, Bool-cases, inl, inr, if◌then◌else◌,
}
use long_horizon_agentic_har.Result.{ok, ok-inj}
use long_horizon_agentic_har.Value.{Value, num}
use long_horizon_agentic_har.Dict
use long_horizon_agentic_har.Dict.{Dict, get-set, get-set_self}
use long_horizon_agentic_har.Ledger.{Entry, build_wal_record}
use long_horizon_agentic_har.Ledger.File.{seq_after}
use long_horizon_agentic_har.Ledger.Journal.{Journal}
use long_horizon_agentic_har.Executor.{Binding, World, TransitionResult}
use long_horizon_agentic_har.Executor.Transition.{Request, transition, transition_row}
use long_horizon_agentic_har.Executor.Transition.Outcome.{stamped, entry_of, transition-Committed}
use long_horizon_agentic_har.Executor.OwnSlice.{own_slice_write}
use long_horizon_agentic_har.Executor.OwnSlice.Slice.{own_slice_write-Sliced}
use long_horizon_agentic_har.Reconcile.{watermark_of}
use long_horizon_agentic_har.Reconcile.Replay.{
  Below, Below-mono, Below-events_of, Increasing-snoc, seq_after-Below, events_of-snoc_ne,
  apply_all-skips,
}
use long_horizon_agentic_har.Reconcile.Synced.{Current, IsSynced, seq_of_next}

last_of_All : (P : Entry → Type 0) (es : List Entry) (e : Entry) → All P (es ++ (e ∷ [])) → P e
last_of_All P [] e h = h.0
last_of_All P (d ∷ es) e h = last_of_All P es e h.1

init_of_All : (P : Entry → Type 0) (es : List Entry) (e : Entry) → All P (es ++ (e ∷ [])) → All P es
init_of_All P [] e h = tt
init_of_All P (d ∷ es) e h = (h.0, init_of_All P es e h.1)

-- The binding that a row is for has the row's seq as its watermark.
stored_Current :
    (k : String) (s : Binding) (es : List Entry) (e : Entry)
    → watermark_of (Dict.get "last_applied_seq" s) ≡ ok e.seq
    → e.seq ≡ seq_after es
    → Current k s (es ++ (e ∷ []))
stored_Current k s es e h q = record {
  mark = e.seq;
  mark_is = h;
  mark_below =
      last_of_All (λ d. d.seq < seq_after (es ++ (e ∷ []))) es e (seq_after-Below (es ++ (e ∷ [])));
  settled = apply_all-skips s e.seq _ h (
      Below-events_of (e.seq + 1) k _ (
        All-append (λ d. d.seq < e.seq + 1) es (e ∷ [])
          (Below-mono (seq_after es) (e.seq + 1) es (omega (arith, q)) (seq_after-Below es))
          (omega arith, tt)));
}

-- The bindings of the other nodes do not see the row.
kept_Current :
    (k : String) (b : Binding) (es : List Entry) (e : Entry)
    → str_eq e.node_address k ≡ false
    → e.seq ≡ seq_after es
    → Current k b es
    → Current k b (es ++ (e ∷ []))
kept_Current k b es e ne q c = record {
  mark = c.mark;
  mark_is = c.mark_is;
  mark_below =
      let last =
        last_of_All (λ d. d.seq < seq_after (es ++ (e ∷ []))) es e
          (seq_after-Below (es ++ (e ∷ []))) in
      let below = c.mark_below in omega (arith, q, last, below);
  settled = rw (events_of-snoc_ne k es e ne) c.settled;
}

module _ (j : Journal) where
  stored_IsSynced :
      (w w' : World j) (es : List Entry) (e : Entry) (s : Binding)
      → IsSynced j w es
      → e.seq ≡ seq_after es
      → e.crc32 ≡ some (j.crc e.content)
      → j.append e w.wal ≡ ok w'.wal
      → w'.bindings ≡ Dict.set e.node_address s w.bindings
      → watermark_of (Dict.get "last_applied_seq" s) ≡ ok e.seq
      → IsSynced j w' (es ++ (e ∷ []))
  stored_IsSynced w w' es e s synced q sealed wal bindings mark =
      let (f, ef, standing) = j.append-Stands w.wal es e synced.stands sealed in
      record {
        stands = subst (λ x. j.Stands x (es ++ (e ∷ []))) (ok-inj f w'.wal (sym ef ∙ wal)) standing;
        increasing =
            Increasing-snoc es e synced.increasing
              (subst (λ n. Below n es) (sym q) (seq_after-Below es));
        current = λ k b h.
            let h' : (if str_eq e.node_address k then some s else Dict.get k w.bindings) ≡ some b =
              sym (get-set e.node_address k s w.bindings) ∙ (ap (Dict.get k) (sym bindings) ∙ h) in
            elim (Bool-cases (str_eq e.node_address k)) [
              | inl t ↦
                  let same_binding : some s ≡ some b = rw t at h' in
                  let eq : s ≡ b = cc in
                  subst (λ x. Current k x (es ++ (e ∷ []))) eq (stored_Current k s es e mark q)
              | inr t ↦ kept_Current k b es e t q (synced.current k b (rw t at h'))
            ];
      }

  -- A committed transition leads from a state in which a replay changes nothing to another such
  -- state, whose run-ledger has one more entry.
  pub transition-IsSynced :
      (r : Request) (w w' : World j) (res : TransitionResult) (es : List Entry)
      → IsSynced j w es
      → transition j r w ≡ ok (res, w')
      → res.committed ≡ true
      → (e : Entry) × IsSynced j w' (es ++ (e ∷ []))
  unfolding build_wal_record transition_row
  transition-IsSynced r w w' res es synced h t =
      let c = transition-Committed j r w res w' h t in
      (
        entry_of j r w c.live c.next c.seq,
        stored_IsSynced w w' es (entry_of j r w c.live c.next c.seq) (stamped r c.live c.next c.seq)
            synced (seq_of_next j w es c.seq synced c.seq_is) refl c.wal c.bindings
            (ap watermark_of (get-set_self "last_applied_seq" (num c.seq) _)),
      )

  -- A committed own-slice write leads from a state in which a replay changes nothing to another
  -- such state, whose run-ledger has one more entry.
  pub own_slice_write-IsSynced :
      (a : String) (t : Value) (delta : Dict Value) (event summary : String) (w w' : World j)
      (res : TransitionResult) (es : List Entry)
      → IsSynced j w es
      → own_slice_write j a t delta event summary w ≡ ok (res, w')
      → res.committed ≡ true
      → (e : Entry) × IsSynced j w' (es ++ (e ∷ []))
  own_slice_write-IsSynced a t delta event summary w w' res es synced h committed =
      let c = own_slice_write-Sliced j a t delta event summary w w' res h committed in
      (
        c.entry,
        stored_IsSynced w w' es c.entry c.stored synced
            (c.entry_seq ∙ seq_of_next j w es c.seq synced c.seq_is) c.entry_seal c.wal
            (c.bindings ∙ ap (λ x. Dict.set x c.stored w.bindings) (sym c.entry_address))
            (ap watermark_of (c.content "last_applied_seq") ∙ ap ok (sym c.entry_seq)),
      )
