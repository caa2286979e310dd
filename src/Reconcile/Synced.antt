-- ===== src/Reconcile/Synced.antt =====
-- The states in which the binding map has all that the run-ledger says, and what a crash does to
-- them: harnessd/executor.py against the replay of harnessd/reconcile.py.
use long_horizon_agentic_har.Prelude.{
  ℕ, ◌+◌, ◌<◌, String, eq_refl, true, false, some, List, [], ◌∷◌, ◌++◌, ◌≡◌, refl, sym, ◌∙◌, subst,
  arith, All, lt→not-leb,
}
use long_horizon_agentic_har.Result.{Result, ok, ◌>>=◌, ok-inj}
use long_horizon_agentic_har.Value.{Value, null, num, same, plus_one, same_refl}
use long_horizon_agentic_har.Dict
use long_horizon_agentic_har.Dict.{get-set}
use long_horizon_agentic_har.Ledger.{Entry, build_wal_record}
use long_horizon_agentic_har.Ledger.File.{seq_after}
use long_horizon_agentic_har.Ledger.Journal.{Journal}
use long_horizon_agentic_har.Executor.{Binding, World, TransitionResult, next_seq}
use long_horizon_agentic_har.Executor.Transition.{Request, transition_row, transition}
use long_horizon_agentic_har.Executor.Transition.Outcome.{stamped, entry_of, transition-Committed}
use long_horizon_agentic_har.Reconcile.{watermark_of, apply_one, apply_all, events_of, replay_node}
use long_horizon_agentic_har.Reconcile.Replay.{
  Increasing, Increasing-snoc, seq_after-Below, Increasing-events_of, sort_by_seq-Increasing,
  events_of-snoc_self, apply_all-append,
}
use long_horizon_agentic_har.Reconcile.Recovery.{image, image-stamped}

-- The binding's watermark is a seq of the run-ledger, and a replay leaves the binding as it is.
pub record Current (a : String) (b : Binding) (es : List Entry) : Type 0 where
  pub mark : ℕ
  pub mark_is : watermark_of (Dict.get "last_applied_seq" b) ≡ ok mark
  pub mark_below : mark < seq_after es
  pub settled : apply_all b (events_of a es) ≡ ok b

generation_step : (g next : Value) → plus_one g ≡ ok next → same g next ≡ false
generation_step null next h = cc
generation_step (num n) next h =
    subst (λ x. same (num n) x ≡ false) (ok-inj (num (n + 1)) next h) (ground arith)
generation_step g next h = cc

module _ (j : Journal) where
  -- The run-ledger stands for entries whose seqs ascend, and every binding is current.
  pub record IsSynced (w : World j) (es : List Entry) : Type 0 where
    pub stands : j.Stands w.wal es
    pub increasing : Increasing es
    pub current : (a : String) (b : Binding) → Dict.get a w.bindings ≡ some b → Current a b es

  pub seq_of_next :
      (w : World j) (es : List Entry) (seq : ℕ)
      → IsSynced w es
      → next_seq j w ≡ ok seq
      → seq ≡ seq_after es
  unfolding next_seq
  seq_of_next w es seq s h = sym (
      ok-inj _ _ (
        subst (λ (m : Result (List Entry)). (do entries ← m; ok (seq_after entries)) ≡ ok seq)
          (j.load-Stands w.wal es s.stands) h))

  apply_one-image :
      (r : Request) (w : World j) (live : Binding) (next : Value) (seq mark : ℕ)
      → watermark_of (Dict.get "last_applied_seq" live) ≡ ok mark
      → mark < seq
      → Dict.get "generation" live ≡ some r.expected_generation
      → plus_one r.expected_generation ≡ ok next
      → apply_one live (entry_of j r w live next seq) ≡ ok (image j r w live next seq)
  unfolding apply_one build_wal_record transition_row
  apply_one-image r w live next seq mark h lt g n =
      rw (h, g)
        (rw (lt→not-leb seq mark lt)
          (rw (generation_step _ next n) (rw (same_refl r.expected_generation) refl)))

  replay_node-sorted :
      (a : String) (w : World j) (es : List Entry) (b c : Binding)
      → Increasing es
      → Dict.get a w.bindings ≡ some b
      → apply_all b (events_of a es) ≡ ok c
      → replay_node a w.bindings es ≡ ok (some c)
  unfolding replay_node
  replay_node-sorted a w es b c inc h k =
      rw (sort_by_seq-Increasing (events_of a es) (Increasing-events_of a es inc))
        (rw h (rw k refl))

  -- After a crash between the two writes of a committed transition, the run-ledger with the new
  -- row, replayed over the binding map without it, gives a binding that agrees at every key with
  -- the one that the second write would have stored.
  pub crash_recovery :
      (r : Request) (w w' : World j) (res : TransitionResult) (es : List Entry)
      → IsSynced w es
      → transition j r w ≡ ok (res, w')
      → res.committed ≡ true
      → (es' : List Entry) × (replayed : Binding) × (stored : Binding) × (j.load w'.wal ≡ ok es')
        × (replay_node r.node_address w.bindings es' ≡ ok (some replayed))
        × (Dict.get r.node_address w'.bindings ≡ some stored)
        × ((k : String) → Dict.get k replayed ≡ Dict.get k stored)
  unfolding apply_all build_wal_record transition_row
  crash_recovery r w w' res es s h t =
      let c = transition-Committed j r w res w' h t in
      let e = entry_of j r w c.live c.next c.seq in
      let cur = s.current r.node_address c.live c.found in
      let q = seq_of_next w es c.seq s c.seq_is in
      let (f, ef, standing) =
        j.append-Stands w.wal es e s.stands (unfold build_wal_record in refl) in
      let same_file : f ≡ w'.wal = ok-inj f w'.wal (sym ef ∙ c.wal) in
      (
        es ++ (e ∷ []),
        image j r w c.live c.next c.seq,
        stamped r c.live c.next c.seq,
        j.load-Stands w'.wal _ (subst (λ x. j.Stands x (es ++ (e ∷ []))) same_file standing),
        replay_node-sorted r.node_address w (es ++ (e ∷ [])) c.live _
            (Increasing-snoc es e s.increasing
              (subst (λ n. All (λ d. d.seq < n) es) (sym q) (seq_after-Below es)))
            c.found
            (rw (events_of-snoc_self r.node_address es e refl) (
              apply_all-append c.live c.live (events_of r.node_address es) (e ∷ []) cur.settled
              ∙ rw
                  (apply_one-image r w c.live c.next c.seq cur.mark cur.mark_is (omega (arith, q))
                    c.passed.generation c.next_is)
                  refl)),
        rw c.bindings
            (get-set r.node_address r.node_address _ w.bindings ∙ rw (eq_refl r.node_address) refl),
        λ k. image-stamped j r w c.live c.next c.seq k c.admissible.has_owner,
      )
