-- ===== src/Reconcile/Sweep/Necro.antt =====
-- What `_terminal_necro` of harnessd/reconcile.py leaves of a dead node.
use long_horizon_agentic_har.Prelude.{ℕ, ◌+◌, ◌≤◌, String, true, some, ◌≡◌, sym, ◌∙◌, ap, arith}
use long_horizon_agentic_har.Result.{ok, >>=-eq-ok}
use long_horizon_agentic_har.Value.{Value, num, str}
use long_horizon_agentic_har.Dict
use long_horizon_agentic_har.Dict.{get-set, get-set_self}
use long_horizon_agentic_har.States.{TerminalVocabRow}
use long_horizon_agentic_har.Fencing.{advance_epoch, mint_owner_token}
use long_horizon_agentic_har.Ledger.Journal.{Journal}
use long_horizon_agentic_har.Executor.{Binding, World, TransitionResult, is_stale}
use long_horizon_agentic_har.Executor.Transition.Candidate.{get-build_candidate}
use long_horizon_agentic_har.Executor.Transition.Outcome.{stamped, transition-Committed}
use long_horizon_agentic_har.Executor.Transition.Claim.{advanced, stale_of_older}
use long_horizon_agentic_har.Reconcile.Sweep.{necro_request, terminal_necro, or_text}

module _ (j : Journal) where
  -- If the necro of a node that the sweep saw at epoch `e` commits, the stored binding has the
  -- state of its death class and the epoch `e + 1`, and it refuses as stale every
  -- token that was minted at epoch `e` or before.
  pub terminal_necro-fences :
      (row : TerminalVocabRow) (a : String) (b : Binding) (w w' : World j) (res : TransitionResult)
      (e : ℕ) (a' : String) (u v : Value) (e' : ℕ) (old : String)
      → terminal_necro j row a b w ≡ ok (res, w')
      → res.committed ≡ true
      → Dict.get "lease_epoch" b ≡ some (num e)
      → mint_owner_token a' u v e' ≡ ok old
      → e' ≤ e
      → (stored : Binding) × (Dict.get a w'.bindings ≡ some stored)
        × (Dict.get "state" stored ≡ some (str (or_text row.state)))
        × (Dict.get "lease_epoch" stored ≡ some (num (e + 1)))
        × (is_stale (str old) stored ≡ ok true)
  unfolding terminal_necro
  terminal_necro-fences row a b w w' res e a' u v e' old h t epoch minted le =
      let (n, en, h1) = >>=-eq-ok (advance_epoch b) _ h in
      let (new, enew, h2) = >>=-eq-ok (mint_owner_token a _ _ n) _ h1 in
      let (state, es, h3) = >>=-eq-ok (Dict.index b "state") _ h2 in
      let (generation, eg, h4) = >>=-eq-ok (Dict.index b "generation") _ h3 in
      let r = necro_request row a state generation n new w.now in
      let c = transition-Committed j r w res w' h4 t in
      let at_epoch = advanced b e n epoch en in
      (
        stamped r c.live c.next c.seq,
        ap (Dict.get a) c.bindings ∙ get-set_self a (stamped r c.live c.next c.seq) w.bindings,
        get-set "last_applied_seq" "state" _ _ ∙ get-build_candidate r c.live c.next "state",
        (get-set "last_applied_seq" "lease_epoch" _ _
              ∙ get-build_candidate r c.live c.next "lease_epoch")
            ∙ ap (λ x. some (num x)) (sym at_epoch),
        stale_of_older a a' _ _ u v n e' new old _ enew minted (omega (arith, at_epoch)) (
            get-set "last_applied_seq" "owner_token" _ _
            ∙ get-build_candidate r c.live c.next "owner_token"),
      )
