-- ===== src/Executor/Transition/Claim.antt =====
-- `claim` of harnessd/executor.py fences the earlier incarnations of its node.
use long_horizon_agentic_har.Prelude.{
  ℕ, ◌+◌, ◌≤◌, String, str_eq, eq_iff, true, some, ◌≡◌, refl, sym, ◌∙◌, ap, subst, arith,
  Bool-cases, inl, inr,
}
use long_horizon_agentic_har.Result.{ok, >>=-eq-ok, ok-inj}
use long_horizon_agentic_har.Value.{Value, num, str}
use long_horizon_agentic_har.Dict
use long_horizon_agentic_har.Dict.{get-set, get-set_self}
use long_horizon_agentic_har.Fencing.{advance_epoch, mint_owner_token}
use long_horizon_agentic_har.Fencing.Tokens.{mint_owner_token-epoch}
use long_horizon_agentic_har.Ledger.Journal.{Journal}
use long_horizon_agentic_har.Executor.{Binding, World, TransitionResult, is_stale}
use long_horizon_agentic_har.Executor.Transition.{claim, claim_found, claim_request}
use long_horizon_agentic_har.Executor.Transition.Candidate.{get-build_candidate}
use long_horizon_agentic_har.Executor.Transition.Outcome.{stamped, transition-Committed}

pub advanced :
    (b : Binding) (e n : ℕ)
    → Dict.get "lease_epoch" b ≡ some (num e)
    → advance_epoch b ≡ ok n
    → e + 1 ≡ n
unfolding advance_epoch
advanced b e n h k = ok-inj (e + 1) n (rw h at k)

pub stale_of_older :
    (a a' : String) (u v u' v' : Value) (n m : ℕ) (new old : String) (b : Binding)
    → mint_owner_token a u v n ≡ ok new
    → mint_owner_token a' u' v' m ≡ ok old
    → m + 1 ≤ n
    → Dict.get "owner_token" b ≡ some (str new)
    → is_stale (str old) b ≡ ok true
unfolding is_stale
stale_of_older a a' u v u' v' n m new old b hn ho lt h = elim (Bool-cases (str_eq new old)) [
  | inl e ↦
      let equal : new ≡ old = (eq_iff new old).0 e in
      let one : n ≡ m = mint_owner_token-epoch a a' u v u' v' n m new hn (ho ∙ ap ok (sym equal)) in
      absurd (omega (arith, one))
  | inr e ↦ rw h (rw e refl)
]

module _ (j : Journal) where
  -- After a committed claim of a node at epoch `e`, the stored binding refuses as stale every
  -- token that was minted at epoch `e` or before, by whichever address, agent and session.
  pub claim_fences :
      (a : String) (xs xg xt : Value) (w w' : World j) (res : TransitionResult) (live : Binding)
      (e : ℕ) (a' : String) (u v : Value) (e' : ℕ) (old : String)
      → claim j a xs xg xt w ≡ ok (res, w')
      → res.committed ≡ true
      → Dict.get a w.bindings ≡ some live
      → Dict.get "lease_epoch" live ≡ some (num e)
      → mint_owner_token a' u v e' ≡ ok old
      → e' ≤ e
      → (stored : Binding) × (Dict.get a w'.bindings ≡ some stored)
        × (Dict.get "state" stored ≡ some (str "claimed"))
        × (is_stale (str old) stored ≡ ok true)
  unfolding claim
  claim_fences a xs xg xt w w' res live e a' u v e' old h t found epoch minted le =
      let h0 = subst (λ o. claim_found j a xs xg xt w o ≡ ok (res, w')) found h in
      let (n, en, h1) = >>=-eq-ok (advance_epoch live) _ h0 in
      let (new, enew, h2) = >>=-eq-ok (mint_owner_token a _ _ n) _ h1 in
      let r = claim_request a xs xg xt n new in
      let c = transition-Committed j r w res w' h2 t in
      (
        stamped r c.live c.next c.seq,
        ap (Dict.get a) c.bindings ∙ get-set_self a (stamped r c.live c.next c.seq) w.bindings,
        get-set "last_applied_seq" "state" _ _ ∙ get-build_candidate r c.live c.next "state",
        stale_of_older a a' _ _ u v n e' new old _ enew minted
            (omega (arith, advanced live e n epoch en))
            (get-set "last_applied_seq" "owner_token" _ _
              ∙ get-build_candidate r c.live c.next "owner_token"),
      )
