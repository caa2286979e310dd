-- ===== src/Ipc/Pause.antt =====
-- A pause by harnessd/ipc.py as harnessd/spawn/chokepoint.py and harnessd/watchdog.py read it.
use long_horizon_agentic_har.Prelude.{
  String, str_eq, eq_iff, true, false, some, [], ◌∷◌, ◌≡◌, refl, sym, ◌∙◌, ap, subst, Bool-cases,
  inl, inr,
}
use long_horizon_agentic_har.Result.{ok, ok-inj, >>=-eq-ok}
use long_horizon_agentic_har.Value.{Value, null, str, is_null}
use long_horizon_agentic_har.Dict
use long_horizon_agentic_har.Dict.{get-set, get-set_self, get-set_ne}
use long_horizon_agentic_har.Validate.{or_null}
use long_horizon_agentic_har.Ledger.Journal.{Journal}
use long_horizon_agentic_har.Executor.{Binding, Bindings, World, TransitionResult}
use long_horizon_agentic_har.Executor.OwnSlice.{pause}
use long_horizon_agentic_har.Executor.OwnSlice.Slice.{Sliced, own_slice_write-Sliced}
use long_horizon_agentic_har.Runtime.{Tree, on_world}
use long_horizon_agentic_har.Chokepoint.{parent_of, subtree_paused}
use long_horizon_agentic_har.Chokepoint.Pause.{Ancestor, itself, above, subtree_paused-Ancestor}
use long_horizon_agentic_har.Chokepoint.Collapse.Outcome.{on_world-ok}
use long_horizon_agentic_har.Ipc.{Response, transition_response, handle_pause}

-- The node at `p` is the node at `a`, or one that the chain of parents of `a` leads to.
pub data LiesUnder (bindings : Bindings) : String → String → Type 0 where
  same_node : {p : String} → str_eq p "" ≡ false → LiesUnder bindings p p
  child :
      {a q p : String} {b : Binding}
      → str_eq a "" ≡ false
      → Dict.get a bindings ≡ some b
      → parent_of b ≡ str q
      → LiesUnder bindings q p
      → LiesUnder bindings a p

-- A write at one address that keeps the parent there keeps the chains of parents.
Ancestor-set :
    (bindings : Bindings) (p : String) (live stored : Binding)
    → Dict.get p bindings ≡ some live
    → parent_of stored ≡ parent_of live
    → (a : String) → LiesUnder bindings a p
    → Ancestor (Dict.set p stored bindings) a stored
Ancestor-set bindings p live stored found kept a (same_node ne) =
    itself ne (get-set_self p stored bindings)
Ancestor-set bindings p live stored found kept a (child {q = q} {b = b} ne h up rest) =
    elim (Bool-cases (str_eq p a)) [
      | inl e ↦
          let it : p ≡ a = (eq_iff p a).0 e in
          itself ne (
            subst (λ x. Dict.get x (Dict.set p stored bindings) ≡ some stored) it
              (get-set_self p stored bindings))
      | inr e ↦
          above ne (get-set_ne p a stored bindings e ∙ h) up
            (Ancestor-set bindings p live stored found kept q rest)
    ]

module _ (j : Journal) where
  pause-Sliced :
      (p : String) (token : Value) (w w' : World j) (res : TransitionResult)
      → pause j p null token w ≡ ok (res, w')
      → res.committed ≡ true
      → Sliced j p token (("paused_at", str w.now) ∷ []) w w'
  unfolding pause
  pause-Sliced p token w w' res h c = own_slice_write-Sliced j p token _ _ _ w w' res h c

  -- After an accepted pause every node below counts as paused, whatever its own binding says.
  pub handle_pause-subtree_paused :
      (p a : String) (token : Value) (t : Tree j) (r : Response) (t' : Tree j)
      → handle_pause j p token t ≡ ok (r, t')
      → r.accepted ≡ true
      → LiesUnder t.world.bindings a p
      → subtree_paused a t'.world.bindings ≡ true
  unfolding handle_pause transition_response Dict.get
  handle_pause-subtree_paused p a token t r t' h accepted under =
      let ((res, t1), e, k) =
        >>=-eq-ok (on_world (pause j p null token) t)
          (λ (x : TransitionResult × Tree j). ok (transition_response x.0, x.1)) h in
      let (w, ew, et) = on_world-ok (pause j p null token) t res t1 e in
      let done : res.committed ≡ true =
        responded res (ap (λ (x : Response × Tree j). x.0) (ok-inj _ _ k)) in
      let s = pause-Sliced p token t.world w res ew done in
      let bindings_is : Dict.set p s.stored t.world.bindings ≡ t'.world.bindings =
        sym s.bindings
        ∙ (ap (λ (x : Tree j). x.world.bindings) (sym et)
            ∙ ap (λ (x : Response × Tree j). x.1.world.bindings) (ok-inj _ _ k)) in
      subst (λ x. subtree_paused a x ≡ true) bindings_is
        ((subtree_paused-Ancestor a (Dict.set p s.stored t.world.bindings)).1 (
          s.stored,
          Ancestor-set t.world.bindings p s.live s.stored s.found
              (ap or_null (s.content "parent_address" ∙ unset s.live)) a under,
          ap (λ v. is_null (or_null v)) (s.content "paused_at" ∙ stamped s.live),
        ))
    where
      responded : (res : TransitionResult) → transition_response res ≡ r → res.committed ≡ true
      responded res q = ap (λ (x : Response). x.accepted) q ∙ accepted

      unset :
          (live : Binding)
          → Dict.or_else
              (Dict.get "parent_address" (("paused_at", str t.world.now) ∷ []))
              (Dict.get "parent_address" live)
            ≡ Dict.get "parent_address" live
      unset live = refl

      stamped :
          (live : Binding)
          → Dict.or_else
              (Dict.get "paused_at" (("paused_at", str t.world.now) ∷ []))
              (Dict.get "paused_at" live)
            ≡ some (str t.world.now)
      stamped live = refl
