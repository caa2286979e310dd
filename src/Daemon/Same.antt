-- ===== src/Daemon/Same.antt =====
-- The fields of the bindings that an own-slice write of harnessd/executor.py leaves.
use long_horizon_agentic_har.Prelude.{
  String, str_eq, eq_iff, Bool, true, false, Option, none, some, ◌≡◌, sym, ◌∙◌, ap, subst,
  Bool-cases, Option-cases, inl, inr, ◌⊎◌, if◌then◌else◌,
}
use long_horizon_agentic_har.Result.{ok, ok-inj, >>=-eq-ok}
use long_horizon_agentic_har.Value.{Value, null, num}
use long_horizon_agentic_har.Dict
use long_horizon_agentic_har.Dict.{Dict, get-set_self, get-set_ne}
use long_horizon_agentic_har.Validate.{or_null}
use long_horizon_agentic_har.Ledger.Journal.{Journal}
use long_horizon_agentic_har.Executor.{
  Binding, Bindings, World, TransitionResult, next_seq, refused, absent, fence, is_stale,
}
use long_horizon_agentic_har.Executor.Transition.Outcome.{fence-bindings}
use long_horizon_agentic_har.Executor.OwnSlice.{
  own_slice_write, own_slice_live, own_slice_found, write_slice,
}
use long_horizon_agentic_har.Executor.OwnSlice.Slice.{own_slice_write-Sliced}

abbrev value_in : String → Option Binding → Value
value_in key none = null
value_in key (some b) = or_null (Dict.get key b)

-- What a node's binding holds under the key.
abbrev pub value_at : String → String → Bindings → Value
value_at key a bindings = value_in key (Dict.get a bindings)

-- Each node holds the same under the key.
abbrev pub Same : String → Bindings → Bindings → Type 0
Same key old new = (a : String) → value_at key a new ≡ value_at key a old

-- Each node has the same lifecycle state.
abbrev pub SameStates : Bindings → Bindings → Type 0
SameStates = Same "state"

module _ (key : String) where
  pub value_at-set_self :
      (bindings : Bindings) (p : String) (stored : Binding)
      → value_at key p (Dict.set p stored bindings) ≡ or_null (Dict.get key stored)
  value_at-set_self bindings p stored = ap (value_in key) (get-set_self p stored bindings)

  pub value_at-set_ne :
      (bindings : Bindings) (p a : String) (stored : Binding)
      → str_eq p a ≡ false
      → value_at key a (Dict.set p stored bindings) ≡ value_at key a bindings
  value_at-set_ne bindings p a stored e = ap (value_in key) (get-set_ne p a stored bindings e)

  Same-set :
      (bindings : Bindings) (p : String) (live stored : Binding)
      → Dict.get p bindings ≡ some live
      → Dict.get key stored ≡ Dict.get key live
      → Same key bindings (Dict.set p stored bindings)
  Same-set bindings p live stored found kept a = elim (Bool-cases (str_eq p a)) [
    | inl e ↦
        subst (λ x. value_at key x (Dict.set p stored bindings) ≡ value_at key x bindings)
          ((eq_iff p a).0 e)
          (value_at-set_self bindings p stored ∙ (ap or_null kept ∙ ap (value_in key) (sym found)))
    | inr e ↦ value_at-set_ne bindings p a stored e
  ]

  pub Same-eq : (old new : Bindings) → new ≡ old → Same key old new
  Same-eq old new e a = ap (value_at key a) e

  pub Same-trans : (x y z : Bindings) → Same key x y → Same key y z → Same key x z
  Same-trans x y z p q a = q a ∙ p a

module _ (j : Journal) where
  -- A write that is not committed has at most a row in the run-ledger.
  refused_write-bindings :
      (a : String) (b : Binding) (token : Value) (delta : Dict Value) (event summary : String)
      (stale : Bool) (w w' : World j) (res : TransitionResult)
      → own_slice_live j a b token delta event summary stale w ≡ ok (res, w')
      → res.committed ≡ false
      → w'.bindings ≡ w.bindings
  refused_write-bindings a b token delta event summary true w w' res h c =
      let (g, _, h1) = >>=-eq-ok (Dict.index b "generation") _ h in
      let (f, ef, k) = >>=-eq-ok (fence j a b g _ _ w) _ h1 in
      sym (ap (λ (x : TransitionResult × World j). x.1.bindings) (ok-inj _ _ k))
      ∙ fence-bindings j _ _ _ _ _ w f ef
  refused_write-bindings a b token delta event summary false w w' res h c =
      let (state, _, h1) = >>=-eq-ok (Dict.index b "state") _ h in
      let (generation, _, h2) = >>=-eq-ok (Dict.index b "generation") _ h1 in
      let (seq, _, h3) = >>=-eq-ok (next_seq j w) _ h2 in
      let (p, _, h4) = >>=-eq-ok (write_slice j a _ _ w) _ h3 in
      let yes : true ≡ res.committed =
        ap (λ (x : TransitionResult × World j). x.0.committed) (ok-inj _ _ h4) in
      absurd (cc (yes, c))

  refused_slice-bindings :
      (a : String) (token : Value) (delta : Dict Value) (event summary : String) (w w' : World j)
      (res : TransitionResult)
      → own_slice_write j a token delta event summary w ≡ ok (res, w')
      → res.committed ≡ false
      → w'.bindings ≡ w.bindings
  unfolding own_slice_write
  refused_slice-bindings a token delta event summary w w' res h c =
      elim (Option-cases (Dict.get a w.bindings)) [
        | inl n ↦ sym (
            ap (λ (x : TransitionResult × World j). x.1.bindings)
              (ok-inj (refused absent none, w) (res, w')
                (subst (λ o. own_slice_found j a token delta event summary w o ≡ ok (res, w')) n
                  h)))
        | inr (b, f) ↦
            let (stale, _, k) =
              >>=-eq-ok (is_stale token b)
                (λ stale. own_slice_live j a b token delta event summary stale w)
                (subst (λ o. own_slice_found j a token delta event summary w o ≡ ok (res, w')) f
                  h) in
            refused_write-bindings a b token delta event summary stale w w' res k c
      ]

  pub own_slice_write-Same :
      (key a : String) (token : Value) (delta : Dict Value) (event summary : String)
      (w w' : World j) (res : TransitionResult)
      → str_eq "last_applied_seq" key ≡ false
      → Dict.get key delta ≡ none
      → own_slice_write j a token delta event summary w ≡ ok (res, w')
      → Same key w.bindings w'.bindings
  own_slice_write-Same key a token delta event summary w w' res unmarked none_there h =
      elim (Bool-cases res.committed) [
        | inr c ↦
            Same-eq key w.bindings w'.bindings
              (refused_slice-bindings a token delta event summary w w' res h c)
        | inl c ↦
            let s = own_slice_write-Sliced j a token delta event summary w w' res h c in
            subst (λ x. Same key w.bindings x) (sym s.bindings)
              (Same-set key w.bindings a s.live s.stored s.found (
                s.content key
                ∙ (ap
                      (λ b.
                        if b
                        then some (num s.seq)
                        else Dict.or_else (Dict.get key delta) (Dict.get key s.live))
                      unmarked
                    ∙ ap (λ o. Dict.or_else o (Dict.get key s.live)) none_there)))
      ]

  -- A write of a key either is committed and stores its value at the node, or changes no binding.
  pub own_slice_write-value :
      (key a : String) (token v : Value) (delta : Dict Value) (event summary : String)
      (w w' : World j) (res : TransitionResult)
      → str_eq "last_applied_seq" key ≡ false
      → Dict.get key delta ≡ some v
      → own_slice_write j a token delta event summary w ≡ ok (res, w')
      → (w'.bindings ≡ w.bindings)
        ⊎ ((value_at key a w'.bindings ≡ v)
            × ((p : String)
                → str_eq a p ≡ false
                → value_at key p w'.bindings ≡ value_at key p w.bindings))
  own_slice_write-value key a token v delta event summary w w' res unmarked there h =
      elim (Bool-cases res.committed) [
        | inr c ↦ inl (refused_slice-bindings a token delta event summary w w' res h c)
        | inl c ↦
            let s = own_slice_write-Sliced j a token delta event summary w w' res h c in
            inr (
              ap (value_at key a) s.bindings
                  ∙ (value_at-set_self key w.bindings a s.stored
                      ∙ ap or_null (
                          s.content key
                          ∙ (ap
                                (λ b.
                                  if b
                                  then some (num s.seq)
                                  else Dict.or_else (Dict.get key delta) (Dict.get key s.live))
                                unmarked
                              ∙ ap (λ o. Dict.or_else o (Dict.get key s.live)) there))),
              λ p e. ap (value_at key p) s.bindings ∙ value_at-set_ne key w.bindings a p s.stored e,
            )
      ]
