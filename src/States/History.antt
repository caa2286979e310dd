-- ===== src/States/History.antt =====
-- The runs of the lifecycle of harnessd/states.py: lists of states, the latest first, each joined
-- to the one before it by a legal edge.
use long_horizon_agentic_har.Prelude.{
  String, str_eq, Bool, true, false, List, [], ◌∷◌, ◌||◌, ◌≡◌, refl, subst, all, if◌then◌else◌,
}
use long_horizon_agentic_har.States.{contains, allowed_transitions, is_legal}
use long_horizon_agentic_har.States.Edges.{legal-every_edge, all-contains}

-- A run from the registration of a node, in state planned.
pub data Run : String → List String → Type 0 where
  start : (s : String) → s ≡ "planned" → Run s []
  step : {s : String} {h : List String} (t : String) → Run s h → is_legal s t ≡ true → Run t (s ∷ h)

-- The states that a node must have been in before it is in `s`.
abbrev pub required : String → List String
required s =
    if str_eq s "spawning"
    then "claimed" ∷ []
    else if str_eq s "running"
    then "claimed" ∷ "spawning" ∷ []
    else if str_eq s "blocked"
    then "claimed" ∷ "spawning" ∷ "running" ∷ []
    else if str_eq s "done"
    then "claimed" ∷ "spawning" ∷ "running" ∷ []
    else []

abbrev brings : String → String → Bool
brings s t = all (λ r. str_eq s r || contains r (required s)) (required t)

start_free : (r : String) → contains r (required "planned") ≡ true → ⊥
start_free r k = cc

or_map : (a b c : Bool) → (a || b) ≡ true → (b ≡ true → c ≡ true) → (a || c) ≡ true
or_map true b c h f = refl
or_map false b c h f = f h

-- Whatever run of legal edges leads to a state, it has passed each state that the state requires:
-- nothing is done that has not been claimed, spawned and running.
pub Run-required :
    (s r : String) (h : List String)
    → Run s h
    → contains r (required s) ≡ true
    → contains r h ≡ true
Run-required s r h (start _ e) k =
    absurd (start_free r (subst (λ x. contains r (required x) ≡ true) e k))
Run-required t r hist (step {s = s} {h = h} _ run e) k =
    or_map (str_eq s r) _ _
      (all-contains (λ x. str_eq s x || contains x (required s)) r (required t)
        (legal-every_edge brings s t (unfold allowed_transitions in refl) e) k)
      (Run-required s r h run)
