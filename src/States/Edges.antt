-- ===== src/States/Edges.antt =====
-- The edges of the legality table of harnessd/states.py.
use long_horizon_agentic_har.Prelude.{
  String, str_eq, eq_iff, Bool, true, false, List, [], ◌∷◌, ◌&&◌, ◌||◌, not, ◌≡◌, ◌⊎◌, refl, subst,
  all, arith, Bool-cases, inl, inr,
}
use long_horizon_agentic_har.Dict
use long_horizon_agentic_har.Dict.{Dict}
use long_horizon_agentic_har.States.{
  contains, known_states, non_terminal_states, allowed_transitions, is_terminal, is_legal, or_empty,
}

-- `p` holds of each edge of a table.
abbrev pub every_edge : (String → String → Bool) → Dict (List String) → Bool
every_edge p [] = true
every_edge p ((s, ts) ∷ d) = all (p s) ts && every_edge p d

pub all-contains :
    (p : String → Bool) (t : String) (ts : List String)
    → all p ts ≡ true
    → contains t ts ≡ true
    → p t ≡ true
all-contains p t (x ∷ ts) h k = elim (Bool-cases (str_eq x t)) [
  | inl e ↦ subst (λ y. p y ≡ true) ((eq_iff x t).0 e) (ground arith)
  | inr e ↦ all-contains p t ts (ground arith) (ground arith)
]
all-contains p t [] h k = cc

every_edge-lookup :
    (p : String → String → Bool) (s t : String) (d : Dict (List String))
    → every_edge p d ≡ true
    → contains t (or_empty (Dict.get s d)) ≡ true
    → p s t ≡ true
unfolding Dict.get
every_edge-lookup p s t [] h k = cc
every_edge-lookup p s t ((j, ts) ∷ d) h k = elim (Bool-cases (str_eq j s)) [
  | inl e ↦
      subst (λ y. p y t ≡ true) ((eq_iff j s).0 e)
        (all-contains (p j) t ts (ground arith) (ground arith))
  | inr e ↦ every_edge-lookup p s t d (ground arith) (ground arith)
]

-- What a table of edges passes as a whole holds at each legal edge.
pub legal-every_edge :
    (p : String → String → Bool) (s t : String)
    → every_edge p allowed_transitions ≡ true
    → is_legal s t ≡ true
    → p s t ≡ true
unfolding is_legal
legal-every_edge p s t h k = every_edge-lookup p s t allowed_transitions h k

abbrev edge_shape : String → String → Bool
edge_shape s t =
    contains s known_states
    && (contains t known_states
        && (not (str_eq s t) && (not (is_terminal s) || (str_eq s "dead" && str_eq t "claimed"))))

and_parts :
    (a b c d e f : Bool)
    → (a && (b && (not c && (not d || (e && f))))) ≡ true
    → (a ≡ true) × (b ≡ true) × (c ≡ false) × ((d ≡ false) ⊎ ((e ≡ true) × (f ≡ true)))
and_parts a b c d e f h = ground arith

-- A legal edge joins two different known states, and leaves a terminal state only for the
-- re-adoption dead to claimed.
pub legal-shape :
    (s t : String)
    → is_legal s t ≡ true
    → (contains s known_states ≡ true)
      × (contains t known_states ≡ true)
      × (str_eq s t ≡ false)
      × ((is_terminal s ≡ false) ⊎ ((s ≡ "dead") × (t ≡ "claimed")))
legal-shape s t h =
    let (known_s, known_t, ne, exits) =
      and_parts _ _ _ (is_terminal s) (str_eq s "dead") (str_eq t "claimed")
        (legal-every_edge edge_shape s t (unfold allowed_transitions is_terminal in refl) h) in
    (
      known_s,
      known_t,
      ne,
      elim exits [
        | inl e ↦ inl e
        | inr e ↦ inr ((eq_iff s "dead").0 e.0, (eq_iff t "claimed").0 e.1)
      ],
    )

-- From every state that is not terminal the edges to dead and to failed are legal.
pub legal-deaths :
    (s : String)
    → contains s non_terminal_states ≡ true
    → (is_legal s "dead" ≡ true) × (is_legal s "failed" ≡ true)
legal-deaths s h =
    let both : (is_legal s "dead" && is_legal s "failed") ≡ true =
      all-contains (λ x. is_legal x "dead" && is_legal x "failed") s non_terminal_states
        (unfold is_legal allowed_transitions Dict.get in refl) h in
    ground arith
