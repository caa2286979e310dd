-- ===== src/Executor/Transition/Cas.antt =====
-- What `transition` of harnessd/executor.py commits, and what it leaves alone.
use long_horizon_agentic_har.Prelude.{
  String, Bool, true, false, not, Option, none, some, List, [], ◌∷◌, ◌≡◌, ◌⊎◌, inl, inr, refl, sym,
  ◌∙◌, ap, if◌then◌else◌, Bool-cases, Option-cases, subst,
}
use long_horizon_agentic_har.Result.{Result, ok, err, key_error, ◌>>=◌}
use long_horizon_agentic_har.Value.{Value, null, str, same, same-eq}
use long_horizon_agentic_har.Dict
use long_horizon_agentic_har.Dict.{Dict, get-set, get-update}
use long_horizon_agentic_har.States.{is_legal_value}
use long_horizon_agentic_har.Validate.{Notice}
use long_horizon_agentic_har.Ledger.{Row}
use long_horizon_agentic_har.Ledger.Journal.{Journal}
use long_horizon_agentic_har.Executor.{
  Binding, World, Reason, cas_state, cas_generation, illegal, is_stale,
}
use long_horizon_agentic_har.Executor.Transition.{
  Request, Decision, refuse, admit, decide_candidate, decide_edge, decide,
}

-- A gate that compares a field with what the caller expects.
gate :
    (o : Option Value) (key : String) (expected : Value) (reason : Reason)
    (rest : Value → Result Decision) (c : Binding) (row : Row) (ws : List Notice)
    → (do
      v ← Dict.from_get key o
      if not (same v expected) then ok (refuse (reason ∷ []) []) else rest v)
      ≡ ok (admit c row ws)
    → (o ≡ some expected) × (rest expected ≡ ok (admit c row ws))
gate none key expected reason rest c row ws h = cc
gate (some v) key expected reason rest c row ws h = elim (Bool-cases (same v expected)) [
  | inl e ↦ (
    ap some (same-eq v expected e),
    subst (λ x. rest x ≡ ok (admit c row ws)) (same-eq v expected e) (rw e at h),
  )
  | inr e ↦ let refused_here : ok (refuse (reason ∷ []) []) ≡ ok (admit c row ws) = rw e at h in cc
]

owner_gate :
    (expected : Value) (b : Binding) (rest : Bool → Result Decision) (d : Decision)
    → (do is_stale_token ← is_stale expected b; rest is_stale_token) ≡ ok d
    → (rest true ≡ ok d)
      ⊎ (((expected ≡ null) ⊎ (Dict.get "owner_token" b ≡ some expected)) × (rest false ≡ ok d))
unfolding is_stale
owner_gate null b rest d h = inr (inl refl, h)
owner_gate expected b rest d h = elim (Option-cases (Dict.get "owner_token" b)) [
  | inl n ↦ let raised : err (key_error "owner_token") ≡ ok d = rw n at h in cc
  | inr (v, e) ↦ elim (Bool-cases (same v expected)) [
    | inl q ↦ inr (inr (e ∙ ap some (same-eq v expected q)), rw (e, q) at h)
    | inr q ↦ inl (rw (e, q) at h)
  ]
]

module _ (j : Journal) where
  -- The binding passed the gates before the candidate is built.
  pub record Passed (r : Request) (binding : Binding) : Type 0 where
    pub state : Dict.get "state" binding ≡ some r.expected_state
    pub generation : Dict.get "generation" binding ≡ some r.expected_generation
    pub owner :
        (r.expected_owner_token ≡ null)
        ⊎ (Dict.get "owner_token" binding ≡ some r.expected_owner_token)
    pub edge :
        (r.expected_state ≡ str r.target_state)
        ⊎ (is_legal_value r.expected_state (str r.target_state) ≡ true)

  edge_passed :
      (r : Request) (b c : Binding) (state generation : Value) (row : Row) (ws : List Notice)
      (w : World j)
      → decide_edge j r b state generation false w ≡ ok (admit c row ws)
      → ((state ≡ str r.target_state) ⊎ (is_legal_value state (str r.target_state) ≡ true))
        × (decide_candidate j r b state generation w ≡ ok (admit c row ws))
  edge_passed r b c state generation row ws w h =
      elim (Bool-cases (same (str r.target_state) state)) [
        | inl e ↦ (inl (sym (same-eq (str r.target_state) state e)), rw e at h)
        | inr e ↦ elim (Bool-cases (is_legal_value state (str r.target_state))) [
          | inl l ↦ (inr l, rw (e, l) at h)
          | inr l ↦
              let refused_here : ok (refuse (illegal ∷ []) []) ≡ ok (admit c row ws) =
                rw (e, l) at h in
              cc
        ]
      ]

  pub decide-Passed :
      (r : Request) (b c : Binding) (row : Row) (ws : List Notice) (w : World j)
      → decide j r b w ≡ ok (admit c row ws)
      → Passed r b
        × (decide_candidate j r b r.expected_state r.expected_generation w ≡ ok (admit c row ws))
  unfolding decide
  decide-Passed r b c row ws w h =
      let (es, h1) = gate (Dict.get "state" b) "state" r.expected_state cas_state _ c row ws h in
      let (eg, h2) =
        gate (Dict.get "generation" b) "generation" r.expected_generation cas_generation _ c row ws
          h1 in
      elim (owner_gate r.expected_owner_token b _ _ h2) [
        | inl h3 ↦ cc
        | inr (eo, h3) ↦
            let (ee, h4) = edge_passed r b c r.expected_state r.expected_generation row ws w h3 in
            (record { state = es; generation = eg; owner = eo; edge = ee }, h4)
      ]
