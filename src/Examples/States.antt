-- ===== src/Examples/States.antt =====
-- Lifecycle, tokens, names and admission at concrete inputs.
use long_horizon_agentic_har.Prelude.{ℕ, String, true, false, str_eq, ◌≡◌, ◌⊎◌, refl, [], ◌∷◌}
use long_horizon_agentic_har.Value.{str}
use long_horizon_agentic_har.Dict
use long_horizon_agentic_har.Strings.{contains}
use long_horizon_agentic_har.Addressing.{session_name_for}
use long_horizon_agentic_har.Addressing.SessionName.{session_name_for-contains}
use long_horizon_agentic_har.Decimal
use long_horizon_agentic_har.Fencing.{mint_owner_token}
use long_horizon_agentic_har.Fencing.Tokens.{mint_owner_token-epoch}
use long_horizon_agentic_har.States.{
  contains as has_state, known_states, is_terminal, is_legal, allowed_transitions,
}
use long_horizon_agentic_har.States.Edges.{legal-shape, legal-deaths}
use long_horizon_agentic_har.States.History.{Run, start, step, Run-required}

legal-shape_example :
    (has_state "claimed" known_states ≡ true)
    × (has_state "spawning" known_states ≡ true)
    × (str_eq "claimed" "spawning" ≡ false)
    × ((is_terminal "claimed" ≡ false)
        ⊎ (◌≡◌ {A = String} "claimed" "dead" × ◌≡◌ {A = String} "spawning" "claimed"))
unfolding is_legal allowed_transitions Dict.get
legal-shape_example = legal-shape "claimed" "spawning" refl

legal-deaths_example : (is_legal "blocked" "dead" ≡ true) × (is_legal "blocked" "failed" ≡ true)
legal-deaths_example = legal-deaths "blocked" refl

abbrev running_run : Run "running" ("spawning" ∷ "claimed" ∷ "planned" ∷ [])
unfolding is_legal allowed_transitions Dict.get
running_run =
    step "running" (step "spawning" (step "claimed" (start "planned" refl) refl) refl) refl

Run-required_example : has_state "claimed" ("spawning" ∷ "claimed" ∷ "planned" ∷ []) ≡ true
unfolding is_legal allowed_transitions Dict.get
Run-required_example =
    Run-required "running" "claimed" ("spawning" ∷ "claimed" ∷ "planned" ∷ []) running_run refl

mint_owner_token-epoch_example : ◌≡◌ {A = ℕ} 12 12
unfolding mint_owner_token
mint_owner_token-epoch_example =
    mint_owner_token-epoch "a#exec" "a#exec" (str "s") (str "u") (str "s") (str "u") 12 12
      "a#exec:s:u:12" (unfold Decimal.decimal in refl) (unfold Decimal.decimal in refl)

session_name_for-contains_example :
    (contains "/" (session_name_for "proj/a.b#exec") ≡ false)
    × (contains "#" (session_name_for "proj/a.b#exec") ≡ false)
    × (contains ":" (session_name_for "proj/a.b#exec") ≡ false)
    × (contains "." (session_name_for "proj/a.b#exec") ≡ false)
session_name_for-contains_example = session_name_for-contains "proj/a.b#exec"
