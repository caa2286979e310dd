-- ===== src/Fencing/Tokens.antt =====
-- What the owner tokens of harnessd/fencing.py tell apart.
use Prim.Native.String.{◌++◌}
use long_horizon_agentic_har.Prelude.{ℕ, String, ◌≡◌, sym, ◌∙◌}
use long_horizon_agentic_har.Result.{ok}
use long_horizon_agentic_har.Value.{Value, null, str}
use long_horizon_agentic_har.Decimal.{decimal, last_number, last_number-colon, last_number-decimal}
use long_horizon_agentic_har.Fencing.{mint_owner_token}

last_number-token :
    (a u v : String) (e : ℕ)
    → last_number 0 (a ++ (":" ++ (u ++ (":" ++ (v ++ (":" ++ decimal e)))))) ≡ e
last_number-token a u v e =
    last_number-colon a 0 _
    ∙ (last_number-colon u 0 _ ∙ (last_number-colon v 0 _ ∙ last_number-decimal e))

-- The number behind the last colon of a token is the epoch that it was minted at.
pub epoch_of_token :
    (a : String) (u v : Value) (e : ℕ) (t : String)
    → mint_owner_token a u v e ≡ ok t
    → last_number 0 t ≡ e
unfolding mint_owner_token
epoch_of_token a (str u) (str v) e t h = cc (h, last_number-token a u v e)
epoch_of_token a null v e t h = cc
epoch_of_token a (str u) v e t h = cc
epoch_of_token a u v e t h = cc

-- Two tokens that are equal were minted at one epoch, whatever their addresses, agents and
-- sessions.
pub mint_owner_token-epoch :
    (a a' : String) (u v u' v' : Value) (e e' : ℕ) (t : String)
    → mint_owner_token a u v e ≡ ok t
    → mint_owner_token a' u' v' e' ≡ ok t
    → e ≡ e'
mint_owner_token-epoch a a' u v u' v' e e' t h k =
    sym (epoch_of_token a u v e t h) ∙ epoch_of_token a' u' v' e' t k
