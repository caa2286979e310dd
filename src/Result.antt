-- ===== src/Result.antt =====
-- Python's exceptions as values: what a call returns, or the exception that it raises.
use long_horizon_agentic_har.Prelude.{◌≡◌, ◌⊎◌, inl, inr, refl, String, ℕ}

pub data Error : Type 0 where
  key_error : String → Error
  type_error value_error missing_transcript_path : Error
  wal_corruption : ℕ → Error

pub data Result {ℓ} (Returned : Type ℓ) : Type ℓ where
  err : Error → Result Returned
  ok : Returned → Result Returned

infixl 5 ◌>>=◌
abbrev pub ◌>>=◌ {ℓ κ} : {X : Type ℓ} {Y : Type κ} → Result X → (X → Result Y) → Result Y
err raised >>= next_step = err raised
ok x >>= next_step = next_step x

-- What a successful sequence of two steps says of each.
pub >>=-eq-ok {ℓ κ} :
    {X : Type ℓ} {Y : Type κ} (first : Result X) (next_step : X → Result Y) {y : Y}
    → (first >>= next_step) ≡ ok y
    → (x : X) × (first ≡ ok x) × (next_step x ≡ ok y)
>>=-eq-ok (err raised) next_step h = cc
>>=-eq-ok (ok x) next_step h = (x, refl, h)

pub Result-cases {ℓ} :
    {X : Type ℓ} (r : Result X) → ((x : X) × (r ≡ ok x)) ⊎ ((raised : Error) × (r ≡ err raised))
Result-cases (err raised) = inr (raised, refl)
Result-cases (ok x) = inl (x, refl)

pub ok-inj {ℓ} : {X : Type ℓ} (x y : X) → ok x ≡ ok y → x ≡ y
ok-inj x y h = cc
