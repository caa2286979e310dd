-- ===== src/Value.antt =====
-- The values that a binding or a journal row holds under a key: JSON scalars. A nested list or
-- object is kept as its JSON text, since no modelled code looks inside one.
use text.Mathlib.TextEquality.{eq_iff}
use long_horizon_agentic_har.Prelude.{
  ℕ, ◌+◌, String, str_eq, Bool, true, false, not, ◌||◌, ◌≡◌, refl, ◌==◌, arith, eq_refl,
}
use long_horizon_agentic_har.Result.{Result, ok, err, type_error}

pub data Value : Type 0 where
  null : Value
  bool : Bool → Value
  num : ℕ → Value
  str : String → Value
  json : String → Value

abbrev same_bool : Bool → Bool → Bool
same_bool true b = b
same_bool false true = false
same_bool false false = true

-- Python's `==` on such values
abbrev pub same : Value → Value → Bool
same null null = true
same (bool a) (bool b) = same_bool a b
same (num a) (num b) = a == b
same (str a) (str b) = str_eq a b
same (json a) (json b) = str_eq a b
same _ _ = false

-- `v is None`
abbrev pub is_null : Value → Bool
is_null null = true
is_null _ = false

-- bool(v)
abbrev pub truthy : Value → Bool
truthy null = false
truthy (bool b) = b
truthy (num n) = not (n == 0)
truthy (str s) = not (str_eq s "")
truthy (json t) = not (str_eq t "[]" || str_eq t "{}")

-- `v + 1`
abbrev pub plus_one : Value → Result Value
plus_one (num n) = ok (num (n + 1))
plus_one _ = err type_error

-- The test agrees with equality.
pub same-eq : (a b : Value) → same a b ≡ true → a ≡ b
same-eq null b h = ground arith
same-eq (bool x) b h = ground arith
same-eq (num x) b h = ground arith
same-eq (str x) (str y) h = ap_str (eq_iff x y).0 h
  where
    ap_str : (str_eq x y ≡ true → x ≡ y) → str_eq x y ≡ true → str x ≡ str y
    ap_str f g = cc (f g)
same-eq (json x) (json y) h = cc ((eq_iff x y).0 h)
same-eq (str x) b h = ground arith
same-eq (json x) b h = ground arith

pub same_refl : (a : Value) → same a a ≡ true
same_refl null = refl
same_refl (bool true) = refl
same_refl (bool false) = refl
same_refl (num n) = ground arith
same_refl (str s) = eq_refl s
same_refl (json s) = eq_refl s
