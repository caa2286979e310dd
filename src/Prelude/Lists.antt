-- ===== src/Prelude/Lists.antt =====
-- Lists over the native numbers.
use Prim.Native.Nat.{ℕ, zero, suc, ◌+◌}
use mathlib.Core.Bool.{Bool, true, ◌&&◌}
use mathlib.Core.Path.{◌≡◌}
use mathlib.Core.List.{List, [], ◌∷◌, ◌++◌}
use native.Mathlib.Omega.{arith}

module _ {ℓ} {A : Type ℓ} where
  abbrev pub length : List A → ℕ
  length [] = 0
  length (x ∷ xs) = suc (length xs)

  abbrev pub take : ℕ → List A → List A
  take zero xs = []
  take (suc n) [] = []
  take (suc n) (x ∷ xs) = x ∷ take n xs

  -- `P` holds of each element.
  abbrev pub All {κ} : (A → Type κ) → List A → Type κ
  All P [] = Unit
  All P (x ∷ xs) = P x × All P xs

  abbrev pub all : (A → Bool) → List A → Bool
  all p [] = true
  all p (x ∷ xs) = p x && all p xs

  pub length-append : (xs ys : List A) → length (xs ++ ys) ≡ length xs + length ys
  length-append [] ys = omega arith
  length-append (x ∷ xs) ys = omega (arith, length-append xs ys)

  pub All-append {κ} : (P : A → Type κ) (xs ys : List A) → All P xs → All P ys → All P (xs ++ ys)
  All-append P [] ys h k = k
  All-append P (x ∷ xs) ys h k = (h.0, All-append P xs ys h.1 k)

  pub All-prefix {κ} : (P : A → Type κ) (xs ys : List A) → All P (xs ++ ys) → All P xs
  All-prefix P [] ys h = tt
  All-prefix P (x ∷ xs) ys h = (h.0, All-prefix P xs ys h.1)

  pub nil-ne-append : (xs ys : List A) (y : A) → [] ≡ xs ++ (y ∷ ys) → ⊥
  nil-ne-append [] ys y h = cc
  nil-ne-append (x ∷ xs) ys y h = cc

  pub append_cancel_left : (xs ys zs : List A) → xs ++ ys ≡ xs ++ zs → ys ≡ zs
  append_cancel_left [] ys zs h = h
  append_cancel_left (x ∷ xs) ys zs h = append_cancel_left xs ys zs (cc)

  -- What ends at least two places before the end is cut off before the last place.
  pub cut_before_last :
      (xs before rest : List A) (last x y : A)
      → xs ++ (last ∷ []) ≡ before ++ (x ∷ y ∷ rest)
      → (after : List A) × (xs ≡ before ++ (x ∷ after))
  cut_before_last [] [] rest last x y h = absurd (cc h)
  cut_before_last [] (b ∷ before) rest last x y h = absurd (nil-ne-append before (y ∷ rest) x (cc))
  cut_before_last (a ∷ xs) [] rest last x y h = (xs, cc)
  cut_before_last (a ∷ xs) (b ∷ before) rest last x y h =
      let (after, e) = cut_before_last xs before rest last x y (cc) in (after, cc)
