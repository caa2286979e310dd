-- ===== src/Decimal.antt =====
-- Python's str of a natural number: its decimal digits, the most significant first.
use Prim.Native.Char.{Char, code}
use Prim.Native.String as Text
use text.Mathlib.TextLemmas
use long_horizon_agentic_har.Prelude.{
  ℕ, zero, suc, ◌+◌, ◌-◌, ◌*◌, ◌/◌, ◌%◌, ◌≤◌, ◌<◌, String, List, [], ◌∷◌, ◌++◌, ◌≡◌, refl, true,
  false, ◌∙◌, ap, ltb, if◌then◌else◌, arith, All, All-append, Bool-cases, inl, inr,
}

digits_fuel : ℕ → ℕ → List ℕ
digits_fuel zero n = n ∷ []
digits_fuel (suc f) n =
    let rest = digits_fuel f (n / 10) in if ltb n 10 then n ∷ [] else rest ++ (n % 10) ∷ []

-- `n` divisions by ten exhaust `n`
unfoldable pub digits : ℕ → List ℕ
unfolding digits_fuel
digits n = digits_fuel n n

-- The number that digits stand for, behind those already read.
abbrev pub value : ℕ → List ℕ → ℕ
value acc [] = acc
value acc (d ∷ ds) = value (acc * 10 + d) ds

value-append : (acc : ℕ) (xs ys : List ℕ) → value acc (xs ++ ys) ≡ value (value acc xs) ys
value-append acc [] ys = refl
value-append acc (x ∷ xs) ys = value-append (acc * 10 + x) xs ys

value-digits_fuel : (f n : ℕ) → n ≤ f → value 0 (digits_fuel f n) ≡ n
unfolding digits_fuel
value-digits_fuel zero n h = omega arith
value-digits_fuel (suc f) n h =
    ground
      (arith, value-append 0 (digits_fuel f (n / 10)) ((n % 10) ∷ []), value-digits_fuel f (n / 10))

digits_fuel_lt : (f n : ℕ) → n ≤ f → All (λ d. d < 10) (digits_fuel f n)
unfolding digits_fuel
digits_fuel_lt zero n h = (omega arith, tt)
digits_fuel_lt (suc f) n h = elim (Bool-cases (ltb n 10)) [
  | inl small ↦ rw small (ground arith, tt)
  | inr large ↦ rw large (
      All-append (λ d. d < 10) (digits_fuel f (n / 10)) ((n % 10) ∷ [])
        (digits_fuel_lt f (n / 10) (ground arith)) (omega arith, tt))
]

pub value-digits : (n : ℕ) → value 0 (digits n) ≡ n
unfolding digits
value-digits n = value-digits_fuel n n (omega arith)

pub digits_lt : (n : ℕ) → All (λ d. d < 10) (digits n)
unfolding digits
digits_lt n = digits_fuel_lt n n (omega arith)

abbrev digit_text : ℕ → String
digit_text zero = "0"
digit_text (suc zero) = "1"
digit_text (suc (suc zero)) = "2"
digit_text (suc (suc (suc zero))) = "3"
digit_text (suc (suc (suc (suc zero)))) = "4"
digit_text (suc (suc (suc (suc (suc zero))))) = "5"
digit_text (suc (suc (suc (suc (suc (suc zero)))))) = "6"
digit_text (suc (suc (suc (suc (suc (suc (suc zero))))))) = "7"
digit_text (suc (suc (suc (suc (suc (suc (suc (suc zero)))))))) = "8"
digit_text _ = "9"

digits_text : List ℕ → String
digits_text [] = ""
digits_text (d ∷ ds) = Text.◌++◌ (digit_text d) (digits_text ds)

-- str(n)
unfoldable pub decimal : ℕ → String
unfolding digits_text digits
decimal n = digits_text (digits n)

-- The number that the digits at the end of a text stand for, those after its last colon.
pub last_number : ℕ → String → ℕ
last_number acc Text.[] = acc
last_number acc (Text.◌∷◌ c s) =
    last_number (elim (ltb 57 (code c)) [ true ↦ 0 | false ↦ acc * 10 + (code c - 48) ]) s

last_number-char :
    (acc d : ℕ) (c : Char) (t : String)
    → d < 10
    → code c ≡ 48 + d
    → last_number acc (Text.◌++◌ (Text.◌∷◌ c Text.[]) t) ≡ last_number (acc * 10 + d) t
unfolding last_number
last_number-char acc d c t h e =
    rw (TextLemmas.cons-append, TextLemmas.nil-append)
      (ap (λ (a : ℕ). last_number a t) (ground arith))

last_number-digit :
    (acc d : ℕ) (t : String)
    → d < 10
    → last_number acc (Text.◌++◌ (digit_text d) t) ≡ last_number (acc * 10 + d) t
last_number-digit acc zero t h = last_number-char acc 0 "0" t h refl
last_number-digit acc (suc zero) t h = last_number-char acc 1 "1" t h refl
last_number-digit acc (suc (suc zero)) t h = last_number-char acc 2 "2" t h refl
last_number-digit acc (suc (suc (suc zero))) t h = last_number-char acc 3 "3" t h refl
last_number-digit acc (suc (suc (suc (suc zero)))) t h = last_number-char acc 4 "4" t h refl
last_number-digit acc (suc (suc (suc (suc (suc zero))))) t h = last_number-char acc 5 "5" t h refl
last_number-digit acc (suc (suc (suc (suc (suc (suc zero)))))) t h =
    last_number-char acc 6 "6" t h refl
last_number-digit acc (suc (suc (suc (suc (suc (suc (suc zero))))))) t h =
    last_number-char acc 7 "7" t h refl
last_number-digit acc (suc (suc (suc (suc (suc (suc (suc (suc zero)))))))) t h =
    last_number-char acc 8 "8" t h refl
last_number-digit acc (suc (suc (suc (suc (suc (suc (suc (suc (suc zero))))))))) t h =
    last_number-char acc 9 "9" t h refl
last_number-digit acc (suc (suc (suc (suc (suc (suc (suc (suc (suc (suc n)))))))))) t h =
    absurd (omega arith)

last_number-digits_text :
    (acc : ℕ) (ds : List ℕ) → All (λ d. d < 10) ds → last_number acc (digits_text ds) ≡ value acc ds
unfolding digits_text last_number
last_number-digits_text acc [] h = refl
last_number-digits_text acc (d ∷ ds) h =
    last_number-digit acc d (digits_text ds) h.0 ∙ last_number-digits_text (acc * 10 + d) ds h.1

-- A prefix that ends in a colon does not change what the last number is.
pub last_number-colon :
    (s : String) (acc : ℕ) (t : String)
    → last_number acc (Text.◌++◌ s (Text.◌++◌ ":" t)) ≡ last_number 0 t
unfolding last_number
last_number-colon Text.[] acc t =
    rw (TextLemmas.nil-append, TextLemmas.cons-append, TextLemmas.nil-append) refl
last_number-colon (Text.◌∷◌ c s) acc t = rw TextLemmas.cons-append (last_number-colon s _ t)

pub last_number-decimal : (n : ℕ) → last_number 0 (decimal n) ≡ n
unfolding decimal
last_number-decimal n = last_number-digits_text 0 (digits n) (digits_lt n) ∙ value-digits n
