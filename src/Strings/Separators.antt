-- ===== src/Strings/Separators.antt =====
-- Texts without a character, as `in` of Python's str tells.
use Prim.Native.Char.{Char}
use Prim.Native.String as Text
use text.Mathlib.Text.{starts_with}
use text.Mathlib.TextEquality.{starts_with_iff}
use text.Mathlib.TextLemmas
use long_horizon_agentic_har.Prelude.{
  String, true, false, ◌≡◌, sym, ◌∙◌, ap, subst, ◌≢◌, Bool-cases, inl, inr,
}
use long_horizon_agentic_har.Strings.{contains}

-- The text of one character.
abbrev pub single : Char → String
single d = Text.◌∷◌ d ""

first_of_starts_with :
    (c d : Char) (s : String) → starts_with (Text.◌∷◌ c s) (single d) ≡ true → d ≡ c
first_of_starts_with c d s h =
    let (u, e) = (starts_with_iff (Text.◌∷◌ c s) (single d)).0 h in
    TextLemmas.head-eq_of_cons-eq (sym (TextLemmas.cons-append d "" u) ∙ e)

starts_with_of_first : (c : Char) (s : String) → starts_with (Text.◌∷◌ c s) (single c) ≡ true
starts_with_of_first c s =
    (starts_with_iff (Text.◌∷◌ c s) (single c)).1
      (s, TextLemmas.cons-append c "" s ∙ ap (λ x. Text.◌∷◌ c x) (TextLemmas.nil-append s))

pub contains_one-nil : (d : Char) → contains (single d) "" ≡ false
unfolding contains
contains_one-nil d = elim (Bool-cases (starts_with "" (single d))) [
  | inr q ↦ q
  | inl q ↦
      let (u, e) = (starts_with_iff "" (single d)).0 q in
      absurd (TextLemmas.cons≢nil (sym (TextLemmas.cons-append d "" u) ∙ e))
]

-- A character is in a text where it is its first one or is in the rest.
pub contains_one-cons :
    (c d : Char) (s : String)
    → d ≢ c
    → contains (single d) s ≡ false
    → contains (single d) (Text.◌∷◌ c s) ≡ false
unfolding contains
contains_one-cons c d s other rest = elim (Bool-cases (starts_with (Text.◌∷◌ c s) (single d))) [
  | inl q ↦ absurd (other (first_of_starts_with c d s q))
  | inr q ↦ rw q rest
]

not_first : (c d : Char) (s : String) → contains (single d) (Text.◌∷◌ c s) ≡ false → d ≢ c
unfolding contains
not_first c d s h same =
    let start : starts_with (Text.◌∷◌ c s) (single d) ≡ true =
      subst (λ x. starts_with (Text.◌∷◌ c s) (single x) ≡ true) (sym same)
        (starts_with_of_first c s) in
    let no : true ≡ false = rw start at h in cc

not_later :
    (c d : Char) (s : String)
    → contains (single d) (Text.◌∷◌ c s) ≡ false
    → contains (single d) s ≡ false
unfolding contains
not_later c d s h = elim (Bool-cases (starts_with (Text.◌∷◌ c s) (single d))) [
  | inl q ↦ let no : true ≡ false = rw q at h in absurd (cc)
  | inr q ↦ rw q at h
]

pub contains_one-append :
    (d : Char) (s t : String)
    → contains (single d) s ≡ false
    → contains (single d) t ≡ false
    → contains (single d) (Text.◌++◌ s t) ≡ false
contains_one-append d Text.[] t h k = rw TextLemmas.nil-append k
contains_one-append d (Text.◌∷◌ c s) t h k = rw TextLemmas.cons-append (
    contains_one-cons c d (Text.◌++◌ s t) (not_first c d s h)
      (contains_one-append d s t (not_later c d s h) k))
