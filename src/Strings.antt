-- ===== src/Strings.antt =====
-- The operations of Python's str that the code uses.
pub mod Separators
use Prim.Native.Char.{Char, code}
use Prim.Native.String as Text
use text.Mathlib.Text.{starts_with}
use text.Mathlib.TextLemmas
use text.Mathlib.TextPositions.{starts_with-append}
use long_horizon_agentic_har.Prelude.{
  ℕ, String, str_eq, Bool, true, false, ◌&&◌, ◌||◌, leb, ◌==◌, if◌then◌else◌, ◌≡◌, refl, List, [],
  ◌∷◌, Option, none, some,
}

abbrev between : ℕ → ℕ → ℕ → Bool
between lo hi c = leb lo c && leb c hi

-- The characters that str.strip removes.
unfoldable pub is_space : ℕ → Bool
is_space c =
    between 9 13 c
    || (between 28 32 c
        || (c == 133
            || (c == 160
                || (c == 5760
                    || (between 8192 8202 c
                        || (between 8232 8233 c || (c == 8239 || (c == 8287 || c == 12288))))))))

-- needle in text
unfoldable pub contains : String → String → Bool
contains needle Text.[] = starts_with "" needle
contains needle (Text.◌∷◌ c s) =
    let rest = contains needle s in if starts_with (Text.◌∷◌ c s) needle then true else rest

-- separator.join(parts)
unfoldable pub join : String → List String → String
join separator [] = ""
join separator (p ∷ []) = p
join separator (p ∷ q ∷ ps) = Text.◌++◌ p (Text.◌++◌ separator (join separator (q ∷ ps)))

-- text.strip()
unfoldable pub lstrip : String → String
unfolding is_space
lstrip Text.[] = ""
lstrip (Text.◌∷◌ c s) = let rest = lstrip s in if is_space (code c) then rest else Text.◌∷◌ c s

unfoldable pub rstrip : String → String
unfolding is_space
rstrip Text.[] = ""
rstrip (Text.◌∷◌ c s) =
    let rest = rstrip s in if str_eq rest "" && is_space (code c) then "" else Text.◌∷◌ c rest

unfoldable pub strip : String → String
unfolding lstrip rstrip
strip s = rstrip (lstrip s)

abbrev onto_first : Char → List String → List String
onto_first c [] = Text.◌∷◌ c "" ∷ []
onto_first c (p ∷ ps) = Text.◌∷◌ c p ∷ ps

-- text.split(separator), for a separator of one character
unfoldable pub split : ℕ → String → List String
split separator Text.[] = "" ∷ []
split separator (Text.◌∷◌ c s) =
    let rest = split separator s in if code c == separator then "" ∷ rest else onto_first c rest

abbrev onto_before : Char → Option (String × String) → Option (String × String)
onto_before c none = none
onto_before c (some (before, after)) = some (Text.◌∷◌ c before, after)

-- text.split(separator, 1); none if the separator is not in the text
unfoldable pub split_once : ℕ → String → Option (String × String)
split_once separator Text.[] = none
split_once separator (Text.◌∷◌ c s) =
    let rest = split_once separator s in
    if code c == separator then some ("", s) else onto_before c rest

contains_of_start : (needle s : String) → starts_with s needle ≡ true → contains needle s ≡ true
unfolding contains
contains_of_start needle Text.[] h = h
contains_of_start needle (Text.◌∷◌ c s) h = rw h refl

true_either : (t : Bool) → (if t then true else true) ≡ true
true_either true = refl
true_either false = refl

contains_later :
    (c : Char) (needle s : String)
    → contains needle s ≡ true
    → contains needle (Text.◌∷◌ c s) ≡ true
unfolding contains
contains_later c needle s h = rw h (true_either _)

-- A text is in each text that has it as a part.
pub contains-append :
    (before needle after : String)
    → contains needle (Text.◌++◌ before (Text.◌++◌ needle after)) ≡ true
contains-append Text.[] needle after =
    rw TextLemmas.nil-append (contains_of_start needle _ (starts_with-append needle after))
contains-append (Text.◌∷◌ c s) needle after =
    rw TextLemmas.cons-append (contains_later c needle _ (contains-append s needle after))
