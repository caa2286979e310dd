-- ===== src/Addressing/SessionName.antt =====
-- What tmux meets in a name that `session_name_for` of harnessd/addressing.py makes.
use Prim.Native.Char.{Char, code}
use Prim.Native.String as Text
use long_horizon_agentic_har.Prelude.{
  String, true, false, ◌≡◌, refl, ap, ◌≢◌, Bool-cases, inl, inr, if◌then◌else◌,
}
use long_horizon_agentic_har.Strings.{contains}
use long_horizon_agentic_har.Strings.Separators.{
  single, contains_one-nil, contains_one-cons, contains_one-append,
}
use long_horizon_agentic_har.Addressing.{is_unsafe, dash, translate, session_name_for}

-- What stands for a character is not `d`, if `d` is replaced and is not the dash.
replaced : (c d : Char) → is_unsafe d ≡ true → d ≢ dash → d ≢ (if is_unsafe c then dash else c)
replaced c d unsafe other h = elim (Bool-cases (is_unsafe c)) [
  | inl q ↦ other (rw q at h)
  | inr q ↦ let same : d ≡ c = rw q at h in let no : true ≡ false = cc in cc
]

contains-translate :
    (d : Char) (s : String)
    → is_unsafe d ≡ true
    → d ≢ dash
    → contains (single d) (translate s) ≡ false
unfolding translate
contains-translate d Text.[] unsafe other = contains_one-nil d
contains-translate d (Text.◌∷◌ c s) unsafe other =
    contains_one-cons (if is_unsafe c then dash else c) d (translate s) (replaced c d unsafe other)
      (contains-translate d s unsafe other)

contains-session_name_for :
    (d : Char) (address : String)
    → contains (single d) "harness-" ≡ false
    → is_unsafe d ≡ true
    → d ≢ dash
    → contains (single d) (session_name_for address) ≡ false
unfolding session_name_for
contains-session_name_for d address prefix unsafe other =
    contains_one-append d "harness-" (translate address) prefix
      (contains-translate d address unsafe other)

-- A session name contains none of "/", "#", ":" and ".", whatever the address.
pub session_name_for-contains :
    (address : String)
    → (contains "/" (session_name_for address) ≡ false)
      × (contains "#" (session_name_for address) ≡ false)
      × (contains ":" (session_name_for address) ≡ false)
      × (contains "." (session_name_for address) ≡ false)
unfolding contains
session_name_for-contains address = (
  contains-session_name_for "/" address refl refl (λ h. cc (ap code h)),
  contains-session_name_for "#" address refl refl (λ h. cc (ap code h)),
  contains-session_name_for ":" address refl refl (λ h. cc (ap code h)),
  contains-session_name_for "." address refl refl (λ h. cc (ap code h)),
)
