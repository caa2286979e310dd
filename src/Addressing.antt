-- ===== src/Addressing.antt =====
-- harnessd/addressing.py: an address is <path>#<seat>.
pub mod Paths
pub mod SessionName
use Prim.Native.Char.{Char, code}
use Prim.Native.String as Text
use text.Mathlib.TextLemmas
use long_horizon_agentic_har.Prelude.{
  String, str_eq, Bool, true, false, ◌||◌, ◌≡◌, refl, ◌==◌, if◌then◌else◌, Bool-cases, inl, inr,
  Option, none, some,
}

abbrev pub cons_fst : Char → String × Option String → String × Option String
cons_fst c (path, rest) = (Text.◌∷◌ c path, rest)

-- address.partition("#"); none behind the path if there is no "#"
unfoldable pub partition_hash : String → String × Option String
partition_hash Text.[] = ("", none)
partition_hash (Text.◌∷◌ c s) =
    let rest = partition_hash s in if code c == 35 then ("", some s) else cons_fst c rest

abbrev pub default_seat : String
default_seat = "exec"

abbrev pub seat_or_default : Option String → String
seat_or_default none = default_seat
seat_or_default (some seat) = if str_eq seat "" then default_seat else seat

unfoldable pub split_address : String → String × String
split_address address = let (path, rest) = partition_hash address in (path, seat_or_default rest)

unfoldable pub node_path : String → String
node_path address = (split_address address).0

abbrev pub is_unsafe : Char → Bool
is_unsafe c = code c == 47 || (code c == 35 || (code c == 58 || code c == 46))

abbrev pub dash : Char
dash = "-"

-- address.translate(_SESSION_UNSAFE): "/", "#", ":" and "." become "-"
unfoldable pub translate : String → String
translate Text.[] = ""
translate (Text.◌∷◌ c s) = let rest = translate s in Text.◌∷◌ (if is_unsafe c then dash else c) rest

unfoldable pub session_name_for : String → String
unfolding translate
session_name_for address = Text.◌++◌ "harness-" (translate address)
