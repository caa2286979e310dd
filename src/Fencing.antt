-- ===== src/Fencing.antt =====
-- harnessd/fencing.py: the owner token, which ends in the lease epoch, and its checks.
pub mod Tokens
use Prim.Native.String.{◌++◌}
use long_horizon_agentic_har.Prelude.{
  ℕ, ◌+◌, String, Bool, true, false, not, ◌&&◌, ◌≡◌, if◌then◌else◌,
}
use long_horizon_agentic_har.Result.{Result, ok, err, type_error, ◌>>=◌}
use long_horizon_agentic_har.Value.{Value, null, num, str, same, is_null}
use long_horizon_agentic_har.Dict
use long_horizon_agentic_har.Dict.{Dict}
use long_horizon_agentic_har.Decimal.{decimal}

-- `join` raises on a part that is no string
abbrev pub text : Value → Result String
text (str s) = ok s
text _ = err type_error

unfoldable pub mint_owner_token : String → Value → Value → ℕ → Result String
mint_owner_token node_address subagent_id session_uuid lease_epoch = do
  subagent ← text subagent_id
  session ← text session_uuid
  ok (node_address ++ (":" ++ (subagent ++ (":" ++ (session ++ (":" ++ decimal lease_epoch))))))

abbrev next : Value → Result ℕ
next (num n) = ok (n + 1)
next _ = err type_error

-- binding["lease_epoch"] + 1
unfoldable pub advance_epoch : Dict Value → Result ℕ
advance_epoch binding = do epoch ← Dict.index binding "lease_epoch"; next epoch

-- `expected_owner_token is not None and expected_owner_token != binding["owner_token"]`, for
-- each of the two credentials; a credential that is not presented is not looked up
abbrev credential_holds : Dict Value → String → Value → Result Bool
credential_holds binding key expected =
    if is_null expected then ok true else do live ← Dict.index binding key; ok (same expected live)

unfoldable pub check_fence : Dict Value → Value → Value → Result Bool
check_fence binding expected_owner_token expected_lease_epoch = do
  owns ← credential_holds binding "owner_token" expected_owner_token
  if not owns then ok false else credential_holds binding "lease_epoch" expected_lease_epoch
