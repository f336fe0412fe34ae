-- ===== src/Auth.antt =====
-- internal/middleware/auth.go. A request goes on with the key that is returned, if any, in its context;
-- an error is the answer 401. The goroutine that APIKeyAuth starts is `touch`.
pub mod Header
pub mod Access
use Prim.Native.Char.{Char, code}
use dodo_payment_gateway.Base.{
  ℕ, String, Bool, true, false, Option, none, some, ◌==◌, nat_eq, if◌then◌else◌,
}
use dodo_payment_gateway.Model.{ApiKey}
use dodo_payment_gateway.Errors.{
  Result, ok, err, missing_authorization, invalid_authorization, invalid_api_key,
}
use dodo_payment_gateway.Store.{World, M, ◌>>=◌, ◌>>◌, pure, raise, try, asks, time_now}
use dodo_payment_gateway.Repository.ApiKeys
use dodo_payment_gateway.Payment.Guards.{return_or}

-- A character in front of the first part.
abbrev pub prepend : Char → Option (String × String) → Option (String × String)
prepend c none = none
prepend c (some (a, b)) = some (String.◌∷◌ c a, b)

-- `strings.SplitN(s, " ", 2)`, if it has two parts.
unfoldable pub split_space : String → Option (String × String)
split_space String.[] = none
split_space (String.◌∷◌ c s) =
    let rest = split_space s in if nat_eq (code c) b' ' then some ("", s) else prepend c rest

-- What follows "Bearer" and a space.
unfoldable pub bearer : Option (String × String) → Option String
bearer none = none
bearer (some (scheme, raw_key)) = if scheme == "Bearer" then some raw_key else none

unfoldable pub authenticate_with : Option String → M (Option ApiKey)
authenticate_with none = raise invalid_authorization
authenticate_with (some raw_key) = do
  key_hash ← asks (λ env. env.sha256_hex raw_key)
  read ← try (ApiKeys.get_by_hash key_hash)
  key ← return_or (λ e. invalid_api_key) read
  pure (some key)

-- A header that is absent is "".
unfoldable pub authenticate_api_key : String → Bool → M (Option ApiKey)
unfolding split_space bearer authenticate_with
authenticate_api_key auth_header required =
    if auth_header == ""
    then (if required then raise missing_authorization else pure none)
    else authenticate_with (bearer (split_space auth_header))

unfoldable pub api_key_auth : String → M (Option ApiKey)
unfolding authenticate_api_key
api_key_auth auth_header = authenticate_api_key auth_header true

unfoldable pub optional_api_key_auth : String → M (Option ApiKey)
unfolding authenticate_api_key
optional_api_key_auth auth_header =
    if auth_header == "" then pure none else authenticate_api_key auth_header true

-- Its error is not looked at.
unfoldable pub touch : ApiKey → M (Unit {0})
touch key = do now ← time_now; try (ApiKeys.touch_last_used key.id now); pure tt
