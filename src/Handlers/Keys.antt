-- ===== src/Handlers/Keys.antt =====
-- internal/handler/api_key_handler.go. An issued key is answered with its text.
use dodo_payment_gateway.Base.{ℕ, String, Option, none, some, List, ◌==◌, is_some, if◌then◌else◌}
use dodo_payment_gateway.Model.{ApiKey}
use dodo_payment_gateway.Errors.{
  Error, business_not_found, api_key_not_found, api_key_not_owned, api_key_revoked,
  api_key_bootstrap,
}
use dodo_payment_gateway.Store.{M, ◌>>=◌, pure, try}
use dodo_payment_gateway.Keys
use dodo_payment_gateway.Handlers.{Answer, bad_request, require_business_id, answer}

-- A field that the JSON lacks, or that does not bind, has its zero value.
pub record CreateApiKeyRequest : Type 0 where
  pub business_id : String
  pub name : Option String

-- writeAPIKeyError
abbrev pub api_key_error_status : Error → String → ℕ
api_key_error_status business_not_found message = 404
api_key_error_status api_key_not_found message = 404
api_key_error_status api_key_not_owned message = 403
api_key_error_status api_key_revoked message = 409
api_key_error_status api_key_bootstrap message = 409
api_key_error_status _ message = 500

-- The business of the context, if there is one, in place of the request's.
abbrev pub key_business : Option String → String → String
key_business none requested = requested
key_business (some business_id) requested = business_id

unfoldable pub create_api_key : CreateApiKeyRequest → Option String → M (Answer (String × ApiKey))
unfolding answer
create_api_key req context =
    if key_business context req.business_id == ""
    then pure (bad_request "business_id is required")
    else do
      created ←
          try
            (Keys.create_api_key (key_business context req.business_id) req.name (is_some context))
      answer 201 api_key_error_status created

unfoldable pub list_api_keys : Option String → M (Answer (List ApiKey))
unfolding require_business_id answer
list_api_keys context = require_business_id context λ business_id. do
  keys ← try (Keys.list_api_keys business_id)
  answer 200 api_key_error_status keys

unfoldable pub revoke_api_key : String → Option String → M (Answer ApiKey)
unfolding require_business_id answer
revoke_api_key key_id context = require_business_id context λ business_id. do
  revoked ← try (Keys.revoke_api_key business_id key_id)
  answer 200 api_key_error_status revoked

unfoldable pub rotate_api_key : String → Option String → M (Answer (String × ApiKey × ApiKey))
unfolding require_business_id answer
rotate_api_key key_id context = require_business_id context λ business_id. do
  rotated ← try (Keys.rotate_api_key business_id key_id)
  answer 200 api_key_error_status rotated
