-- ===== src/Keys.antt =====
-- internal/service/api_key_service.go. A key is shown once; the table has its SHA-256 only.
pub mod Issue
pub mod Steps
pub mod Access
pub mod Spent
pub mod Revoked
pub mod Service
pub mod Bootstrap
use Prim.Native.String.{◌++◌, slice}
use dodo_payment_gateway.Base.{
  ℕ, String, Bool, true, false, Option, none, some, List, ◌==◌, ltb, is_some, if◌then◌else◌,
}
use dodo_payment_gateway.Model.{ApiKey}
use dodo_payment_gateway.Errors.{
  Error, Result, ok, err, api_key_not_found, api_key_not_owned, api_key_revoked, api_key_bootstrap,
  business_not_found,
}
use dodo_payment_gateway.Store.{
  World, M, ◌>>=◌, ◌>>◌, pure, raise, try, asks, new_uuid, new_random, time_now,
}
use dodo_payment_gateway.Repository.Businesses
use dodo_payment_gateway.Repository.ApiKeys
use dodo_payment_gateway.Payment.Guards.{raise_if, return_or}

abbrev pub api_key_secret_prefix : String
api_key_secret_prefix = "dodo_live_"

abbrev pub issued_key : String → String → Option String → String → String → ApiKey
issued_key id business_id name secret key_hash = record {
  id = id;
  business_id = business_id;
  name = name;
  key_prefix = api_key_secret_prefix ++ slice secret 0 8;
  key_hash = key_hash;
  created_at = 0;
  last_used_at = none;
  revoked_at = none;
}

unfoldable pub issue_key : String → Option String → M (String × ApiKey)
issue_key business_id name = do
  secret ← new_random
  key_hash ← asks (λ env. env.sha256_hex (api_key_secret_prefix ++ secret))
  id ← new_uuid
  key ← ApiKeys.create (issued_key id business_id name secret key_hash)
  pure (api_key_secret_prefix ++ secret, key)

-- Without authentication, only a business with no active key is given one.
unfoldable pub check_bootstrap : String → Bool → M (Unit {0})
check_bootstrap business_id true = pure tt
check_bootstrap business_id false = do
  active ← ApiKeys.count_active business_id
  raise_if (ltb 0 active) api_key_bootstrap

unfoldable pub create_api_key : String → Option String → Bool → M (String × ApiKey)
unfolding issue_key check_bootstrap
create_api_key business_id name authenticated = do
  exists ← Businesses.exists business_id
  (if exists then pure tt else raise business_not_found)
  check_bootstrap business_id authenticated
  issue_key business_id name

unfoldable pub list_api_keys : String → M (List ApiKey)
list_api_keys business_id = ApiKeys.list_by_business business_id

unfoldable pub check_key_owner : String → ApiKey → M ApiKey
check_key_owner business_id key =
    if key.business_id == business_id then pure key else raise api_key_not_owned

unfoldable pub owned_key : String → String → M ApiKey
unfolding check_key_owner
owned_key business_id key_id = do
  read ← try (ApiKeys.get_by_id key_id)
  key ← return_or (λ e. api_key_not_found) read
  check_key_owner business_id key

-- `Revoke` at the present time, and the key with that time.
unfoldable pub revoke_now : ApiKey → M ApiKey
revoke_now key = do
  now ← time_now
  ApiKeys.revoke key.id now
  pure (record key { revoked_at = some now })

unfoldable pub revoke_api_key : String → String → M ApiKey
unfolding owned_key revoke_now
revoke_api_key business_id key_id = do
  key ← owned_key business_id key_id
  raise_if (is_some key.revoked_at) api_key_revoked
  revoke_now key

-- The new key and its text, and the old key.
unfoldable pub rotate_api_key : String → String → M (String × ApiKey × ApiKey)
unfolding owned_key issue_key revoke_now
rotate_api_key business_id key_id = do
  old_key ← owned_key business_id key_id
  raise_if (is_some old_key.revoked_at) api_key_revoked
  issued ← issue_key business_id old_key.name
  revoked ← revoke_now old_key
  pure (issued.0, issued.1, revoked)
