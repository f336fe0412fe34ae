-- ===== src/Tests/Keys.antt =====
-- Keys and the middleware on concrete data.
use Prim.Native.String.{◌++◌}
use dodo_payment_gateway.Base.{
  ◌⊎◌, ◌≡◌, ◌↔◌, refl, String, true, false, none, some, [], ◌∷◌, find, is_some, count, update,
  arith,
}
use dodo_payment_gateway.Model.{ApiKey}
use dodo_payment_gateway.Errors.{ok, is_ok}
use dodo_payment_gateway.Store.{Outcome, World, ◌>>=◌}
use dodo_payment_gateway.Store
use dodo_payment_gateway.Repository.Businesses
use dodo_payment_gateway.Repository.ApiKeys
use dodo_payment_gateway.Payment.Guards
use dodo_payment_gateway.Keys.{create_api_key, revoke_api_key, rotate_api_key, issued_key}
use dodo_payment_gateway.Keys
use dodo_payment_gateway.Keys.Issue.{Issued, create_api_key-Issued}
use dodo_payment_gateway.Keys.Access.{create_api_key-authenticate}
use dodo_payment_gateway.Keys.Steps.{Steps, starts}
use dodo_payment_gateway.Keys.Revoked.{revoke_api_key-authenticate}
use dodo_payment_gateway.Keys.Service.{service-Steps}
use dodo_payment_gateway.Keys.Bootstrap.{create_api_key-ok_iff}
use dodo_payment_gateway.Auth.{authenticate_api_key, touch}
use dodo_payment_gateway.Auth.Access.{authenticate_api_key-ok_iff}
use dodo_payment_gateway.Tests.{before}

abbrev raw_key : String
raw_key = "dodo_live_0123456789abcdef"

abbrev key_row : ApiKey
key_row = record {
  id = "a";
  business_id = "b";
  name = none;
  key_prefix = "dodo_live_01234567";
  key_hash = raw_key;
  created_at = 0;
  last_used_at = none;
  revoked_at = none;
}

abbrev pub with_key : World
with_key = record before { db = record before.db { api_keys = key_row ∷ [] } }

created_key-ok :
    create_api_key "b" none true before ≡ (ok (raw_key, key_row), record with_key { tick = 4 })
unfolding create_api_key Keys.issue_key Keys.check_bootstrap ◌>>=◌ find Store.statement
    Store.new_uuid Store.new_random Store.asks Businesses.exists Businesses.exists_query
    ApiKeys.create ApiKeys.insert_query
created_key-ok = refl

create_api_key-Issued_example :
    (is_some (find (Businesses.has_id "b") before.db.businesses) ≡ true)
    × ((true ≡ true) ⊎ (count (ApiKeys.is_active_of "b") before.db.api_keys ≡ 0))
    × Issued "b" raw_key key_row before (record with_key { tick = 4 })
create_api_key-Issued_example = create_api_key-Issued "b" none true before created_key-ok

create_api_key-authenticate_example :
    authenticate_api_key "Bearer dodo_live_0123456789abcdef" true (record with_key { tick = 4 })
    ≡ (ok (some key_row), record with_key { tick = 5 })
create_api_key-authenticate_example =
    create_api_key-authenticate "b" none true before created_key-ok refl

authenticate_api_key-ok_iff_example :
    (authenticate_api_key "Bearer dodo_live_0123456789abcdef" true with_key
      ≡ (ok (some key_row), record with_key { tick = 1 }))
    ↔ ((raw : String) × ("Bearer dodo_live_0123456789abcdef" ≡ "Bearer " ++ raw)
        × (find (ApiKeys.is_active_with raw) with_key.db.api_keys ≡ some key_row))
authenticate_api_key-ok_iff_example =
    authenticate_api_key-ok_iff key_row with_key refl "Bearer dodo_live_0123456789abcdef"

abbrev revoked_row : ApiKey
revoked_row = record key_row { revoked_at = some 0 }

abbrev with_revoked : World
with_revoked = record before { tick = 3; db = record before.db { api_keys = revoked_row ∷ [] } }

revoked_key-ok : revoke_api_key "b" "a" with_key ≡ (ok revoked_row, with_revoked)
unfolding revoke_api_key Keys.owned_key Keys.check_key_owner Keys.revoke_now ◌>>=◌ find update
    Store.statement Store.or_no_rows Store.time_now Guards.return_or Guards.raise_if
    ApiKeys.get_by_id ApiKeys.select_query ApiKeys.revoke ApiKeys.revoke_query
revoked_key-ok = refl

revoke_api_key-authenticate_example : ¬ (
    authenticate_api_key "Bearer dodo_live_0123456789abcdef" true with_revoked
    ≡ (ok (some revoked_row), with_revoked))
unfolding count
revoke_api_key-authenticate_example =
    revoke_api_key-authenticate "b" "a" with_key revoked_key-ok (ground arith) (starts with_revoked)
      raw_key refl (some revoked_row) with_revoked

service-Steps_example :
    Steps with_key (create_api_key "b" none true with_key).1
    × Steps with_key (revoke_api_key "b" "a" with_key).1
    × Steps with_key (rotate_api_key "b" "a" with_key).1
    × Steps with_key (authenticate_api_key "Bearer x" true with_key).1
    × Steps with_key (touch key_row with_key).1
service-Steps_example =
    service-Steps with_key "b" "a" "Bearer x" none true key_row (starts with_key)

-- Its only key has been revoked.
abbrev revoked_only : World
revoked_only = record before {
  db = record before.db { api_keys = record revoked_row { id = "k"; key_hash = "old" } ∷ [] };
}

create_api_key-ok_iff_example :
    (is_ok (create_api_key "b" none false revoked_only).0 ≡ true)
    ↔ (count (ApiKeys.is_active_of "b") revoked_only.db.api_keys ≡ 0)
unfolding find
create_api_key-ok_iff_example =
    create_api_key-ok_iff "b" none revoked_only (λ n. refl) refl refl refl
