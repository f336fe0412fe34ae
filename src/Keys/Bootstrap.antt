-- ===== src/Keys/Bootstrap.antt =====
-- CreateAPIKey without authentication.
use Prim.Native.String.{◌++◌}
use dodo_payment_gateway.Base.{
  ℕ, suc, ◌≡◌, ◌↔◌, String, true, false, Option, none, find, count, is_some, arith,
}
use dodo_payment_gateway.Errors.{is_ok}
use dodo_payment_gateway.Store.{
  World, Outcome, ◌>>=◌, pure, raise, asks, new_random, new_uuid, statement,
}
use dodo_payment_gateway.Repository.Businesses
use dodo_payment_gateway.Repository.ApiKeys
use dodo_payment_gateway.Payment.Guards.{raise_if}
use dodo_payment_gateway.Keys.{create_api_key, issue_key, check_bootstrap, api_key_secret_prefix}

-- From a database that answers, and under a fresh id and hash, CreateAPIKey gives a business that
-- exists a key without authentication exactly if all its keys, if any, are revoked.
pub create_api_key-ok_iff :
    (business_id : String) (name : Option String) (w : World)
    → ((n : ℕ) → w.env.outcome n ≡ Outcome.works)
    → is_some (find (Businesses.has_id business_id) w.db.businesses) ≡ true
    → find (ApiKeys.has_id (w.env.uuid (suc (suc (suc w.tick))))) w.db.api_keys ≡ none
    → find
        (ApiKeys.has_hash
          (w.env.sha256_hex (api_key_secret_prefix ++ w.env.random_hex (suc (suc w.tick)))))
        w.db.api_keys
      ≡ none
    → (is_ok (create_api_key business_id name false w).0 ≡ true)
      ↔ (count (ApiKeys.is_active_of business_id) w.db.api_keys ≡ 0)
unfolding create_api_key issue_key check_bootstrap Businesses.exists Businesses.exists_query
    ApiKeys.count_active ApiKeys.count_active_query ApiKeys.create ApiKeys.insert_query raise_if
    statement new_random new_uuid asks ◌>>=◌ pure raise
create_api_key-ok_iff business_id name w works there id_free hash_free =
    ground (arith, works w.tick, works (suc w.tick), works (suc (suc (suc (suc w.tick)))))
