-- ===== src/Keys/Access.antt =====
-- Which keys let a request in, and until when.
use Prim.Native.String.{◌++◌}
use dodo_payment_gateway.Base.{
  suc, ◌≡◌, ◌∙◌, refl, sym, ap, String, Bool, true, Option, some, find, arith, eq_iff,
  find-insert-none, find-none_mono,
}
use dodo_payment_gateway.Model.{ApiKey}
use dodo_payment_gateway.Errors.{ok}
use dodo_payment_gateway.Store.{Env, World, Outcome}
use dodo_payment_gateway.Repository.ApiKeys
use dodo_payment_gateway.Keys.{create_api_key}
use dodo_payment_gateway.Keys.Issue.{Issued, create_api_key-Issued}
use dodo_payment_gateway.Auth.{authenticate_api_key}
use dodo_payment_gateway.Auth.Access.{Passes, authenticate_api_key-ok_iff}

Issued-Passes :
    {business_id raw : String} {k : ApiKey} {w w' : World}
    → Issued business_id raw k w w'
    → Passes raw k w'
Issued-Passes {raw = raw} {k = k} {w = w} {w' = w'} i =
    ap (find (ApiKeys.is_active_with (w'.env.sha256_hex raw))) i.added
    ∙ find-insert-none (ApiKeys.is_active_with (w'.env.sha256_hex raw)) k w.db.api_keys (
        find-none_mono (ApiKeys.is_active_with (w'.env.sha256_hex raw))
          (ApiKeys.has_hash k.key_hash) w.db.api_keys i.fresh_hash (λ x h. ground (arith, h, same)))
    ∙ ground (arith, same, i.unused, eq_iff k.key_hash k.key_hash)
  where
    same : w'.env.sha256_hex raw ≡ k.key_hash
    same = ap (λ (e : Env). e.sha256_hex raw) i.same_env ∙ sym i.hashed

-- A key that CreateAPIKey has returned lets the next request in that carries it, if the database
-- answers that.
pub create_api_key-authenticate :
    (business_id : String) (name : Option String) (authenticated : Bool) (w : World) {raw : String}
    {k : ApiKey} {w' : World}
    → create_api_key business_id name authenticated w ≡ (ok (raw, k), w')
    → w'.env.outcome w'.tick ≡ Outcome.works
    → authenticate_api_key ("Bearer " ++ raw) true w'
      ≡ (ok (some k), record w' { tick = suc w'.tick })
create_api_key-authenticate business_id name authenticated w {raw} {k} {w'} h o =
    (authenticate_api_key-ok_iff k w' o ("Bearer " ++ raw)).1
      (raw, refl, Issued-Passes (create_api_key-Issued business_id name authenticated w h).2)
