-- ===== src/Keys/Service.antt =====
-- The calls of the key service and of the middleware make only the steps of Keys.Steps.
use dodo_payment_gateway.Base.{String, Bool, true, false, Option, none, some, ◌==◌}
use dodo_payment_gateway.Model.{ApiKey}
use dodo_payment_gateway.Errors.{Error, Result, ok, err}
use dodo_payment_gateway.Store.{World, new_random}
use dodo_payment_gateway.Store.Keeps.{
  Keeps, Keeps-pure, Keeps-raise, Keeps-if, Keeps-try, Keeps-bind, Keeps-asks, Keeps-statement,
  Keeps-new_uuid, Keeps-time_now,
}
use dodo_payment_gateway.Repository.Businesses
use dodo_payment_gateway.Repository.ApiKeys
use dodo_payment_gateway.Payment.Guards.{return_or, raise_if}
use dodo_payment_gateway.Keys.{
  create_api_key, issue_key, check_bootstrap, owned_key, check_key_owner, revoke_now,
  revoke_api_key, rotate_api_key,
}
use dodo_payment_gateway.Auth.{authenticate_api_key, authenticate_with, touch}
use dodo_payment_gateway.Keys.Steps.{Steps, waits, creates, revokes, touches}

module _ (s : World) where
  abbrev Made : World → Type 0
  Made = Steps s

  raise_if-Steps : (b : Bool) (e : Error) → Keeps Made (raise_if b e)
  unfolding raise_if
  raise_if-Steps true e = Keeps-raise e
  raise_if-Steps false e = Keeps-pure tt

  return_or-Steps : {A : Type 0} (f : Error → Error) (r : Result A) → Keeps Made (return_or f r)
  unfolding return_or
  return_or-Steps f (ok a) = Keeps-pure a
  return_or-Steps f (err e) = Keeps-raise (f e)

  owned_key-Steps : (business_id key_id : String) → Keeps Made (owned_key business_id key_id)
  unfolding owned_key check_key_owner ApiKeys.get_by_id
  owned_key-Steps business_id key_id =
      Keeps-bind (Keeps-try (Keeps-statement _ (λ w n h. waits h n) (λ n w h. h))) λ read.
        Keeps-bind (return_or-Steps _ read) λ key.
          Keeps-if (key.business_id == business_id) (λ _. Keeps-pure key) (λ _. Keeps-raise _)

  issue_key-Steps :
      (business_id : String) (name : Option String) → Keeps Made (issue_key business_id name)
  unfolding issue_key new_random
  issue_key-Steps business_id name =
      Keeps-bind (record { at = λ w h. waits h _ })
        λ secret. Keeps-bind (Keeps-asks _) λ key_hash.
          Keeps-bind (Keeps-new_uuid (λ w n h. waits h n))
            λ id. Keeps-bind (record { at = λ w h. creates h _ }) λ key. Keeps-pure _

  revoke_now-Steps : (key : ApiKey) → Keeps Made (revoke_now key)
  unfolding revoke_now
  revoke_now-Steps key =
      Keeps-bind (Keeps-time_now (λ w n h. waits h n))
        λ now. Keeps-bind (record { at = λ w h. revokes h key.id now }) λ _. Keeps-pure _

  check_bootstrap-Steps :
      (business_id : String) (authenticated : Bool)
      → Keeps Made (check_bootstrap business_id authenticated)
  unfolding check_bootstrap ApiKeys.count_active
  check_bootstrap-Steps business_id true = Keeps-pure tt
  check_bootstrap-Steps business_id false =
      Keeps-bind (Keeps-statement _ (λ w n h. waits h n) (λ n w h. h)) λ active. raise_if-Steps _ _

  create_api_key-Steps :
      (business_id : String) (name : Option String) (authenticated : Bool)
      → Keeps Made (create_api_key business_id name authenticated)
  unfolding create_api_key Businesses.exists
  create_api_key-Steps business_id name authenticated =
      Keeps-bind (Keeps-statement _ (λ w n h. waits h n) (λ n w h. h)) λ exists.
        Keeps-bind (Keeps-if exists (λ _. Keeps-pure tt) (λ _. Keeps-raise _)) λ _.
          Keeps-bind (check_bootstrap-Steps business_id authenticated)
            λ _. issue_key-Steps business_id name

  revoke_api_key-Steps :
      (business_id key_id : String) → Keeps Made (revoke_api_key business_id key_id)
  unfolding revoke_api_key
  revoke_api_key-Steps business_id key_id =
      Keeps-bind (owned_key-Steps business_id key_id)
        λ key. Keeps-bind (raise_if-Steps _ _) λ _. revoke_now-Steps key

  rotate_api_key-Steps :
      (business_id key_id : String) → Keeps Made (rotate_api_key business_id key_id)
  unfolding rotate_api_key
  rotate_api_key-Steps business_id key_id = Keeps-bind (owned_key-Steps business_id key_id) λ key.
      Keeps-bind (raise_if-Steps _ _) λ _.
        Keeps-bind (issue_key-Steps business_id key.name)
          λ issued. Keeps-bind (revoke_now-Steps key) λ _. Keeps-pure _

  authenticate_with-Steps : (o : Option String) → Keeps Made (authenticate_with o)
  unfolding authenticate_with ApiKeys.get_by_hash
  authenticate_with-Steps none = Keeps-raise _
  authenticate_with-Steps (some raw_key) = Keeps-bind (Keeps-asks _) λ key_hash.
      Keeps-bind (Keeps-try (Keeps-statement _ (λ w n h. waits h n) (λ n w h. h)))
        λ read. Keeps-bind (return_or-Steps _ read) λ key. Keeps-pure _

  authenticate_api_key-Steps :
      (auth_header : String) (required : Bool)
      → Keeps Made (authenticate_api_key auth_header required)
  unfolding authenticate_api_key
  authenticate_api_key-Steps auth_header required =
      Keeps-if (auth_header == "")
        (λ _. Keeps-if required (λ _. Keeps-raise _) (λ _. Keeps-pure none))
        (λ _. authenticate_with-Steps _)

  touch-Steps : (key : ApiKey) → Keeps Made (touch key)
  unfolding touch
  touch-Steps key =
      Keeps-bind (Keeps-time_now (λ w n h. waits h n)) λ now.
        Keeps-bind (Keeps-try (record { at = λ w h. touches h key.id now })) λ _. Keeps-pure tt

-- Whatever the database answers, CreateAPIKey, RevokeAPIKey, RotateAPIKey, the middleware and its
-- goroutine lead only to worlds that the steps reach.
pub service-Steps :
    (w : World) (business_id key_id auth_header : String) (name : Option String) (flag : Bool)
    (key : ApiKey)
    → {s : World} → Steps s w
    → Steps s (create_api_key business_id name flag w).1
      × Steps s (revoke_api_key business_id key_id w).1
      × Steps s (rotate_api_key business_id key_id w).1
      × Steps s (authenticate_api_key auth_header flag w).1
      × Steps s (touch key w).1
service-Steps w business_id key_id auth_header name flag key {s} reached = (
  (create_api_key-Steps s business_id name flag).at w reached,
  (revoke_api_key-Steps s business_id key_id).at w reached,
  (rotate_api_key-Steps s business_id key_id).at w reached,
  (authenticate_api_key-Steps s auth_header flag).at w reached,
  (touch-Steps s key).at w reached,
)
