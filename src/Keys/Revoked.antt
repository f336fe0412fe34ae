-- ===== src/Keys/Revoked.antt =====
-- A key that is revoked stays so.
use Prim.Native.String.{◌++◌}
use dodo_payment_gateway.Base.{
  ℕ, ◌≤◌, ◌<◌, ◌≡◌, ◌∙◌, refl, sym, ap, subst, String, true, Option, none, some, ◌==◌, ◌&&◌, List,
  find, count, update, arith, eq_iff, not, count_split, count_mono, find-eq-none_of_count,
  count-pos_of_find_and, count-eq_of_update, count-update_same, find_holds,
}
use dodo_payment_gateway.Model.{ApiKey}
use dodo_payment_gateway.Errors.{ok}
use dodo_payment_gateway.Store.{
  Env, Db, World, ◌>>=◌, pure, raise, try, time_now, statement, or_no_rows,
}
use dodo_payment_gateway.Store.Laws.{bind_elim}
use dodo_payment_gateway.Repository.ApiKeys
use dodo_payment_gateway.Payment.Guards.{return_or, raise_if-ok}
use dodo_payment_gateway.Keys.{owned_key, check_key_owner, revoke_now, revoke_api_key}
use dodo_payment_gateway.Auth.{authenticate_api_key}
use dodo_payment_gateway.Auth.Access.{authenticate_refuses}
use dodo_payment_gateway.Keys.Spent.{DeadKeys, Dead, Steps-Dead, Steps-env}
use dodo_payment_gateway.Keys.Steps.{Steps}

owned_key-ok :
    (business_id key_id : String) (w : World) {k : ApiKey} {u : World}
    → owned_key business_id key_id w ≡ (ok k, u)
    → (find (ApiKeys.has_id key_id) w.db.api_keys ≡ some k)
      × (k.business_id ≡ business_id)
      × (u.db ≡ w.db)
      × (u.env ≡ w.env)
unfolding owned_key check_key_owner return_or ApiKeys.get_by_id statement or_no_rows ◌>>=◌ raise
    pure try
owned_key-ok business_id key_id w {k} e =
    (ground arith, ground (arith, eq_iff k.business_id business_id), ground arith, ground arith)

revoke_now-ok :
    (key : ApiKey) (w : World) {k : ApiKey} {u : World}
    → revoke_now key w ≡ (ok k, u)
    → (at : ℕ) × (k ≡ record key { revoked_at = some at })
      × (u.db.api_keys
          ≡ update
              (λ x. ApiKeys.has_id key.id x && ApiKeys.is_active x)
              (λ x. record x { revoked_at = some at })
              w.db.api_keys)
      × (u.env ≡ w.env)
unfolding revoke_now time_now ApiKeys.revoke ApiKeys.revoke_query statement ◌>>=◌ pure
revoke_now-ok key w h = (w.env.clock w.tick, ground arith, ground arith, ground arith)

-- A table whose only row with the hash is the key that is revoked has no active key with it then.
revoked_row-Dead :
    (key : ApiKey) (id : String) (at : ℕ) (keys : List ApiKey)
    → find (ApiKeys.has_id id) keys ≡ some key
    → count (ApiKeys.has_hash key.key_hash) keys ≤ 1
    → (count (ApiKeys.is_active_with key.key_hash) (
          update
            (λ x. ApiKeys.has_id key.id x && ApiKeys.is_active x)
            (λ x. record x { revoked_at = some at })
            keys)
        ≡ 0)
      × (0
          < count (ApiKeys.has_hash key.key_hash) (
              update
                (λ x. ApiKeys.has_id key.id x && ApiKeys.is_active x)
                (λ x. record x { revoked_at = some at })
                keys))
revoked_row-Dead key id at keys found unique = (
  omega (
    arith,
    unique,
    there,
    count_split (ApiKeys.has_id id) (ApiKeys.has_hash key.key_hash) keys,
    count-eq_of_update (ApiKeys.is_active_with key.key_hash)
        (λ x. ApiKeys.is_active_with key.key_hash x && not (ApiKeys.has_id key.id x))
        (λ x. ApiKeys.has_id key.id x && ApiKeys.is_active x)
        (λ x. record x { revoked_at = some at }) keys (λ x. ground arith),
    count_mono (λ x. ApiKeys.is_active_with key.key_hash x && not (ApiKeys.has_id key.id x))
        (λ x. ApiKeys.has_hash key.key_hash x && not (ApiKeys.has_id id x)) keys
        (λ x h. ground (arith, h, ap (λ i. x.id == i) same)),
  ),
  omega (
    arith,
    there,
    count_split (ApiKeys.has_id id) (ApiKeys.has_hash key.key_hash) keys,
    count-update_same (ApiKeys.has_hash key.key_hash)
        (λ x. ApiKeys.has_id key.id x && ApiKeys.is_active x)
        (λ x. record x { revoked_at = some at }) keys (λ x _. refl),
  ),
)
  where
    same : key.id ≡ id
    same = (eq_iff key.id id).0 (find_holds (ApiKeys.has_id id) key keys found)

    there : 0 < count (λ x. ApiKeys.has_hash key.key_hash x && ApiKeys.has_id id x) keys
    there =
        count-pos_of_find_and (ApiKeys.has_id id) (ApiKeys.has_hash key.key_hash) key keys found
          (ground (arith, eq_iff key.key_hash key.key_hash))

-- What RevokeAPIKey leaves behind when it returns.
revoke_api_key-Dead :
    (business_id key_id : String) (w : World) {k : ApiKey} {w' : World}
    → revoke_api_key business_id key_id w ≡ (ok k, w')
    → count (ApiKeys.has_hash k.key_hash) w.db.api_keys ≤ 1
    → Dead k.key_hash w'.db × (w'.env ≡ w.env)
unfolding revoke_api_key
revoke_api_key-Dead business_id key_id w {k} {w'} h unique =
    bind_elim (owned_key business_id key_id) _ w h λ key u read rest.
      bind_elim _ _ u rest λ _ v checked revoked.
        let (found, _, rows, same) = owned_key-ok business_id key_id w read in
        let (at, shape, after, same') = revoke_now-ok key v revoked in
        let unmoved =
          ap (λ (d : Db). d.api_keys)
            (ap (λ (x : World). x.db) (sym (raise_if-ok _ _ u checked).1) ∙ rows) in
        let hash = ap (λ (x : ApiKey). x.key_hash) shape in
        (
          subst (λ keys. DeadKeys k.key_hash keys)
              (sym (
                after
                ∙ ap
                    (update (λ x. ApiKeys.has_id key.id x && ApiKeys.is_active x)
                      (λ x. record x { revoked_at = some at }))
                    unmoved))
              (subst
                (λ x. DeadKeys x (
                  update (λ x. ApiKeys.has_id key.id x && ApiKeys.is_active x)
                    (λ x. record x { revoked_at = some at }) w.db.api_keys))
                (sym hash)
                (revoked_row-Dead key key_id at w.db.api_keys found
                  (subst (λ x. count (ApiKeys.has_hash x) w.db.api_keys ≤ 1) hash unique))),
          same' ∙ ap (λ (x : World). x.env) (sym (raise_if-ok _ _ u checked).1) ∙ same,
        )

-- Once RevokeAPIKey has returned a key, whose hash is unique, no request with that key is let in again,
-- whatever calls of the key service and the middleware come after, and whatever the database answers.
pub revoke_api_key-authenticate :
    (business_id key_id : String) (w : World) {k : ApiKey} {w' : World}
    → revoke_api_key business_id key_id w ≡ (ok k, w')
    → count (ApiKeys.has_hash k.key_hash) w.db.api_keys ≤ 1
    → {v : World} → Steps w' v
    → (raw_key : String) → w.env.sha256_hex raw_key ≡ k.key_hash
    → (o : Option ApiKey) (v' : World)
    → ¬ (authenticate_api_key ("Bearer " ++ raw_key) true v ≡ (ok o, v'))
revoke_api_key-authenticate business_id key_id w {k} {w'} h unique {v} steps raw_key hashed o v' =
    let (dead, same) = revoke_api_key-Dead business_id key_id w h unique in
    authenticate_refuses raw_key o v v' (
      subst (λ x. find (ApiKeys.is_active_with x) v.db.api_keys ≡ none)
        (sym (ap (λ (e : Env). e.sha256_hex raw_key) (Steps-env steps ∙ same) ∙ hashed))
        (find-eq-none_of_count _ v.db.api_keys (Steps-Dead k.key_hash steps dead).0))
