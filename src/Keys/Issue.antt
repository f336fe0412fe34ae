-- ===== src/Keys/Issue.antt =====
-- What CreateAPIKey does when it returns.
use Prim.Native.String.{◌++◌}
use dodo_payment_gateway.Base.{
  inl, inr, ◌⊎◌, ℕ, suc, ◌≡◌, ◌∙◌, refl, sym, ap, String, Bool, true, false, Option, none,
  if◌then◌else◌, find, count, insert, is_some, arith,
}
use dodo_payment_gateway.Model.{ApiKey}
use dodo_payment_gateway.Errors.{ok, business_not_found}
use dodo_payment_gateway.Store.{
  Env, Db, World, ◌>>=◌, pure, raise, asks, new_random, new_uuid, statement,
}
use dodo_payment_gateway.Store.Laws.{bind_elim, statement-ok}
use dodo_payment_gateway.Repository.Businesses
use dodo_payment_gateway.Repository.ApiKeys
use dodo_payment_gateway.Payment.Guards.{raise_if}
use dodo_payment_gateway.Keys.{
  create_api_key, issue_key, check_bootstrap, issued_key, api_key_secret_prefix,
}

-- `k` is a new key of the business, of which `raw` is the text.
pub record Issued (business_id raw : String) (k : ApiKey) (w w' : World) : Type 0 where
  pub owner : k.business_id ≡ business_id
  pub hashed : k.key_hash ≡ w.env.sha256_hex raw
  pub unused : (k.last_used_at ≡ none) × (k.revoked_at ≡ none)
  pub fresh_id : find (ApiKeys.has_id k.id) w.db.api_keys ≡ none
  pub fresh_hash : find (ApiKeys.has_hash k.key_hash) w.db.api_keys ≡ none
  pub added : w'.db.api_keys ≡ insert k w.db.api_keys
  pub same_env : w'.env ≡ w.env

create-ok :
    (k : ApiKey) (w : World) {r : ApiKey} {u : World}
    → ApiKeys.create k w ≡ (ok r, u)
    → (n : ℕ) × (r ≡ record k { created_at = n })
      × (find (ApiKeys.has_id k.id) w.db.api_keys ≡ none)
      × (find (ApiKeys.has_hash k.key_hash) w.db.api_keys ≡ none)
      × (u.db.api_keys ≡ insert (ApiKeys.as_row k n) w.db.api_keys)
      × (u.env ≡ w.env)
unfolding ApiKeys.create ApiKeys.insert_query
create-ok k w e =
    let done = statement-ok _ w e in
    (w.env.clock w.tick, ground arith, ground arith, ground arith, ground arith, ground arith)

-- The record, for the key `issued` inserted at `n` from `w` on.
assemble :
    (business_id raw : String) (issued k r : ApiKey) (n : ℕ) (w u w' : World)
    → issued.business_id ≡ business_id
    → issued.key_hash ≡ w.env.sha256_hex raw
    → (issued.last_used_at ≡ none) × (issued.revoked_at ≡ none)
    → r ≡ record issued { created_at = n }
    → find (ApiKeys.has_id issued.id) w.db.api_keys ≡ none
    → find (ApiKeys.has_hash issued.key_hash) w.db.api_keys ≡ none
    → u.db.api_keys ≡ insert (ApiKeys.as_row issued n) w.db.api_keys
    → u.env ≡ w.env
    → r ≡ k
    → u ≡ w'
    → Issued business_id raw k w w'
assemble business_id raw issued k r n w u w' owner hashed unused row id_free hash_free put same got
      done =
    record {
      owner = ap (λ (x : ApiKey). x.business_id) key ∙ owner;
      hashed = ap (λ (x : ApiKey). x.key_hash) key ∙ hashed;
      unused = (
        ap (λ (x : ApiKey). x.last_used_at) key ∙ unused.0,
        ap (λ (x : ApiKey). x.revoked_at) key ∙ unused.1,
      );
      fresh_id = ap (λ (x : ApiKey). find (ApiKeys.has_id x.id) w.db.api_keys) key ∙ id_free;
      fresh_hash =
          ap (λ (x : ApiKey). find (ApiKeys.has_hash x.key_hash) w.db.api_keys) key ∙ hash_free;
      added =
          ap (λ (x : World). x.db.api_keys) (sym done)
          ∙ put
          ∙ ap (λ x. insert x w.db.api_keys) as_read;
      same_env = ap (λ (x : World). x.env) (sym done) ∙ same;
    }
  where
    key : k ≡ record issued { created_at = n }
    key = sym got ∙ row

    as_read : ApiKeys.as_row issued n ≡ k
    as_read =
        (λ i. record issued {
          created_at = n;
          last_used_at = sym unused.0 i;
          revoked_at = sym unused.1 i;
        })
        ∙ sym key

pub issue_key-Issued :
    (business_id : String) (name : Option String) (w : World) {raw : String} {k : ApiKey}
    {w' : World}
    → issue_key business_id name w ≡ (ok (raw, k), w')
    → Issued business_id raw k w w'
unfolding issue_key new_random new_uuid asks ◌>>=◌
issue_key-Issued business_id name w {raw} {k} {w'} h =
    bind_elim (ApiKeys.create _) _ _ h λ r u made rest.
      let (n, row, id_free, hash_free, put, same) = create-ok _ _ made in
      assemble business_id raw
        (issued_key (w.env.uuid (suc w.tick)) business_id name (w.env.random_hex w.tick)
          (w.env.sha256_hex (api_key_secret_prefix ++ w.env.random_hex w.tick)))
        k r n w u w' refl (ap w.env.sha256_hex (ground arith)) (refl, refl) row id_free hash_free
        put same (ground arith) (ground arith)

-- The same from an earlier world that has the same rows.
earlier :
    {business_id raw : String} {k : ApiKey} {w u w' : World}
    → u.db ≡ w.db
    → u.env ≡ w.env
    → Issued business_id raw k u w'
    → Issued business_id raw k w w'
earlier {raw = raw} {k = k} {w = w} {w' = w'} rows same i = record {
  owner = i.owner;
  hashed = i.hashed ∙ ap (λ (e : Env). e.sha256_hex raw) same;
  unused = i.unused;
  fresh_id = sym (ap (λ (d : Db). find (ApiKeys.has_id k.id) d.api_keys) rows) ∙ i.fresh_id;
  fresh_hash =
      sym (ap (λ (d : Db). find (ApiKeys.has_hash k.key_hash) d.api_keys) rows) ∙ i.fresh_hash;
  added = i.added ∙ ap (λ (d : Db). insert k d.api_keys) rows;
  same_env = i.same_env ∙ same;
}

check_bootstrap-ok :
    (business_id : String) (authenticated : Bool) (w : World) {u : World}
    → check_bootstrap business_id authenticated w ≡ (ok tt, u)
    → ((authenticated ≡ true) ⊎ (count (ApiKeys.is_active_of business_id) w.db.api_keys ≡ 0))
      × (u.db ≡ w.db)
      × (u.env ≡ w.env)
unfolding check_bootstrap ApiKeys.count_active statement raise_if pure raise ◌>>=◌
check_bootstrap-ok business_id true w e = (inl refl, ground arith, ground arith)
check_bootstrap-ok business_id false w e = (inr (ground arith), ground arith, ground arith)

exists-ok :
    (business_id : String) (w : World) {x : Bool} {u v : World}
    → Businesses.exists business_id w ≡ (ok x, u)
    → (if x then pure tt else raise {A = Unit {0}} business_not_found) u ≡ (ok tt, v)
    → (is_some (find (Businesses.has_id business_id) w.db.businesses) ≡ true)
      × (v.db ≡ w.db)
      × (v.env ≡ w.env)
unfolding Businesses.exists statement pure raise
exists-ok business_id w e h = (ground arith, ground arith, ground arith)

-- A key that CreateAPIKey returns is one that it has added, of a business that exists, under an id and
-- a hash that no other key has, with the SHA-256 of the text that it returns; and without
-- authentication the business had no active key.
pub create_api_key-Issued :
    (business_id : String) (name : Option String) (authenticated : Bool) (w : World) {raw : String}
    {k : ApiKey} {w' : World}
    → create_api_key business_id name authenticated w ≡ (ok (raw, k), w')
    → (is_some (find (Businesses.has_id business_id) w.db.businesses) ≡ true)
      × ((authenticated ≡ true) ⊎ (count (ApiKeys.is_active_of business_id) w.db.api_keys ≡ 0))
      × Issued business_id raw k w w'
unfolding create_api_key
create_api_key-Issued business_id name authenticated w {raw} {k} {w'} h =
    bind_elim (Businesses.exists business_id) _ w h λ x u1 read h1.
      bind_elim _ _ u1 h1 λ _ u2 found h2.
        bind_elim (check_bootstrap business_id authenticated) _ u2 h2 λ _ u3 checked issued.
          let there = exists-ok business_id w read found in
          let first = check_bootstrap-ok business_id authenticated u2 checked in
          (
            there.0,
            elim first.0 [
              | inl given ↦ inl given
              | inr no_key ↦ inr (
                  sym (ap (λ (d : Db). count (ApiKeys.is_active_of business_id) d.api_keys) there.1)
                  ∙ no_key)
            ],
            earlier (first.1 ∙ there.1) (first.2 ∙ there.2)
                (issue_key-Issued business_id name u3 issued),
          )
