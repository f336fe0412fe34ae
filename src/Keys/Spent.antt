-- ===== src/Keys/Spent.antt =====
-- A hash that is in use by no active key stays so.
use dodo_payment_gateway.Base.{
  ℕ, ◌<◌, ◌≡◌, ◌∙◌, refl, sym, ap, subst, inl, inr, String, Bool, true, none, ◌==◌, List, ◌⊎◌, find,
  count, insert, update, arith, eq_iff, Bool-cases, count-insert, count-update_le,
  count-update_same, count-eq-zero_of_find-none,
}
use dodo_payment_gateway.Model.{ApiKey}
use dodo_payment_gateway.Errors.{Result}
use dodo_payment_gateway.Store.{Db, World, statement}
use dodo_payment_gateway.Store.Keeps.{Keeps, OnDb, Keeps-statement_db, Keeps-statement_blind}
use dodo_payment_gateway.Repository.ApiKeys
use dodo_payment_gateway.Keys.Steps.{Steps, starts, waits, creates, revokes, touches}

-- The hash is in use, by no active key.
abbrev pub DeadKeys : String → List ApiKey → Type 0
DeadKeys h keys =
    (count (ApiKeys.is_active_with h) keys ≡ 0) × (0 < count (ApiKeys.has_hash h) keys)

abbrev pub Dead : String → Db → Type 0
Dead h d = DeadKeys h d.api_keys

insert_cases :
    (k : ApiKey) (n : ℕ) (d : Db)
    → ((ApiKeys.insert_query k n d).1.api_keys ≡ d.api_keys)
      ⊎ ((find (ApiKeys.has_hash k.key_hash) d.api_keys ≡ none)
          × ((ApiKeys.insert_query k n d).1.api_keys ≡ insert (ApiKeys.as_row k n) d.api_keys))
unfolding ApiKeys.insert_query
insert_cases k n d = ground arith

module _ (h : String) where
  insert-Dead :
      (k : ApiKey) (n : ℕ) (keys : List ApiKey)
      → find (ApiKeys.has_hash k.key_hash) keys ≡ none
      → DeadKeys h keys
      → DeadKeys h (insert (ApiKeys.as_row k n) keys)
  insert-Dead k n keys free (dead, used) = elim (Bool-cases (k.key_hash == h)) [
    | inl hit ↦ absurd (
        omega (
          arith,
          used,
          ap (λ x. count (ApiKeys.has_hash x) keys) ((eq_iff k.key_hash h).0 hit),
          count-eq-zero_of_find-none (ApiKeys.has_hash k.key_hash) keys free,
        ))
    | inr miss ↦ (
      count-insert (ApiKeys.is_active_with h) (ApiKeys.as_row k n) keys
          ∙ ground (arith, miss, dead),
      omega (arith, used, count-insert (ApiKeys.has_hash h) (ApiKeys.as_row k n) keys),
    )
  ]

  update-Dead :
      (p : ApiKey → Bool) (f : ApiKey → ApiKey) (keys : List ApiKey)
      → ((x : ApiKey) → ApiKeys.has_hash h (f x) ≡ ApiKeys.has_hash h x)
      → ((x : ApiKey) → ApiKeys.is_active_with h (f x) ≡ true → ApiKeys.is_active_with h x ≡ true)
      → (count (ApiKeys.is_active_with h) keys ≡ 0) × (0 < count (ApiKeys.has_hash h) keys)
      → (count (ApiKeys.is_active_with h) (update p f keys) ≡ 0)
        × (0 < count (ApiKeys.has_hash h) (update p f keys))
  update-Dead p f keys same less (dead, used) = (
    omega (
      arith,
      dead,
      count-update_le (ApiKeys.is_active_with h) (ApiKeys.is_active_with h) p f keys (λ x _. less x)
          (λ x q. q),
    ),
    omega (arith, used, count-update_same (ApiKeys.has_hash h) p f keys (λ x _. same x)),
  )

  create-Dead : (k : ApiKey) → Keeps (OnDb (Dead h)) (ApiKeys.create k)
  unfolding ApiKeys.create ApiKeys.insert_query
  create-Dead k = Keeps-statement_db (Dead h) _ λ n d dead. elim (insert_cases k n d) [
    | inl same ↦ subst (DeadKeys h) (sym same) dead
    | inr (free, put) ↦ subst (DeadKeys h) (sym put) (insert-Dead k n d.api_keys free dead)
  ]

  revoke-Dead : (id : String) (at : ℕ) → Keeps (OnDb (Dead h)) (ApiKeys.revoke id at)
  unfolding ApiKeys.revoke ApiKeys.revoke_query
  revoke-Dead id at =
      Keeps-statement_db (Dead h) _
        λ n d dead. update-Dead _ _ d.api_keys (λ x. refl) (λ x q. ground (arith, q)) dead

  touch-Dead : (id : String) (at : ℕ) → Keeps (OnDb (Dead h)) (ApiKeys.touch_last_used id at)
  unfolding ApiKeys.touch_last_used ApiKeys.touch_query
  touch-Dead id at =
      Keeps-statement_db (Dead h) _
        λ n d dead. update-Dead _ _ d.api_keys (λ x. refl) (λ x q. q) dead

  pub Steps-Dead : {w v : World} → Steps w v → Dead h w.db → Dead h v.db
  Steps-Dead (starts w) dead = dead
  Steps-Dead (waits s n) dead = Steps-Dead s dead
  Steps-Dead (creates {v = v} s k) dead = (create-Dead k).at v (Steps-Dead s dead)
  Steps-Dead (revokes {v = v} s id at) dead = (revoke-Dead id at).at v (Steps-Dead s dead)
  Steps-Dead (touches {v = v} s id at) dead = (touch-Dead id at).at v (Steps-Dead s dead)

statement_env :
    {A : Type 0} (q : ℕ → Db → Result A × Db) (v : World) → (statement q v).1.env ≡ v.env
statement_env q v =
    (Keeps-statement_blind {P = λ (u : World). u.env ≡ v.env} q (λ w d n same. same)).at v refl

pub Steps-env : {w v : World} → Steps w v → v.env ≡ w.env
unfolding ApiKeys.create ApiKeys.revoke ApiKeys.touch_last_used
Steps-env (starts w) = refl
Steps-env (waits s n) = Steps-env s
Steps-env (creates {v = v} s k) = statement_env _ v ∙ Steps-env s
Steps-env (revokes {v = v} s id at) = statement_env _ v ∙ Steps-env s
Steps-env (touches {v = v} s id at) = statement_env _ v ∙ Steps-env s
