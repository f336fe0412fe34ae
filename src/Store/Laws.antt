-- ===== src/Store/Laws.antt =====
-- What a successful action did, read off its parts; and a transaction's two ends.
use dodo_payment_gateway.Base.{ℕ, String, suc, ◌≡◌, ◌∙◌, refl, ap, ◌⊎◌, inl, inr, arith}
use dodo_payment_gateway.Errors.{Error, Result, ok, err}
use dodo_payment_gateway.Store.{
  Db, Outcome, World, M, ◌>>=◌, pure, raise, try, continue, statement, after_statement, transaction,
  commit, begin, new_uuid, Env, asks, time_now,
}

module _ {A B : Type 0} where
  bind-ok_go :
      (f : A → M B) (r : Result A × World) {b : B} {w' : World}
      → continue f r ≡ (ok b, w')
      → (a : A) × (u : World) × (r ≡ (ok a, u)) × (f a u ≡ (ok b, w'))
  bind-ok_go f (ok a, u) h = (a, u, refl, h)
  bind-ok_go f (err e, u) h = cc

  -- If a chain returns, so did its first action, and the rest from there.
  pub bind-ok :
      (m : M A) (f : A → M B) (w : World) {b : B} {w' : World}
      → (m >>= f) w ≡ (ok b, w')
      → (a : A) × (u : World) × (m w ≡ (ok a, u)) × (f a u ≡ (ok b, w'))
  unfolding ◌>>=◌
  bind-ok m f w h = bind-ok_go f (m w) h

module _ {A B C : Type 0} where
  -- The same, for use: what is proved from the two parts.
  pub bind_elim :
      (m : M A) (f : A → M B) (w : World) {b : B} {w' : World}
      → (m >>= f) w ≡ (ok b, w')
      → ((a : A) (u : World) → m w ≡ (ok a, u) → f a u ≡ (ok b, w') → C)
      → C
  bind_elim m f w h k = let (a, u, first, rest) = bind-ok m f w h in k a u first rest

module _ {A : Type 0} where
  pub pure-ok :
      (a : A) (w : World) {b : A} {w' : World} → pure a w ≡ (ok b, w') → (a ≡ b) × (w ≡ w')
  unfolding pure
  pure-ok a w h = ground arith

  pub try-ok : (m : M A) (w : World) {r : Result A} {u : World} → try m w ≡ (ok r, u) → m w ≡ (r, u)
  unfolding try
  try-ok m w h = ground arith

  pub raise-ne_ok : (e : Error) (w : World) {b : A} {w' : World} → ¬ (raise e w ≡ (ok b, w'))
  unfolding raise
  raise-ne_ok e w h = cc

  -- A statement that is acknowledged ran its query once, and touched nothing but the database.
  pub statement-ok :
      (q : ℕ → Db → Result A × Db) (w : World) {a : A} {w' : World}
      → statement q w ≡ (ok a, w')
      → (q (w.env.clock w.tick) w.db ≡ (ok a, w'.db)) × (w'.env ≡ w.env) × (w'.charges ≡ w.charges)
  unfolding statement
  statement-ok q w h = ground arith

  after_statement-db :
      (o : Outcome) (w : World) (r : Result A × Db)
      → ((after_statement o w r).1.db ≡ w.db) ⊎ ((after_statement o w r).1.db ≡ r.1)
  unfolding after_statement
  after_statement-db Outcome.works w (r, d) = inr refl
  after_statement-db Outcome.fails w (r, d) = inl refl
  after_statement-db Outcome.unacknowledged w (r, d) = inr refl

  -- Acknowledged or not, a statement has run its query on the database, or not at all.
  pub statement-db :
      (q : ℕ → Db → Result A × Db) (w : World)
      → ((statement q w).1.db ≡ w.db) ⊎ ((statement q w).1.db ≡ (q (w.env.clock w.tick) w.db).1)
  unfolding statement
  statement-db q w = after_statement-db (w.env.outcome w.tick) w _

  -- Either nothing happened, or the body returned and its changes are there.
  abbrev pub IsAtomic : M A → World → World → Type 0
  IsAtomic body w w' =
      (w'.db ≡ w.db)
      ⊎ ((a : A) × (u : World) × (body (record w { tick = suc w.tick }) ≡ (ok a, u))
          × (w'.db ≡ u.db))

  commit-IsAtomic :
      (o : Outcome) (body : M A) (w : World) (r : Result A × World)
      → body (record w { tick = suc w.tick }) ≡ r
      → IsAtomic body w (commit o w.db r).1
  unfolding commit
  commit-IsAtomic o body w (err e, u) h = inl refl
  commit-IsAtomic Outcome.works body w (ok a, u) h = inr (a, u, h, refl)
  commit-IsAtomic Outcome.fails body w (ok a, u) h = inl refl
  commit-IsAtomic Outcome.unacknowledged body w (ok a, u) h = inr (a, u, h, refl)

  begin-IsAtomic : (o : Outcome) (body : M A) (w : World) → IsAtomic body w (begin o w body).1
  unfolding begin
  begin-IsAtomic Outcome.works body w = commit-IsAtomic _ body w _ refl
  begin-IsAtomic Outcome.fails body w = inl refl
  begin-IsAtomic Outcome.unacknowledged body w = inl refl

  pub transaction-IsAtomic : (body : M A) (w : World) → IsAtomic body w (transaction body w).1
  unfolding transaction
  transaction-IsAtomic body w = begin-IsAtomic (w.env.outcome w.tick) body w

  commit-ok :
      (o : Outcome) (before : Db) (r : Result A × World) {a : A} {w' : World}
      → commit o before r ≡ (ok a, w')
      → (u : World) × (r ≡ (ok a, u)) × (w'.db ≡ u.db) × (w'.charges ≡ u.charges) × (w'.env ≡ u.env)
  unfolding commit
  commit-ok o before (err e, u) h = cc
  commit-ok Outcome.works before (ok a, u) h =
      (u, ground arith, ground arith, ground arith, ground arith)
  commit-ok Outcome.fails before (ok a, u) h = cc
  commit-ok Outcome.unacknowledged before (ok a, u) h = cc

  begin-ok :
      (o : Outcome) (w : World) (body : M A) {a : A} {w' : World}
      → begin o w body ≡ (ok a, w')
      → (u : World) × (body (record w { tick = suc w.tick }) ≡ (ok a, u))
        × (w'.db ≡ u.db)
        × (w'.charges ≡ u.charges)
        × (w'.env ≡ u.env)
  unfolding begin
  begin-ok Outcome.works w body h = commit-ok _ w.db _ h
  begin-ok Outcome.fails w body h = cc
  begin-ok Outcome.unacknowledged w body h = cc

  -- A transaction that returns has run its body to the end, and its changes are committed.
  pub transaction-ok :
      (body : M A) (w : World) {a : A} {w' : World}
      → transaction body w ≡ (ok a, w')
      → (u : World) × (body (record w { tick = suc w.tick }) ≡ (ok a, u))
        × (w'.db ≡ u.db)
        × (w'.charges ≡ u.charges)
        × (w'.env ≡ u.env)
  unfolding transaction
  transaction-ok body w h = begin-ok (w.env.outcome w.tick) w body h

pub new_uuid-ok :
    (w : World) {id : String} {u : World}
    → new_uuid w ≡ (ok id, u)
    → (id ≡ w.env.uuid w.tick) × (u.db ≡ w.db)
unfolding new_uuid
new_uuid-ok w h = ground arith

module _ {B : Type 0} where
  then_lem_go :
      (f : Unit {0} → M B) (r : Result (Unit {0}) × World) → r.0 ≡ ok tt → continue f r ≡ f tt r.1
  then_lem_go f (ok tt, u) h = refl
  then_lem_go f (err e, u) h = cc

  -- An action that returns nothing and does not fail is followed by the rest.
  pub then_lem :
      (m : M (Unit {0})) (f : Unit {0} → M B) (w : World)
      → (m w).0 ≡ ok tt
      → (m >>= f) w ≡ f tt (m w).1
  unfolding ◌>>=◌
  then_lem m f w h = then_lem_go f (m w) h

pub asks-ok :
    {A : Type 0} (f : Env → A) (w : World) {a : A} {u : World}
    → asks f w ≡ (ok a, u)
    → (f w.env ≡ a) × (w ≡ u)
unfolding asks
asks-ok f w h = ground arith

pub time_now-ok :
    (w : World) {now : ℕ} {u : World}
    → time_now w ≡ (ok now, u)
    → (now ≡ w.env.clock w.tick) × (u.db ≡ w.db)
unfolding time_now
time_now-ok w h = ground arith

-- What an action does from a world where its first statement works, or its first part returns.
module _ {A B : Type 0} where
  pub bind-eq :
      (m : M A) (f : A → M B) (w : World) {a : A} {u : World}
      → m w ≡ (ok a, u)
      → (m >>= f) w ≡ f a u
  unfolding ◌>>=◌
  bind-eq m f w h = ap (continue f) h

  pub bind-try :
      (m : M A) (f : Result A → M B) (w : World) {r : Result A} {u : World}
      → m w ≡ (r, u)
      → (try m >>= f) w ≡ f r u
  unfolding ◌>>=◌ try
  bind-try m f w h = ap (λ (p : Result A × World). f p.0 p.1) h

module _ {A : Type 0} where
  pub statement_works :
      (q : ℕ → Db → Result A × Db) (w : World) {r : Result A} {d : Db}
      → w.env.outcome w.tick ≡ Outcome.works
      → q (w.env.clock w.tick) w.db ≡ (r, d)
      → statement q w ≡ (r, record w { db = d; tick = suc w.tick })
  unfolding statement after_statement
  statement_works q w h k = rw (h, k) refl

  begin_works :
      (o : Outcome) (w : World) (body : M A)
      → o ≡ Outcome.works
      → let r = body (record w { tick = suc w.tick }) in
        begin o w body ≡ commit (r.1.env.outcome r.1.tick) w.db r
  unfolding begin
  begin_works Outcome.works w body h = refl
  begin_works Outcome.fails w body h = cc h
  begin_works Outcome.unacknowledged w body h = cc h

  commit_works :
      (o : Outcome) (before : Db) (a : A) (u : World)
      → o ≡ Outcome.works
      → commit o before (ok a, u) ≡ (ok a, record u { tick = suc u.tick })
  unfolding commit
  commit_works Outcome.works before a u h = refl
  commit_works Outcome.fails before a u h = cc h
  commit_works Outcome.unacknowledged before a u h = cc h

  pub transaction_works :
      (body : M A) (w : World) {a : A} {u : World}
      → w.env.outcome w.tick ≡ Outcome.works
      → u.env.outcome u.tick ≡ Outcome.works
      → body (record w { tick = suc w.tick }) ≡ (ok a, u)
      → transaction body w ≡ (ok a, record u { tick = suc u.tick })
  unfolding transaction
  transaction_works body w {a} {u} h k e =
      begin_works (w.env.outcome w.tick) w body h
      ∙ ap (λ (r : Result A × World). commit (r.1.env.outcome r.1.tick) w.db r) e
      ∙ commit_works (u.env.outcome u.tick) w.db a u k

module _ {A : Type 0} where
  after_statement_steps :
      (o : Outcome) (w : World) (r : Result A × Db)
      → ((after_statement o w r).1.env ≡ w.env)
        × ((after_statement o w r).1.tick ≡ suc w.tick)
        × ((after_statement o w r).1.deliveries ≡ w.deliveries)
  unfolding after_statement
  after_statement_steps Outcome.works w r = (refl, refl, refl)
  after_statement_steps Outcome.fails w r = (refl, refl, refl)
  after_statement_steps Outcome.unacknowledged w r = (refl, refl, refl)

  -- A statement advances the clock by one tick, and posts nothing.
  pub statement_steps :
      (q : ℕ → Db → Result A × Db) (w : World)
      → ((statement q w).1.env ≡ w.env)
        × ((statement q w).1.tick ≡ suc w.tick)
        × ((statement q w).1.deliveries ≡ w.deliveries)
  unfolding statement
  statement_steps q w = after_statement_steps (w.env.outcome w.tick) w _
