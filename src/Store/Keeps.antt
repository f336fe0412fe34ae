-- ===== src/Store/Keeps.antt =====
-- Invariants of the world under actions, one rule for each way to build an action.
use dodo_payment_gateway.Base.{ℕ, suc, ◌≡◌}
use dodo_payment_gateway.Base.{Bool, true, false, ◌≡◌, refl, if◌then◌else◌, sym, subst, inl, inr}
use dodo_payment_gateway.Store.Laws.{transaction-IsAtomic}
use dodo_payment_gateway.Errors.{Error, Result, ok, err}
use dodo_payment_gateway.Store.{
  Db, Env, Outcome, World, M, ◌>>=◌, pure, raise, try, statement, after_statement, transaction,
  commit, begin, continue, new_uuid, time_now, asks,
}

-- `m` keeps `P`, whether it returns or fails.
pub record Keeps {A : Type 0} (P : World → Type 0) (m : M A) : Type 0 where
  pub at : (w : World) → P w → P (m w).1

-- `P` does not look at the tick.
abbrev pub IsTimeless : (World → Type 0) → Type 0
IsTimeless P = (w : World) (n : ℕ) → P w → P (record w { tick = n })

module _ {A : Type 0} {P : World → Type 0} where
  pub Keeps-pure : (a : A) → Keeps P (pure a)
  unfolding pure
  Keeps-pure a = record { at = λ w h. h }

  pub Keeps-raise : (e : Error) → Keeps P (raise {A = A} e)
  unfolding raise
  Keeps-raise e = record { at = λ w h. h }

  pub Keeps-asks : (f : Env → A) → Keeps P (asks f)
  unfolding asks
  Keeps-asks f = record { at = λ w h. h }

  pub Keeps-if :
      (b : Bool) {m n : M A}
      → (b ≡ true → Keeps P m)
      → (b ≡ false → Keeps P n)
      → Keeps P (if b then m else n)
  Keeps-if true km kn = km refl
  Keeps-if false km kn = kn refl

  pub Keeps-try : {m : M A} → Keeps P m → Keeps P (try m)
  unfolding try
  Keeps-try k = record { at = λ w h. k.at w h }

  after_statement_keeps :
      (o : Outcome) (w : World) (r : Result A × Db)
      → IsTimeless P
      → P w
      → P (record w { db = r.1 })
      → P (after_statement o w r).1
  unfolding after_statement
  after_statement_keeps Outcome.works w (r, d) t h k = t (record w { db = d }) (suc w.tick) k
  after_statement_keeps Outcome.fails w r t h k = t w (suc w.tick) h
  after_statement_keeps Outcome.unacknowledged w (r, d) t h k =
      t (record w { db = d }) (suc w.tick) k

  pub Keeps-statement :
      (q : ℕ → Db → Result A × Db)
      → IsTimeless P
      → ((n : ℕ) (w : World) → P w → P (record w { db = (q n w.db).1 }))
      → Keeps P (statement q)
  unfolding statement
  Keeps-statement q t k = record {
    at = λ w h. after_statement_keeps (w.env.outcome w.tick) w _ t h (k (w.env.clock w.tick) w h);
  }

module _ {A B : Type 0} {P : World → Type 0} where
  Keeps-bind_go :
      (f : A → M B) (r : Result A × World) → ((a : A) → Keeps P (f a)) → P r.1 → P (continue f r).1
  Keeps-bind_go f (ok a, u) k h = (k a).at u h
  Keeps-bind_go f (err e, u) k h = h

  -- From one world on.
  pub bind_keeps :
      (m : M A) (f : A → M B) (w : World)
      → P (m w).1
      → ((a : A) → Keeps P (f a))
      → P ((m >>= f) w).1
  unfolding ◌>>=◌
  bind_keeps m f w h k = Keeps-bind_go f (m w) k h

  pub Keeps-bind :
      {m : M A} {f : A → M B} → Keeps P m → ((a : A) → Keeps P (f a)) → Keeps P (m >>= f)
  unfolding ◌>>=◌
  Keeps-bind {m} {f} km kf = record { at = λ w h. Keeps-bind_go f (m w) kf (km.at w h) }

module _ {P : World → Type 0} where
  pub Keeps-new_uuid : IsTimeless P → Keeps P new_uuid
  unfolding new_uuid
  Keeps-new_uuid t = record { at = λ w h. t w (suc w.tick) h }

  pub Keeps-time_now : IsTimeless P → Keeps P time_now
  unfolding time_now
  Keeps-time_now t = record { at = λ w h. t w (suc w.tick) h }

-- An invariant of the database alone.
abbrev pub OnDb : (Db → Type 0) → World → Type 0
OnDb I w = I w.db

module _ {A : Type 0} (I : Db → Type 0) where
  pub Keeps-statement_db :
      (q : ℕ → Db → Result A × Db)
      → ((n : ℕ) (d : Db) → I d → I (q n d).1)
      → Keeps (OnDb I) (statement q)
  Keeps-statement_db q k = Keeps-statement q (λ w n h. h) (λ n w h. k n w.db h)

  -- A transaction keeps what its body keeps when it returns: what it does on the way is not seen.
  pub Keeps-transaction :
      {body : M A}
      → ((w : World) (a : A) (u : World) → I w.db → body w ≡ (ok a, u) → I u.db)
      → Keeps (OnDb I) (transaction body)
  Keeps-transaction {body} k = record {
    at = λ w h. elim (transaction-IsAtomic body w) [
      | inl same ↦ subst I (sym same) h
      | inr (a, u, e, d) ↦ subst I (sym d) (k (record w { tick = suc w.tick }) a u h e)
    ];
  }

-- `P` does not look at the database or the tick.
abbrev pub IsBlind : (World → Type 0) → Type 0
IsBlind P = (w : World) (d : Db) (n : ℕ) → P w → P (record w { db = d; tick = n })

module _ {A : Type 0} {P : World → Type 0} where
  commit_blind :
      (o : Outcome) (before : Db) (r : Result A × World)
      → IsBlind P
      → P r.1
      → P (commit o before r).1
  unfolding commit
  commit_blind o before (err e, u) b h = b u before u.tick h
  commit_blind Outcome.works before (ok a, u) b h = b u u.db (suc u.tick) h
  commit_blind Outcome.fails before (ok a, u) b h = b u before (suc u.tick) h
  commit_blind Outcome.unacknowledged before (ok a, u) b h = b u u.db (suc u.tick) h

  begin_blind :
      (o : Outcome) (w : World) (body : M A) → IsBlind P → Keeps P body → P w → P (begin o w body).1
  unfolding begin
  begin_blind Outcome.works w body b k h =
      commit_blind _ w.db _ b (k.at _ (b w w.db (suc w.tick) h))
  begin_blind Outcome.fails w body b k h = b w w.db (suc w.tick) h
  begin_blind Outcome.unacknowledged w body b k h = b w w.db (suc w.tick) h

  pub Keeps-transaction_blind : {body : M A} → IsBlind P → Keeps P body → Keeps P (transaction body)
  unfolding transaction
  Keeps-transaction_blind {body} b k = record {
    at = λ w h. begin_blind (w.env.outcome w.tick) w body b k h;
  }

  pub Keeps-statement_blind : (q : ℕ → Db → Result A × Db) → IsBlind P → Keeps P (statement q)
  Keeps-statement_blind q b =
      Keeps-statement q (λ w n h. b w w.db n h) (λ n w h. b w (q n w.db).1 w.tick h)

module _ {A B : Type 0} (P : World → Type 0) where
  bind_keeps_ok_go :
      (f : A → M B) (r : Result A × World)
      → P r.1
      → ((a : A) (u : World) → r ≡ (ok a, u) → P (f a u).1)
      → P (continue f r).1
  bind_keeps_ok_go f (ok a, u) h k = k a u refl
  bind_keeps_ok_go f (err e, u) h k = h

  -- The rest may use what the first action returned.
  pub bind_keeps_ok :
      (m : M A) (f : A → M B) (w : World)
      → P (m w).1
      → ((a : A) (u : World) → m w ≡ (ok a, u) → P (f a u).1)
      → P ((m >>= f) w).1
  unfolding ◌>>=◌
  bind_keeps_ok m f w h k = bind_keeps_ok_go f (m w) h k

  -- Asking the environment does nothing.
  pub asks_keeps :
      (g : Env → A) (f : A → M B) (w : World) → P (f (g w.env) w).1 → P ((asks g >>= f) w).1
  unfolding ◌>>=◌ asks
  asks_keeps g f w h = h
