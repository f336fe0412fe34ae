-- ===== src/Payment/Runs.antt =====
-- PayInvoice as one run: the attempts that it charges are those whose rows it has read or written.
use dodo_payment_gateway.Base.{
  ◌≡◌, refl, sym, subst, ap, ◌∙◌, String, not, ◌||◌, Option, none, some, ◌==◌, find, arith, inl,
  inr, eq_iff, find_holds, Bool-cases,
}
use dodo_payment_gateway.Model.{is_pending, PaymentAttempt, IdempotencyKey}
use dodo_payment_gateway.Errors.{Result, ok, err, is_no_rows, is_unique_violation}
use dodo_payment_gateway.Store.{Db, World, M, ◌>>=◌, pure, raise, try, statement, or_no_rows}
use dodo_payment_gateway.Store.Laws.{try-ok}
use dodo_payment_gateway.Store.Keeps.{Keeps, Keeps-try, asks_keeps, bind_keeps_ok}
use dodo_payment_gateway.Repository.PaymentAttempts
use dodo_payment_gateway.Repository.IdempotencyKeys
use dodo_payment_gateway.Payment.Guards.{hash_pay_request}
use dodo_payment_gateway.Payment.Settle.{charge_and_settle}
use dodo_payment_gateway.Payment.Create.{create_pending_attempt}
use dodo_payment_gateway.Payment.Pay.{
  resume, replay_attempt, replay_idempotent_pay, is_refusal, pay_created, pay_looked_up,
  pay_invoice,
}
use dodo_payment_gateway.Payment.Creation.{create_pending_attempt-Created}
use dodo_payment_gateway.Payment.Invariant.{Knows, IsSameAttempt}

-- An attempt that has just been read is known.
pub read_attempt-ok :
    (id : String) (w : World) {a : PaymentAttempt} {u : World}
    → PaymentAttempts.get_by_id id w ≡ (ok a, u)
    → (find (PaymentAttempts.has_id id) w.db.payment_attempts ≡ some a) × (u.db ≡ w.db)
unfolding PaymentAttempts.get_by_id statement or_no_rows
read_attempt-ok id w e = ground arith

pub read-Knows :
    (id : String) (w : World) {a : PaymentAttempt} {u : World}
    → PaymentAttempts.get_by_id id w ≡ (ok a, u)
    → Knows a u.db
read-Knows id w {a} {u} e = subst (IsSameAttempt a) (sym row) (refl, refl, refl, refl)
  where
    found : (find (PaymentAttempts.has_id id) w.db.payment_attempts ≡ some a) × (u.db ≡ w.db)
    found = read_attempt-ok id w e

    row : find (PaymentAttempts.has_id a.id) u.db.payment_attempts ≡ some a
    row =
        ap (λ (d : Db). find (PaymentAttempts.has_id a.id) d.payment_attempts) found.1
        ∙ ap (λ (j : String). find (PaymentAttempts.has_id j) w.db.payment_attempts)
            ((eq_iff a.id id).0
              (find_holds (PaymentAttempts.has_id id) a w.db.payment_attempts found.0))
        ∙ found.0

-- So is one that has just been created.
created-Knows :
    (b i k h : String) (w u : World) {r : Result PaymentAttempt}
    → try (create_pending_attempt b i k h) w ≡ (ok r, u)
    → (a : PaymentAttempt) → r ≡ ok a
    → Knows a u.db
created-Knows b i k h w u e a is_created =
    let c =
      create_pending_attempt-Created b i k h w
        (try-ok _ w e ∙ ap (λ (x : Result PaymentAttempt). (x, u)) is_created) in
    subst (IsSameAttempt a) (sym c.attempt_row) (refl, refl, refl, refl)

-- A call of PayInvoice from a world with `P` to one with `Q`: what its parts must do. Only an attempt
-- whose row is there is ever charged.
pub record Run (P Q : World → Type 0) : Type 0 where
  pub weaken : (w : World) → P w → Q w
  pub look_up : (b k : String) → Keeps P (IdempotencyKeys.get_by_key b k)
  pub read : (id : String) → Keeps P (PaymentAttempts.get_by_id id)
  pub begin_attempt : (b i k h : String) → Keeps P (create_pending_attempt b i k h)
  pub charge :
      (a : PaymentAttempt) (token : String) (w : World)
      → P w
      → Knows a w.db
      → Q (charge_and_settle a token w).1

module _ {P Q : World → Type 0} (f : Run P Q) where
  abbrev Ends : {A : Type 0} → M A → World → Type 0
  Ends m w = Q (m w).1

  resume-Ends :
      (token : String) (a : PaymentAttempt) (w : World)
      → P w
      → Knows a w.db
      → Ends (resume token a) w
  unfolding resume pure
  resume-Ends token a w p k = elim (Bool-cases (not (is_pending a.status))) [
    | inl is_settled ↦ rw is_settled (f.weaken w p)
    | inr is_open ↦ rw is_open (f.charge a token w p k)
  ]

  replay_attempt-Ends :
      (token : String) (o : Option String) (w : World) → P w → Ends (replay_attempt token o) w
  unfolding replay_attempt raise
  replay_attempt-Ends token none w p = f.weaken w p
  replay_attempt-Ends token (some id) w p =
      bind_keeps_ok Q _ _ w (f.weaken _ ((f.read id).at w p)) λ a u e.
        resume-Ends token a u
          (subst (λ (x : Result PaymentAttempt × World). P x.1) e ((f.read id).at w p))
          (read-Knows id w e)

  replay-Ends :
      (k : IdempotencyKey) (i token h : String) (w : World)
      → P w
      → Ends (replay_idempotent_pay k i token h) w
  unfolding replay_idempotent_pay raise
  replay-Ends k i token h w p =
      elim (Bool-cases (not (k.request_hash == h) || not (k.invoice_id == i))) [
        | inl differs ↦ rw differs (f.weaken w p)
        | inr same ↦ rw same (replay_attempt-Ends token k.payment_attempt_id w p)
      ]

  look_up_again-Ends :
      (b i k token h : String) (w : World)
      → P w
      → Ends (IdempotencyKeys.get_by_key b k >>= λ key. replay_idempotent_pay key i token h) w
  look_up_again-Ends b i k token h w p =
      bind_keeps_ok Q _ _ w (f.weaken _ ((f.look_up b k).at w p)) λ key u e.
        replay-Ends key i token h u
          (subst (λ (x : Result IdempotencyKey × World). P x.1) e ((f.look_up b k).at w p))

  pay_created-Ends :
      (b i k token h : String) (r : Result PaymentAttempt) (w : World)
      → P w
      → ((a : PaymentAttempt) → r ≡ ok a → Knows a w.db)
      → Ends (pay_created b i k token h r) w
  unfolding pay_created raise
  pay_created-Ends b i k token h (ok a) w p known = f.charge a token w p (known a refl)
  pay_created-Ends b i k token h (err e) w p known = elim (Bool-cases (is_refusal e)) [
    | inl refused ↦ rw refused (f.weaken w p)
    | inr other_error ↦ rw other_error (elim (Bool-cases (is_unique_violation e)) [
      | inl raced ↦ rw raced (look_up_again-Ends b i k token h w p)
      | inr unknown ↦ rw unknown (f.weaken w p)
    ])
  ]

  pay_looked_up-Ends :
      (b i k token h : String) (r : Result IdempotencyKey) (w : World)
      → P w
      → Ends (pay_looked_up b i k token h r) w
  unfolding pay_looked_up raise
  pay_looked_up-Ends b i k token h (ok key) w p = replay-Ends key i token h w p
  pay_looked_up-Ends b i k token h (err e) w p = elim (Bool-cases (is_no_rows e)) [
    | inl free ↦ rw free (
        bind_keeps_ok Q _ _ w (f.weaken _ ((Keeps-try (f.begin_attempt b i k h)).at w p))
          λ r u made.
            pay_created-Ends b i k token h r u
              (subst (λ (x : Result (Result PaymentAttempt) × World). P x.1) made
                ((Keeps-try (f.begin_attempt b i k h)).at w p))
              (created-Knows b i k h w u made))
    | inr failed_look_up ↦ rw failed_look_up (f.weaken w p)
  ]

  pub pay_invoice-Ends : (b i k token : String) (w : World) → P w → Ends (pay_invoice b i k token) w
  unfolding pay_invoice hash_pay_request
  pay_invoice-Ends b i k token w p = asks_keeps Q _ _ w (
      bind_keeps_ok Q _ _ w (f.weaken _ ((Keeps-try (f.look_up b k)).at w p)) λ r v got.
        pay_looked_up-Ends b i k token _ r v (
          subst (λ (x : Result (Result IdempotencyKey) × World). P x.1) got
            ((Keeps-try (f.look_up b k)).at w p)))
