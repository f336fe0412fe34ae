-- ===== src/Payment/Creation.antt =====
-- What createPendingAttempt leaves behind when it returns.
use dodo_payment_gateway.Base.{
  ℕ, ◌≡◌, refl, sym, subst, ap, ◌∙◌, String, true, none, some, find, insert, arith, eq_iff,
  find_holds, find-insert-none,
}
use dodo_payment_gateway.Model.{
  Invoice, is_draft_or_open, PaymentAttempt, PaymentAttemptStatus, IdempotencyKey,
}
use dodo_payment_gateway.Errors.{Result, ok}
use dodo_payment_gateway.Store.{Db, World, pure, raise, statement, or_no_rows}
use dodo_payment_gateway.Store.Laws.{bind_elim, statement-ok, try-ok, new_uuid-ok, transaction-ok}
use dodo_payment_gateway.Repository.Invoices
use dodo_payment_gateway.Repository.PaymentAttempts
use dodo_payment_gateway.Repository.IdempotencyKeys
use dodo_payment_gateway.Payment.Create.{
  open_draft, none_pending, insert_pending, create_pending_attempt, new_attempt, new_key,
  in_progress,
}
use dodo_payment_gateway.Payment.Invariant.Bodies.{create_body-Admitted, return_or-ok}

-- The attempt `a` that a call for the invoice `i` of the business `b`, under the key `k` and the
-- hash `h`, has created between `d` and `d'`.
pub record Created (b i k h : String) (d d' : Db) (a : PaymentAttempt) : Type 0 where
  pub invoice : Invoice
  pub row : find (Invoices.has_id i) d.invoices ≡ some invoice
  pub owner : invoice.business_id ≡ b
  pub payable : is_draft_or_open invoice.status ≡ true
  pub snapshot :
      (a.invoice_id ≡ i)
      × (a.business_id ≡ b)
      × (a.amount ≡ invoice.amount)
      × (a.currency ≡ invoice.currency)
      × (a.status ≡ PaymentAttemptStatus.pending)
  pub key_was_free : find (IdempotencyKeys.has_key b k) d.idempotency_keys ≡ none
  pub none_was_pending : find (PaymentAttempts.is_pending_of i) d.payment_attempts ≡ none
  pub key : IdempotencyKey
  pub key_row : find (IdempotencyKeys.has_key b k) d'.idempotency_keys ≡ some key
  pub key_names :
      (key.payment_attempt_id ≡ some a.id) × (key.invoice_id ≡ i) × (key.request_hash ≡ h)
  pub attempt_row : find (PaymentAttempts.has_id a.id) d'.payment_attempts ≡ some a

create_key-ok :
    (k : IdempotencyKey) (w : World) {r : IdempotencyKey} {u : World}
    → IdempotencyKeys.create k w ≡ (ok r, u)
    → (n : ℕ) × (find
          (IdempotencyKeys.has_key k.business_id k.idempotency_key)
          w.db.idempotency_keys
        ≡ none)
      × (u.db ≡ record w.db {
        idempotency_keys = insert (record k { created_at = n }) w.db.idempotency_keys;
      })
unfolding IdempotencyKeys.create IdempotencyKeys.is_duplicate
create_key-ok k w e =
    let done = statement-ok _ w e in (w.env.clock w.tick, ground arith, ground arith)

create_attempt-ok :
    (a : PaymentAttempt) (w : World) {r : PaymentAttempt} {u : World}
    → PaymentAttempts.create a w ≡ (ok r, u)
    → (n : ℕ) × (r ≡ record a { created_at = n; updated_at = n })
      × (find (PaymentAttempts.has_id a.id) w.db.payment_attempts ≡ none)
      × (u.db ≡ record w.db {
        payment_attempts = insert (PaymentAttempts.as_row a n) w.db.payment_attempts;
      })
unfolding PaymentAttempts.create PaymentAttempts.is_duplicate
create_attempt-ok a w e =
    let done = statement-ok _ w e in (w.env.clock w.tick, ground arith, ground arith, ground arith)

pending-ok :
    (i : String) (w : World) {r : Result PaymentAttempt} {u v : World}
    → PaymentAttempts.get_pending_by_invoice_id i w ≡ (r, u)
    → none_pending r u ≡ (ok tt, v)
    → (find (PaymentAttempts.is_pending_of i) w.db.payment_attempts ≡ none) × (v.db ≡ w.db)
unfolding PaymentAttempts.get_pending_by_invoice_id none_pending statement pure raise or_no_rows
pending-ok i w e h = ground arith

open_draft-ok :
    (v : Invoice) (w : World) {u : World}
    → open_draft v w ≡ (ok tt, u)
    → (u.db.idempotency_keys ≡ w.db.idempotency_keys)
      × (u.db.payment_attempts ≡ w.db.payment_attempts)
unfolding open_draft Invoices.update_status statement pure
open_draft-ok v w e = ground arith

module _ (v : Invoice) (b i k h attempt_id key_id : String) (n m : ℕ) (d0 d1 d3 d6 : Db)
    (row : find (Invoices.has_id i) d0.invoices ≡ some v) (owner : v.business_id ≡ b)
    (payable : is_draft_or_open v.status ≡ true) (keys : d1.idempotency_keys ≡ d0.idempotency_keys)
    (attempts : d1.payment_attempts ≡ d0.payment_attempts)
    (free : find (IdempotencyKeys.has_key b k) d1.idempotency_keys ≡ none)
    (put_key : d3 ≡ record d1 {
      idempotency_keys =
          insert
            (record (new_key v b k h attempt_id key_id) { created_at = n })
            d1.idempotency_keys;
    })
    (no_pending : find (PaymentAttempts.is_pending_of v.id) d3.payment_attempts ≡ none)
    (fresh : find (PaymentAttempts.has_id attempt_id) d3.payment_attempts ≡ none)
    (put_attempt : d6 ≡ record d3 {
      payment_attempts =
          insert (PaymentAttempts.as_row (new_attempt v b attempt_id) m) d3.payment_attempts;
    }) where
  same_id : v.id ≡ i
  same_id = (eq_iff v.id i).0 (find_holds (Invoices.has_id i) v d0.invoices row)

  same_attempts : d3.payment_attempts ≡ d0.payment_attempts
  same_attempts = ap (λ (d : Db). d.payment_attempts) put_key ∙ attempts

  key_found :
      find (IdempotencyKeys.has_key b k) d6.idempotency_keys
      ≡ some (record (new_key v b k h attempt_id key_id) { created_at = n })
  key_found =
      ap (λ (d : Db). find (IdempotencyKeys.has_key b k) d.idempotency_keys) put_attempt
      ∙ ap (λ (d : Db). find (IdempotencyKeys.has_key b k) d.idempotency_keys) put_key
      ∙ find-insert-none (IdempotencyKeys.has_key b k)
          (record (new_key v b k h attempt_id key_id) { created_at = n }) d1.idempotency_keys free
      ∙ ground (arith, eq_iff b b, eq_iff k k)

  attempt_found :
      find (PaymentAttempts.has_id attempt_id) d6.payment_attempts
      ≡ some (PaymentAttempts.as_row (new_attempt v b attempt_id) m)
  attempt_found =
      ap (λ (d : Db). find (PaymentAttempts.has_id attempt_id) d.payment_attempts) put_attempt
      ∙ find-insert-none (PaymentAttempts.has_id attempt_id)
          (PaymentAttempts.as_row (new_attempt v b attempt_id) m) d3.payment_attempts fresh
      ∙ ground (arith, eq_iff attempt_id attempt_id)

  assemble : Created b i k h d0 d6 (PaymentAttempts.as_row (new_attempt v b attempt_id) m)
  assemble = record {
    invoice = v;
    row = row;
    owner = owner;
    payable = payable;
    snapshot = (same_id, refl, refl, refl, refl);
    key_was_free = rw keys at free;
    none_was_pending = rw (same_attempts, same_id) at no_pending;
    key = record (new_key v b k h attempt_id key_id) { created_at = n };
    key_row = key_found;
    key_names = (refl, same_id, refl);
    attempt_row = attempt_found;
  }

-- The rows after the two inserts, from the rows before them.
insert_pending-Created :
    (v : Invoice) (b i k h : String) (d0 : Db) (w : World) {a : PaymentAttempt} {u : World}
    → find (Invoices.has_id i) d0.invoices ≡ some v
    → v.business_id ≡ b
    → is_draft_or_open v.status ≡ true
    → w.db.idempotency_keys ≡ d0.idempotency_keys
    → w.db.payment_attempts ≡ d0.payment_attempts
    → insert_pending v b k h w ≡ (ok a, u)
    → Created b i k h d0 u.db a
unfolding insert_pending
insert_pending-Created v b i k h d0 w {a} {u} row owner payable keys attempts e =
    bind_elim _ _ w e λ attempt_id w1 e1 rest1. bind_elim _ _ w1 rest1 λ key_id w2 e2 rest2.
      bind_elim _ _ w2 rest2 λ _ w3 e3 rest3. bind_elim _ _ w3 rest3 λ pending w4 e4 rest4.
        bind_elim _ _ w4 rest4 λ _ w5 e5 rest5. bind_elim _ _ w5 rest5 λ created w6 e6 rest6.
          finish attempt_id key_id w2 w3 w5 w6 created
            ((new_uuid-ok w1 e2).1 ∙ (new_uuid-ok w e1).1) (create_key-ok _ w2 e3)
            (pending-ok v.id w3 (try-ok _ w3 e4) e5) (try-ok _ w5 e6)
            (return_or-ok in_progress created w6 rest6)
  where
    finish :
        (attempt_id key_id : String) (w2 w3 w5 w6 : World) (created : Result PaymentAttempt)
        → w2.db ≡ w.db
        → (n : ℕ) × (find (IdempotencyKeys.has_key b k) w2.db.idempotency_keys ≡ none)
          × (w3.db ≡ record w2.db {
            idempotency_keys =
                insert
                  (record (new_key v b k h attempt_id key_id) { created_at = n })
                  w2.db.idempotency_keys;
          })
        → (find (PaymentAttempts.is_pending_of v.id) w3.db.payment_attempts ≡ none)
          × (w5.db ≡ w3.db)
        → PaymentAttempts.create (new_attempt v b attempt_id) w5 ≡ (created, w6)
        → (created ≡ ok a) × (w6 ≡ u)
        → Created b i k h d0 u.db a
    finish attempt_id key_id w2 w3 w5 w6 created same (n, free, put_key) (none_pending, idle) made
          (done, last) =
        let (m, built, fresh, put_attempt) =
          create_attempt-ok (new_attempt v b attempt_id) w5
            (made ∙ ap (λ (r : Result PaymentAttempt). (r, w6)) done) in
        subst (λ (x : World). Created b i k h d0 x.db a) last
          (subst (Created b i k h d0 w6.db) (sym built) (
            assemble v b i k h attempt_id key_id n m d0 w2.db w3.db w6.db row owner payable
              (ap (λ (d : Db). d.idempotency_keys) same ∙ keys)
              (ap (λ (d : Db). d.payment_attempts) same ∙ attempts) free put_key none_pending
              (rw idle at fresh)
              (put_attempt
                ∙ ap
                    (λ (d : Db). record d {
                      payment_attempts =
                          insert (PaymentAttempts.as_row (new_attempt v b attempt_id) m)
                            d.payment_attempts;
                    })
                    idle)))

-- Whenever createPendingAttempt returns, the invoice existed, belonged to the business and could be
-- paid, the key was free and no attempt was pending; now the attempt is committed with the amount
-- and currency of the invoice, and the key names it.
pub create_pending_attempt-Created :
    (b i k h : String) (w : World) {a : PaymentAttempt} {u : World}
    → create_pending_attempt b i k h w ≡ (ok a, u)
    → Created b i k h w.db u.db a
unfolding create_pending_attempt
create_pending_attempt-Created b i k h w {a} e =
    let (u', done, committed, _, _) = transaction-ok _ w e in
    let c = create_body-Admitted b i k h _ done in
    subst (λ (d : Db). Created b i k h w.db d a) (sym committed)
      (bind_elim _ _ c.start c.rest λ _ w5 opened rest5.
        let (keys, attempts) = open_draft-ok c.invoice c.start opened in
        insert_pending-Created c.invoice b i k h w.db w5 c.row c.owner c.payable
          (keys ∙ ap (λ (d : Db). d.idempotency_keys) c.unchanged)
          (attempts ∙ ap (λ (d : Db). d.payment_attempts) c.unchanged) rest5)
