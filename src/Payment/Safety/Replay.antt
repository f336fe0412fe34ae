-- ===== src/Payment/Safety/Replay.antt =====
-- A call that repeats an earlier one.
use Prim.Native.String.{◌++◌}
use dodo_payment_gateway.Base.{
  ℕ, suc, ◌≡◌, refl, subst, ap, ◌∙◌, String, false, ◌&&◌, Option, none, some, ◌==◌, find, arith,
  eq_iff,
}
use dodo_payment_gateway.Model.{PaymentAttempt, is_pending, IdempotencyKey}
use dodo_payment_gateway.Errors.{Result, ok, err, idempotency_conflict}
use dodo_payment_gateway.Store.{
  Db, World, Outcome, ◌>>=◌, pure, raise, try, asks, statement, or_no_rows,
}
use dodo_payment_gateway.Repository.PaymentAttempts
use dodo_payment_gateway.Repository.IdempotencyKeys
use dodo_payment_gateway.Payment.Guards.{hash_pay_request}
use dodo_payment_gateway.Payment.Pay.{
  pay_invoice, pay_looked_up, replay_idempotent_pay, replay_attempt, resume,
}
use dodo_payment_gateway.Payment.History.{Evolves, AttemptEvolves, KeyEvolves}
use dodo_payment_gateway.Payment.Safety.{Steps-Evolves}
use dodo_payment_gateway.Payment.Steps.{Steps}

-- A statement that works.
select_works :
    {A : Type 0} (q : ℕ → Db → Result A × Db) (w : World) (r : Result A)
    → w.env.outcome w.tick ≡ Outcome.works
    → q (w.env.clock w.tick) w.db ≡ (r, w.db)
    → statement q w ≡ (r, record w { tick = suc w.tick })
unfolding statement
select_works q w r o e = rw (o, e) refl

looks_up :
    (b k : String) (key : IdempotencyKey) (w : World)
    → w.env.outcome w.tick ≡ Outcome.works
    → find (IdempotencyKeys.has_key b k) w.db.idempotency_keys ≡ some key
    → IdempotencyKeys.get_by_key b k w ≡ (ok key, record w { tick = suc w.tick })
unfolding IdempotencyKeys.get_by_key or_no_rows
looks_up b k key w o e = select_works _ w (ok key) o (ap (λ x. (or_no_rows x, w.db)) e)

reads :
    (id : String) (a : PaymentAttempt) (w : World)
    → w.env.outcome w.tick ≡ Outcome.works
    → find (PaymentAttempts.has_id id) w.db.payment_attempts ≡ some a
    → PaymentAttempts.get_by_id id w ≡ (ok a, record w { tick = suc w.tick })
unfolding PaymentAttempts.get_by_id or_no_rows
reads id a w o e = select_works _ w (ok a) o (ap (λ x. (or_no_rows x, w.db)) e)

-- PayInvoice with a key that is there.
pay-replays :
    (b i k token : String) (key : IdempotencyKey) (w : World)
    → w.env.outcome w.tick ≡ Outcome.works
    → find (IdempotencyKeys.has_key b k) w.db.idempotency_keys ≡ some key
    → pay_invoice b i k token w
      ≡ replay_idempotent_pay key i token
          (w.env.sha256_hex (i ++ "\n" ++ token))
          (record w { tick = suc w.tick })
unfolding pay_invoice pay_looked_up hash_pay_request ◌>>=◌ try asks replay_idempotent_pay
pay-replays b i k token key w o e = rw (looks_up b k key w o e) refl

-- When the key of a call of PayInvoice is there with another invoice or another request hash, and
-- the database answers the look-up, the call is refused with a conflict; nothing is changed and
-- nothing is sent.
pub conflict-pay_invoice :
    (b i k token : String) (key : IdempotencyKey) (w : World)
    → w.env.outcome w.tick ≡ Outcome.works
    → find (IdempotencyKeys.has_key b k) w.db.idempotency_keys ≡ some key
    → (key.request_hash == w.env.sha256_hex (i ++ "\n" ++ token)) && (key.invoice_id == i) ≡ false
    → pay_invoice b i k token w ≡ (err idempotency_conflict, record w { tick = suc w.tick })
unfolding replay_idempotent_pay raise
conflict-pay_invoice b i k token key w o e differs =
    pay-replays b i k token key w o e ∙ ground arith

-- The same call, once its attempt is settled.
settled_now :
    (b i k token : String) (key : IdempotencyKey) (a : PaymentAttempt) (w : World)
    → w.env.outcome w.tick ≡ Outcome.works
    → w.env.outcome (suc w.tick) ≡ Outcome.works
    → find (IdempotencyKeys.has_key b k) w.db.idempotency_keys ≡ some key
    → key.request_hash ≡ w.env.sha256_hex (i ++ "\n" ++ token)
    → key.invoice_id ≡ i
    → key.payment_attempt_id ≡ some a.id
    → find (PaymentAttempts.has_id a.id) w.db.payment_attempts ≡ some a
    → is_pending a.status ≡ false
    → pay_invoice b i k token w ≡ (ok a, record w { tick = suc (suc w.tick) })
unfolding replay_idempotent_pay replay_attempt resume ◌>>=◌ pure
settled_now b i k token key a w o o' e same_hash same_invoice names row done =
    pay-replays b i k token key w o e
    ∙ rw
        (
          (eq_iff key.request_hash _).1 same_hash,
          (eq_iff key.invoice_id i).1 same_invoice,
          names,
          reads a.id a (record w { tick = suc w.tick }) o' row,
          done,
        )
        refl

settled-same :
    (a : PaymentAttempt) (o : Option PaymentAttempt)
    → AttemptEvolves (some a) o
    → is_pending a.status ≡ false
    → o ≡ some a
settled-same a none h done = absurd h
settled-same a (some r) h done = ap some (h.4 done)

-- A settled payment is replayed for ever: take a world where the key names this request and its
-- attempt is settled. After any steps of any calls, the same call of PayInvoice, with a database that
-- answers its two reads, returns that same attempt, and changes and sends nothing.
pub pay_invoice-replays :
    (b i k token : String) (key : IdempotencyKey) (a : PaymentAttempt) (w v : World)
    → find (IdempotencyKeys.has_key b k) w.db.idempotency_keys ≡ some key
    → key.request_hash ≡ v.env.sha256_hex (i ++ "\n" ++ token)
    → key.invoice_id ≡ i
    → key.payment_attempt_id ≡ some a.id
    → find (PaymentAttempts.has_id a.id) w.db.payment_attempts ≡ some a
    → is_pending a.status ≡ false
    → Steps w v
    → v.env.outcome v.tick ≡ Outcome.works
    → v.env.outcome (suc v.tick) ≡ Outcome.works
    → pay_invoice b i k token v ≡ (ok a, record v { tick = suc (suc v.tick) })
pay_invoice-replays b i k token key a w v row same_hash same_invoice names settled done s o o' =
    settled_now b i k token key a v o o'
      (subst
        (λ (x : Option IdempotencyKey).
          KeyEvolves x (find (IdempotencyKeys.has_key b k) v.db.idempotency_keys))
        row (kept.keys b k))
      same_hash same_invoice names
      (settled-same a _
        (subst
          (λ (x : Option PaymentAttempt).
            AttemptEvolves x (find (PaymentAttempts.has_id a.id) v.db.payment_attempts))
          settled (kept.attempts a.id))
        done)
      done
  where
    kept : Evolves w.db v.db
    kept = Steps-Evolves w v s
