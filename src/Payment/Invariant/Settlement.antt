-- ===== src/Payment/Invariant/Settlement.antt =====
-- The invariant under persistSuccess and persistFailure.
use dodo_payment_gateway.Base.{
  ℕ, ◌≡◌, sym, subst, ap, ◌∙◌, String, Bool, true, false, Option, none, some, find, count, arith,
  update-eq_self, List, ltb,
}
use dodo_payment_gateway.Model.{
  Invoice, PaymentAttempt, PaymentAttemptStatus, is_succeeded, event_type_payment_succeeded,
  event_type_payment_failed,
}
use dodo_payment_gateway.Errors.{Result, ok}
use dodo_payment_gateway.Store.{Db, World, ◌>>◌, pure, statement, or_no_rows}
use dodo_payment_gateway.Store.Laws.{bind-ok, statement-ok}
use dodo_payment_gateway.Store.Keeps.{
  Keeps, OnDb, Keeps-pure, Keeps-if, Keeps-bind, Keeps-new_uuid, Keeps-time_now, Keeps-statement_db,
}
use dodo_payment_gateway.Repository.Invoices
use dodo_payment_gateway.Repository.PaymentAttempts
use dodo_payment_gateway.Repository.OutboundEvents
use dodo_payment_gateway.Payment.Settle.{
  enqueue_outbound_event, outbound_event, as_succeeded, as_failed, settle_paid, settle_existing,
  settle_updated, success_body, fail_updated, persist_failure,
}
use dodo_payment_gateway.Payment.Invariant.{Inv, Knows}
use dodo_payment_gateway.Payment.Invariant.Rows.{insert-event-Inv}
use dodo_payment_gateway.Payment.Invariant.Settles.{mark_paid-Inv, succeed-Inv, fail-Inv}
use dodo_payment_gateway.Payment.Invariant.Bodies.{get_attempt-Keeps}

pub enqueue-Inv : (a : PaymentAttempt) (t : String) → Keeps (OnDb Inv) (enqueue_outbound_event a t)
unfolding enqueue_outbound_event OutboundEvents.create
enqueue-Inv a t = Keeps-bind (Keeps-new_uuid (λ w n p. p)) λ id.
    Keeps-bind (Keeps-time_now (λ w n p. p))
      λ now. Keeps-statement_db Inv _ (λ n d h. insert-event-Inv (outbound_event a t id now) n d h)

enqueue_and-Inv :
    (a : PaymentAttempt) (t : String) → Keeps (OnDb Inv) (enqueue_outbound_event a t >> pure a)
enqueue_and-Inv a t = Keeps-bind (enqueue-Inv a t) (λ _. Keeps-pure a)

mark_paid_if_open-Inv : (id : String) → Keeps (OnDb Inv) (Invoices.mark_paid_if_open id)
unfolding Invoices.mark_paid_if_open
mark_paid_if_open-Inv id = Keeps-statement_db Inv _ (λ n d h. mark_paid-Inv id n d h)

settle_existing-Inv : (ref : String) (a : PaymentAttempt) → Keeps (OnDb Inv) (settle_existing ref a)
unfolding settle_existing settle_paid
settle_existing-Inv ref a =
    Keeps-if (is_succeeded a.status)
      (λ _.
        Keeps-bind (mark_paid_if_open-Inv a.invoice_id)
          (λ _. enqueue_and-Inv (as_succeeded a ref) event_type_payment_succeeded))
      (λ _. Keeps-pure a)

pub locked-invoice :
    (i : String) (w : World) {v : Invoice} {u : World}
    → Invoices.get_by_id_for_update i w ≡ (ok v, u)
    → (find (Invoices.has_id i) w.db.invoices ≡ some v) × (u.db ≡ w.db)
unfolding Invoices.get_by_id_for_update statement or_no_rows
locked-invoice i w e = ground arith

-- The state after an acknowledged settlement of the attempt `id`.
pub settled-db :
    (id : String) (s : PaymentAttemptStatus) (ref code : Option String) (w : World) {b : Bool}
    {u : World}
    → PaymentAttempts.update_status_if_pending id s ref code w ≡ (ok b, u)
    → (n : ℕ) × (u.db ≡ (PaymentAttempts.update_if_pending_query id s ref code n w.db).1)
      × (b ≡ ltb 0 (count (PaymentAttempts.is_pending_id id) w.db.payment_attempts))
unfolding PaymentAttempts.update_status_if_pending PaymentAttempts.update_if_pending_query
settled-db id s ref code w e =
    let done = statement-ok _ w e in (w.env.clock w.tick, ground arith, ground arith)

-- If no row was PENDING, nothing has changed.
pub settled-same :
    (id : String) (s : PaymentAttemptStatus) (ref code : Option String) (n : ℕ) (d : Db)
    → ltb 0 (count (PaymentAttempts.is_pending_id id) d.payment_attempts) ≡ false
    → (PaymentAttempts.update_if_pending_query id s ref code n d).1 ≡ d
unfolding PaymentAttempts.update_if_pending_query
settled-same id s ref code n d h =
    ap (λ (xs : List PaymentAttempt). record d { payment_attempts = xs })
      (update-eq_self (PaymentAttempts.is_pending_id id) (PaymentAttempts.set_status s ref code n)
        d.payment_attempts (ground arith))

pub marked-db :
    (id : String) (w : World) {u : World}
    → Invoices.mark_paid_if_open id w ≡ (ok tt, u)
    → (n : ℕ) × (u.db ≡ (Invoices.mark_paid_query id n w.db).1)
unfolding Invoices.mark_paid_if_open
marked-db id w e =
    (w.env.clock w.tick, ap (λ (r : Result (Unit {0}) × Db). r.1) (sym (statement-ok _ w e).0))

settle_updated-Inv :
    (a : PaymentAttempt) (ref : String) (b : Bool) (v : Invoice) (n : ℕ) (d : Db) (w : World)
    {r : PaymentAttempt} {u : World}
    → Inv d
    → Knows a d
    → find (Invoices.has_id a.invoice_id) d.invoices ≡ some v
    → w.db
      ≡ (PaymentAttempts.update_if_pending_query a.id PaymentAttemptStatus.succeeded
          (some ref)
          none
          n
          d).1
    → b ≡ ltb 0 (count (PaymentAttempts.is_pending_id a.id) d.payment_attempts)
    → settle_updated a ref b w ≡ (ok r, u)
    → Inv u.db
unfolding settle_updated settle_paid
settle_updated-Inv a ref true v n d w inv k row now b e =
    let (_, w1, marked, rest) = bind-ok _ _ w e in
    let (m, changed) = marked-db a.invoice_id w marked in
    ap-Inv rest (
      (enqueue_and-Inv (as_succeeded a ref) event_type_payment_succeeded).at w1 (
        subst Inv
          (sym (changed ∙ ap (λ (x : Db). (Invoices.mark_paid_query a.invoice_id m x).1) now))
          (succeed-Inv a v (some ref) none n m d k row inv)))
  where
    ap-Inv : {x y : Result PaymentAttempt × World} → x ≡ y → Inv x.1.db → Inv y.1.db
    ap-Inv p h = subst (λ (z : Result PaymentAttempt × World). Inv z.1.db) p h
settle_updated-Inv a ref false v n d w inv k row now b e = ap-Inv e (
    (Keeps-bind (get_attempt-Keeps Inv a.id) (λ x. settle_existing-Inv ref x)).at w
      (subst Inv (sym (now ∙ settled-same a.id _ (some ref) none n d (sym b))) inv))
  where
    ap-Inv : {x y : Result PaymentAttempt × World} → x ≡ y → Inv x.1.db → Inv y.1.db
    ap-Inv p h = subst (λ (z : Result PaymentAttempt × World). Inv z.1.db) p h

-- A settlement by success, for an attempt that was read from the database.
pub success_body-Inv :
    (a : PaymentAttempt) (ref : String) (w : World) {r : PaymentAttempt} {u : World}
    → Inv w.db
    → Knows a w.db
    → success_body a ref w ≡ (ok r, u)
    → Inv u.db
unfolding success_body
success_body-Inv a ref w inv k e =
    let (v, w1, e1, rest1) = bind-ok _ _ w e in
    let (b, w2, e2, rest2) = bind-ok _ _ w1 rest1 in
    let (row, same) = locked-invoice a.invoice_id w e1 in
    let (n, now, hit) = settled-db a.id _ (some ref) none w1 e2 in
    settle_updated-Inv a ref b v n w1.db w2 (subst Inv (sym same) inv)
      (subst (Knows a) (sym same) k)
      (ap (λ (x : Db). find (Invoices.has_id a.invoice_id) x.invoices) same ∙ row) now hit rest2

-- The failure of any attempt is one statement, and its event another.
pub persist_failure-Inv :
    (a : PaymentAttempt) (code : String) → Keeps (OnDb Inv) (persist_failure a code)
unfolding persist_failure fail_updated PaymentAttempts.update_status_if_pending
persist_failure-Inv a code =
    Keeps-bind (Keeps-statement_db Inv _ (λ n d h. fail-Inv a.id none (some code) n d h)) λ updated.
      Keeps-if updated (λ _. enqueue_and-Inv (as_failed a code) event_type_payment_failed)
        (λ _. get_attempt-Keeps Inv a.id)
