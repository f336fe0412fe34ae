-- ===== src/Payment/Succeeds.antt =====
-- persistSuccess of internal/service/payment_service.go while the database works: that it returns, and
-- the rows that it leaves.
use dodo_payment_gateway.Base.{
  ℕ, suc, ◌≡◌, refl, ◌∙◌, inl, inr, String, true, none, some, List, insert, find, is_some, update,
  count, ltb, arith, Bool-cases, eq_refl, List, insert, update, count-pos_of_find, find_fewer,
}
use dodo_payment_gateway.Model.{
  Invoice, PaymentAttempt, PaymentAttemptStatus, Business, OutboundEvent,
  event_type_payment_succeeded, is_pending,
}
use dodo_payment_gateway.Errors.{ok}
use dodo_payment_gateway.Store.{
  Db, World, Outcome, ◌>>=◌, pure, statement, or_no_rows, time_now, new_uuid,
}
use dodo_payment_gateway.Store.Laws.{bind-eq, statement_works}
use dodo_payment_gateway.Repository.Invoices
use dodo_payment_gateway.Repository.Businesses
use dodo_payment_gateway.Repository.PaymentAttempts
use dodo_payment_gateway.Repository.OutboundEvents
use dodo_payment_gateway.Payment.Settle.{
  outbound_event, enqueue_outbound_event, as_succeeded, settle_paid, settle_updated, success_body,
}

-- The rows that an INSERT into the outbox leaves alone.
abbrev Same : Db → Db → Type 0
Same d d' = (d'.payment_attempts ≡ d.payment_attempts) × (d'.webhook_events ≡ d.webhook_events)

insert-event-Same :
    (e : OutboundEvent) (business : Business) (n : ℕ) (d : Db)
    → find (OutboundEvents.has_id e.id) d.outbound_events ≡ none
    → find (Businesses.has_id e.business_id) d.businesses ≡ some business
    → (d' : Db) × (OutboundEvents.insert_query e n d ≡ (ok tt, d')) × Same d d'
unfolding OutboundEvents.insert_query
insert-event-Same e business n d free row =
    elim (Bool-cases
      (is_some (find (OutboundEvents.has_source e.event_type e.source_id) d.outbound_events))) [
        | inl there ↦ (d, rw there refl, (refl, refl))
        | inr absent ↦ (
          record d { outbound_events = insert (OutboundEvents.as_row e n) d.outbound_events },
          rw (absent, free, row) refl,
          (refl, refl),
        )
      ]

enqueue-Same :
    (a : PaymentAttempt) (business : Business) (t : String) (w : World)
    → ((n : ℕ) → w.env.outcome n ≡ Outcome.works)
    → ((n : ℕ) → find (OutboundEvents.has_id (w.env.uuid n)) w.db.outbound_events ≡ none)
    → find (Businesses.has_id a.business_id) w.db.businesses ≡ some business
    → (d' : Db) × (enqueue_outbound_event a t w
        ≡ (ok tt, record w { db = d'; tick = suc (suc (suc w.tick)) }))
      × Same w.db d'
unfolding enqueue_outbound_event new_uuid time_now OutboundEvents.create statement ◌>>=◌
enqueue-Same a business t w works fresh row =
    let (d', done, same) =
      insert-event-Same (outbound_event a t (w.env.uuid w.tick) (w.env.clock (suc w.tick))) business
        (w.env.clock (suc (suc w.tick))) w.db (fresh w.tick) row in
    (d', rw (works (suc (suc w.tick)), done) refl, same)

pending-count :
    (a : PaymentAttempt) (d : Db)
    → find (PaymentAttempts.has_id a.id) d.payment_attempts ≡ some a
    → is_pending a.status ≡ true
    → ltb 0 (count (PaymentAttempts.is_pending_id a.id) d.payment_attempts) ≡ true
pending-count a d row waits = ground (
  arith,
  count-pos_of_find (PaymentAttempts.is_pending_id a.id) a d.payment_attempts (
      find_fewer (PaymentAttempts.has_id a.id) (PaymentAttempts.is_pending_id a.id) a
        d.payment_attempts row (ground (arith, waits, eq_refl a.id)) (λ x h. ground (arith, h))),
)

module _ (a : PaymentAttempt) (business : Business) where
  settle_paid-Same :
      (ref : String) (w : World)
      → ((n : ℕ) → w.env.outcome n ≡ Outcome.works)
      → ((n : ℕ) → find (OutboundEvents.has_id (w.env.uuid n)) w.db.outbound_events ≡ none)
      → find (Businesses.has_id a.business_id) w.db.businesses ≡ some business
      → (d' : Db) × (settle_paid a ref w
          ≡ (ok (as_succeeded a ref), record w { db = d'; tick = suc (suc (suc (suc w.tick))) }))
        × Same w.db d'
  unfolding settle_paid Invoices.mark_paid_if_open Invoices.mark_paid_query statement pure ◌>>=◌
  settle_paid-Same ref w works fresh row =
      let marked = record w {
        db = (Invoices.mark_paid_query a.invoice_id (w.env.clock w.tick) w.db).1;
        tick = suc w.tick;
      } in
      let (d', done, same) =
        enqueue-Same (as_succeeded a ref) business event_type_payment_succeeded marked works fresh
          row in
      (d', rw (works w.tick, done) refl, same)

  -- The row of `a` once it has succeeded, at `now`.
  abbrev pub paid_rows : String → ℕ → Db → List PaymentAttempt
  paid_rows ref now d =
      update (PaymentAttempts.is_pending_id a.id)
        (PaymentAttempts.set_status PaymentAttemptStatus.succeeded (some ref) none now)
        d.payment_attempts

  pub success_body-Same :
      (ref : String) (invoice : Invoice) (w : World)
      → ((n : ℕ) → w.env.outcome n ≡ Outcome.works)
      → ((n : ℕ) → find (OutboundEvents.has_id (w.env.uuid n)) w.db.outbound_events ≡ none)
      → find (Businesses.has_id a.business_id) w.db.businesses ≡ some business
      → find (Invoices.has_id a.invoice_id) w.db.invoices ≡ some invoice
      → find (PaymentAttempts.has_id a.id) w.db.payment_attempts ≡ some a
      → is_pending a.status ≡ true
      → (now n : ℕ) × (d' : Db) × (success_body a ref w
          ≡ (ok (as_succeeded a ref), record w { db = d'; tick = n }))
        × (d'.payment_attempts ≡ paid_rows ref now w.db)
        × (d'.webhook_events ≡ w.db.webhook_events)
  unfolding success_body Invoices.get_by_id_for_update Invoices.select_query
      PaymentAttempts.update_status_if_pending PaymentAttempts.update_if_pending_query
      settle_updated or_no_rows
  success_body-Same ref invoice w works fresh owner bill row waits =
      let now = w.env.clock (suc w.tick) in
      let updated = record w {
        db = record w.db { payment_attempts = paid_rows ref now w.db };
        tick = suc (suc w.tick);
      } in
      let hit = pending-count a w.db row waits in
      let (d', done, (attempts, events)) = settle_paid-Same ref updated works fresh owner in
      let locked =
        statement_works (Invoices.select_query a.invoice_id) w {r = ok invoice} {d = w.db}
          (works w.tick) (rw bill refl) in
      let changed =
        statement_works
          (PaymentAttempts.update_if_pending_query a.id PaymentAttemptStatus.succeeded (some ref)
            none)
          (record w { tick = suc w.tick }) {r = ok true}
          {d = record w.db { payment_attempts = paid_rows ref now w.db }} (works (suc w.tick))
          (rw hit refl) in
      (
        now,
        _,
        d',
        bind-eq (Invoices.get_by_id_for_update a.invoice_id) _ w locked
            ∙ bind-eq
                (PaymentAttempts.update_status_if_pending a.id PaymentAttemptStatus.succeeded
                  (some ref) none)
                (settle_updated a ref) (record w { tick = suc w.tick }) changed
            ∙ done,
        attempts,
        events,
      )
