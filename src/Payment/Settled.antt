-- ===== src/Payment/Settled.antt =====
-- What a webhook of a success leaves while the database works: ProcessPSPWebhook and persistSuccess of
-- internal/service/payment_service.go.
pub mod Received
use Prim.Native.String.{◌++◌}
use dodo_payment_gateway.Base.{
  ℕ, suc, ◌≡◌, ◌≢◌, refl, sym, ap, ◌∙◌, subst, inl, inr, String, true, false, Option, none, some,
  List, insert, ◌+◌, find, is_some, update, count, ltb, ◌==◌, arith, Bool-cases, eq_refl,
  find-update, List, insert, ◌+◌, update, count-pos_of_find, find_fewer,
}
use dodo_payment_gateway.Model.{
  Invoice, PaymentAttempt, PaymentAttemptStatus, Business, WebhookEvent, WebhookEventStatus,
  OutboundEvent, event_type_payment_succeeded, is_pending,
}
use dodo_payment_gateway.Errors.{Result, ok}
use dodo_payment_gateway.Store.{
  Db, World, Outcome, PspWebhookPayload, ◌>>=◌, pure, try, asks, statement, or_no_rows, time_now,
  new_uuid, transaction,
}
use dodo_payment_gateway.Store.Laws.{bind-eq, statement_works, transaction_works}
use dodo_payment_gateway.Repository.Invoices
use dodo_payment_gateway.Repository.Businesses
use dodo_payment_gateway.Repository.PaymentAttempts
use dodo_payment_gateway.Repository.OutboundEvents
use dodo_payment_gateway.Repository.WebhookEvents
use dodo_payment_gateway.Payment.Invariant.{Knows, IsSameAttempt, is_closed}
use dodo_payment_gateway.Payment.Outbox.{is_announced, IsSettled, persist_success-IsSettled}
use dodo_payment_gateway.Payment.Settle.{
  outbound_event, enqueue_outbound_event, as_succeeded, settle_paid, settle_updated, success_body,
  persist_success,
}
use dodo_payment_gateway.Payment.Succeeds.{success_body-Same}

-- The attempt has its payment recorded: it is SUCCEEDED with the processor's reference, its event is in
-- the outbox, and its invoice is no longer DRAFT or OPEN.
pub record Paid (a : PaymentAttempt) (ref : String) (d : Db) : Type 0 where
  pub now : ℕ
  pub row :
      find (PaymentAttempts.has_id a.id) d.payment_attempts
      ≡ some (PaymentAttempts.set_status PaymentAttemptStatus.succeeded (some ref) none now a)
  pub announced : is_announced a.id event_type_payment_succeeded d ≡ true
  pub closed : is_closed a.invoice_id d.invoices ≡ true

-- The world of a success: its statements work, uuids are new, and the rows are there.
pub record Waiting (a : PaymentAttempt) (w : World) : Type 0 where
  pub works : (n : ℕ) → w.env.outcome n ≡ Outcome.works
  pub fresh : (n : ℕ) → find (OutboundEvents.has_id (w.env.uuid n)) w.db.outbound_events ≡ none
  pub business : Business
  pub owner : find (Businesses.has_id a.business_id) w.db.businesses ≡ some business
  pub invoice : Invoice
  pub bill : find (Invoices.has_id a.invoice_id) w.db.invoices ≡ some invoice
  pub row : find (PaymentAttempts.has_id a.id) w.db.payment_attempts ≡ some a
  pub waits : is_pending a.status ≡ true

-- Time and the events of the processor do not touch them.
pub Waiting-later :
    (a : PaymentAttempt) (w : World) (events : List WebhookEvent) (n : ℕ)
    → Waiting a w
    → Waiting a (record w { db = record w.db { webhook_events = events }; tick = n })
Waiting-later a w events n s = record {
  works = s.works;
  fresh = s.fresh;
  business = s.business;
  owner = s.owner;
  invoice = s.invoice;
  bill = s.bill;
  row = s.row;
  waits = s.waits;
}

paid-row :
    (a : PaymentAttempt) (ref : String) (now : ℕ) (d : Db)
    → find (PaymentAttempts.has_id a.id) d.payment_attempts ≡ some a
    → is_pending a.status ≡ true
    → find (PaymentAttempts.has_id a.id) (
        update
          (PaymentAttempts.is_pending_id a.id)
          (PaymentAttempts.set_status PaymentAttemptStatus.succeeded (some ref) none now)
          d.payment_attempts)
      ≡ some (PaymentAttempts.set_status PaymentAttemptStatus.succeeded (some ref) none now a)
paid-row a ref now d row waits =
    find-update (PaymentAttempts.has_id a.id) (PaymentAttempts.is_pending_id a.id) _
      d.payment_attempts (λ x. refl)
    ∙ rw (row, waits, eq_refl a.id) refl

Knows-row :
    (a : PaymentAttempt) (d : Db)
    → find (PaymentAttempts.has_id a.id) d.payment_attempts ≡ some a
    → Knows a d
Knows-row a d row = subst (IsSameAttempt a) (sym row) (refl, refl, refl, refl)

-- A success that has changed the attempt has not been rolled back.
settled_changed :
    (a : PaymentAttempt) (ref : String) (now : ℕ) (d d' : Db)
    → find (PaymentAttempts.has_id a.id) d.payment_attempts ≡ some a
    → is_pending a.status ≡ true
    → find (PaymentAttempts.has_id a.id) d'.payment_attempts
      ≡ some (PaymentAttempts.set_status PaymentAttemptStatus.succeeded (some ref) none now a)
    → IsSettled a d d'
    → (is_announced a.id event_type_payment_succeeded d' ≡ true)
      × (is_closed a.invoice_id d'.invoices ≡ true)
settled_changed a ref now d d' row waits new (inl same) =
    let both =
      sym row
      ∙ ap (λ (x : Db). find (PaymentAttempts.has_id a.id) x.payment_attempts) (sym same)
      ∙ new in
    let before =
      ap (λ (o : Option PaymentAttempt). elim o [ none ↦ false | some x ↦ is_pending x.status ])
        both in
    absurd (ground (arith, before, waits))
settled_changed a ref now d d' row waits new (inr done) = done

pub persist_success-Paid :
    (a : PaymentAttempt) (ref : String) (w : World)
    → Waiting a w
    → (n : ℕ) × (d' : Db) × (persist_success a ref w
        ≡ (ok (as_succeeded a ref), record w { db = d'; tick = n }))
      × Paid a ref d'
      × (d'.webhook_events ≡ w.db.webhook_events)
unfolding persist_success
persist_success-Paid a ref w s =
    let (now, n, d', done, attempts, events) =
      success_body-Same a s.business ref s.invoice (record w { tick = suc w.tick }) s.works s.fresh
        s.owner s.bill s.row s.waits in
    let result = transaction_works (success_body a ref) w (s.works w.tick) (s.works n) done in
    let row =
      ap (find (PaymentAttempts.has_id a.id)) attempts ∙ paid-row a ref now w.db s.row s.waits in
    let settled =
      subst (IsSettled a w.db) (ap (λ (x : Result PaymentAttempt × World). x.1.db) result)
        (persist_success-IsSettled a ref w (Knows-row a w.db s.row)) in
    let (announced, closed) = settled_changed a ref now w.db d' s.row s.waits row settled in
    (
      suc n,
      d',
      result,
      record { now = now; row = row; announced = announced; closed = closed },
      events,
    )
