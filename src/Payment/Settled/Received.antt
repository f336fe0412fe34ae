-- ===== src/Payment/Settled/Received.antt =====
-- A webhook that says that a charge has succeeded, while the database works: ProcessPSPWebhook of
-- internal/service/payment_service.go.
use dodo_payment_gateway.Base.{
  ℕ, suc, ◌≡◌, refl, ap, ◌∙◌, String, true, false, none, some, insert, find, ◌==◌, eq_refl,
  find-update, find-insert-none,
}
use dodo_payment_gateway.Model.{PaymentAttempt, WebhookEvent, WebhookEventStatus, is_processed}
use dodo_payment_gateway.Errors.{ok}
use dodo_payment_gateway.Store.{
  Db, World, Outcome, PspWebhookPayload, ◌>>=◌, pure, try, asks, statement, or_no_rows, time_now,
  new_uuid,
}
use dodo_payment_gateway.Store.Laws.{bind-eq, bind-try, statement_works}
use dodo_payment_gateway.Repository.PaymentAttempts
use dodo_payment_gateway.Repository.WebhookEvents
use dodo_payment_gateway.Payment.Guards.{raise_some, raise_if}
use dodo_payment_gateway.Payment.Settle.{persist_success}
use dodo_payment_gateway.Payment.PspWebhook.{
  says_succeeded, settle_webhook, settle_known, apply_webhook, apply_and_mark, mark_applied,
  process_psp_webhook, process_body, apply_recorded, new_event, or_invalid,
}
use dodo_payment_gateway.Payment.Settled.{Paid, Waiting, Waiting-later, persist_success-Paid}
use dodo_payment_gateway.Webhook.Signature.{verify}

settle_webhook-paid :
    (body : PspWebhookPayload) (a r : PaymentAttempt) (w : World) {u : World}
    → says_succeeded body ≡ true
    → persist_success a body.psp_ref w ≡ (ok r, u)
    → settle_webhook body a w ≡ (ok tt, u)
unfolding settle_webhook pure
settle_webhook-paid body a r w says done =
    rw says (bind-eq (persist_success a body.psp_ref) (λ _. pure tt) w done)

apply_webhook-reads :
    (body : PspWebhookPayload) (a : PaymentAttempt) (w : World) {u : World}
    → body.idempotency_key ≡ a.id
    → (a.id == "") ≡ false
    → find (PaymentAttempts.has_id a.id) w.db.payment_attempts ≡ some a
    → w.env.outcome w.tick ≡ Outcome.works
    → settle_webhook body a (record w { tick = suc w.tick }) ≡ (ok tt, u)
    → apply_webhook body w ≡ (ok tt, u)
unfolding apply_webhook settle_known PaymentAttempts.get_by_id PaymentAttempts.select_query
    or_no_rows
apply_webhook-reads body a w same named row works done =
    rw (same, named)
      (bind-try (PaymentAttempts.get_by_id a.id) (settle_known body) w (
          statement_works (PaymentAttempts.select_query a.id) w {r = ok a} {d = w.db} works
            (rw row refl))
        ∙ done)

apply_webhook-Paid :
    (body : PspWebhookPayload) (a : PaymentAttempt) (w : World)
    → Waiting a w
    → body.idempotency_key ≡ a.id
    → (a.id == "") ≡ false
    → says_succeeded body ≡ true
    → (n : ℕ) × (d' : Db) × (apply_webhook body w ≡ (ok tt, record w { db = d'; tick = n }))
      × Paid a body.psp_ref d'
      × (d'.webhook_events ≡ w.db.webhook_events)
apply_webhook-Paid body a w s same named says =
    let (n, d', done, paid, events) =
      persist_success-Paid a body.psp_ref (record w { tick = suc w.tick })
        (Waiting-later a w w.db.webhook_events (suc w.tick) s) in
    (
      n,
      d',
      apply_webhook-reads body a w same named s.row (s.works w.tick)
          (settle_webhook-paid body a _ (record w { tick = suc w.tick }) says done),
      paid,
      events,
    )

mark_processed_works :
    (id : String) (w : World)
    → w.env.outcome (suc w.tick) ≡ Outcome.works
    → (n : ℕ) × (WebhookEvents.mark_processed id w ≡ (
      ok tt,
      record w {
        db = (WebhookEvents.mark_processed_query id (w.env.clock w.tick) 0 w.db).1;
        tick = n;
      },
    ))
unfolding WebhookEvents.mark_processed WebhookEvents.mark_processed_query statement time_now ◌>>=◌
mark_processed_works id w works = (suc (suc w.tick), rw works refl)

-- What a webhook leaves that is applied: the payment, and its event as PROCESSED.
pub record Applied (body : PspWebhookPayload) (a : PaymentAttempt) (d : Db) : Type 0 where
  pub paid : Paid a body.psp_ref d
  pub event : WebhookEvent
  pub found : find (WebhookEvents.has_event_id body.event_id) d.webhook_events ≡ some event
  pub processed : is_processed event.status ≡ true

-- The event that has been recorded under `id` is found as PROCESSED.
marked-event :
    (body : PspWebhookPayload) (id : String) (e : WebhookEvent) (at n : ℕ) (a : PaymentAttempt)
    (d : Db)
    → Paid a body.psp_ref d
    → find (WebhookEvents.has_event_id body.event_id) d.webhook_events ≡ some e
    → e.id ≡ id
    → Applied body a (WebhookEvents.mark_processed_query id at n d).1
unfolding WebhookEvents.mark_processed_query
marked-event body id e at n a d paid row same = record {
  paid = record {
    now = paid.now;
    row = paid.row;
    announced = paid.announced;
    closed = paid.closed;
  };
  event = record e { status = WebhookEventStatus.processed; processed_at = some at };
  found =
      find-update (WebhookEvents.has_event_id body.event_id) (WebhookEvents.has_id id) _
        d.webhook_events (λ x. refl)
      ∙ rw row (rw (ap (λ i. i == id) same ∙ eq_refl id) refl);
  processed = refl;
}

apply_and_mark-Applied :
    (body : PspWebhookPayload) (id : String) (e : WebhookEvent) (a : PaymentAttempt) (w : World)
    → Waiting a w
    → body.idempotency_key ≡ a.id
    → (a.id == "") ≡ false
    → says_succeeded body ≡ true
    → find (WebhookEvents.has_event_id body.event_id) w.db.webhook_events ≡ some e
    → e.id ≡ id
    → (n : ℕ) × (d' : Db) × (apply_and_mark body id w ≡ (ok tt, record w { db = d'; tick = n }))
      × Applied body a d'
unfolding apply_and_mark mark_applied
apply_and_mark-Applied body id e a w s same named says row own =
    let (n, d', done, paid, events) = apply_webhook-Paid body a w s same named says in
    let applied = record w { db = d'; tick = n } in
    let (m, marked) = mark_processed_works id applied (s.works (suc n)) in
    (
      m,
      (WebhookEvents.mark_processed_query id (w.env.clock n) 0 d').1,
      bind-try (apply_webhook body) (mark_applied id) w done ∙ marked,
      marked-event body id e (w.env.clock n) 0 a d' paid
          (ap (find (WebhookEvents.has_event_id body.event_id)) events ∙ row) own,
    )

create-works :
    (e : WebhookEvent) (w : World)
    → w.env.outcome w.tick ≡ Outcome.works
    → find (WebhookEvents.has_event_id e.event_id) w.db.webhook_events ≡ none
    → find (WebhookEvents.has_id e.id) w.db.webhook_events ≡ none
    → let row = record e { created_at = w.env.clock w.tick } in
      WebhookEvents.create e w ≡ (
        ok row,
        record w {
          db = record w.db { webhook_events = insert row w.db.webhook_events };
          tick = suc w.tick;
        },
      )
unfolding WebhookEvents.create WebhookEvents.insert_query statement
create-works e w works new free = rw (works, new, free) refl

-- The first time that an event comes in.
process_body-Applied :
    (body : PspWebhookPayload) (payload : String) (a : PaymentAttempt) (w : World)
    → Waiting a w
    → body.idempotency_key ≡ a.id
    → (a.id == "") ≡ false
    → says_succeeded body ≡ true
    → (body.event_id == "") ≡ false
    → (body.event_type == "") ≡ false
    → find (WebhookEvents.has_event_id body.event_id) w.db.webhook_events ≡ none
    → find (WebhookEvents.has_id (w.env.uuid w.tick)) w.db.webhook_events ≡ none
    → (n : ℕ) × (d' : Db) × (process_body body payload w ≡ (ok tt, record w { db = d'; tick = n }))
      × Applied body a d'
unfolding process_body raise_if new_uuid apply_recorded try pure ◌>>=◌
process_body-Applied body payload a w s same named says named_event typed new free =
    let id = w.env.uuid w.tick in
    let e = record (new_event body payload id) { created_at = w.env.clock (suc w.tick) } in
    let d = record w.db { webhook_events = insert e w.db.webhook_events } in
    let (n, d', done, applied) =
      apply_and_mark-Applied body id e a (record w { db = d; tick = suc (suc w.tick) })
        (Waiting-later a w (insert e w.db.webhook_events) (suc (suc w.tick)) s) same named says
        (find-insert-none (WebhookEvents.has_event_id body.event_id) e w.db.webhook_events new
          ∙ rw (eq_refl body.event_id) refl)
        refl in
    (
      n,
      d',
      rw
          (
            named_event,
            typed,
            create-works (new_event body payload id) (record w { tick = suc w.tick })
                (s.works (suc w.tick)) new free,
            done,
          )
          refl,
      applied,
    )

-- The same with the two checks before it: a verified webhook that decodes to `body`.
pub process_psp_webhook-Applied :
    (secret text event_id timestamp signature : String) (w : World) (body : PspWebhookPayload)
    (a : PaymentAttempt)
    → Waiting a w
    → verify w.env secret event_id timestamp signature text (w.env.clock w.tick) ≡ none
    → w.env.decode_webhook text ≡ some body
    → body.idempotency_key ≡ a.id
    → (a.id == "") ≡ false
    → says_succeeded body ≡ true
    → (body.event_id == "") ≡ false
    → (body.event_type == "") ≡ false
    → find (WebhookEvents.has_event_id body.event_id) w.db.webhook_events ≡ none
    → find (WebhookEvents.has_id (w.env.uuid (suc w.tick))) w.db.webhook_events ≡ none
    → (n : ℕ) × (d' : Db) × (process_psp_webhook secret text event_id timestamp signature w
        ≡ (ok tt, record w { db = d'; tick = n }))
      × Applied body a d'
unfolding process_psp_webhook raise_some time_now asks or_invalid ◌>>=◌
process_psp_webhook-Applied secret text event_id timestamp signature w body a s verified decoded
      same named says named_event typed new free =
    let (n, d', done, applied) =
      process_body-Applied body text a (record w { tick = suc w.tick })
        (Waiting-later a w w.db.webhook_events (suc w.tick) s) same named says named_event typed new
        free in
    (n, d', rw (verified, decoded) done, applied)
