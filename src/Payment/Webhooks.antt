-- ===== src/Payment/Webhooks.antt =====
-- Webhooks of the card processor that apply nothing: ProcessPSPWebhook of
-- internal/service/payment_service.go.
pub mod Accepted
pub mod Done
pub mod Repeated
use dodo_payment_gateway.Base.{suc, ◌≡◌, refl, String, true, false, none, some, ◌==◌, find, arith}
use dodo_payment_gateway.Model.{WebhookEvent, is_processed}
use dodo_payment_gateway.Errors.{Error, ok, err, unique_violation}
use dodo_payment_gateway.Store.{
  World, Outcome, ◌>>=◌, raise, asks, statement, or_no_rows, time_now, new_uuid, PspWebhookPayload,
}
use dodo_payment_gateway.Repository.WebhookEvents
use dodo_payment_gateway.Repository.PaymentAttempts
use dodo_payment_gateway.Payment.Guards.{raise_some, raise_if}
use dodo_payment_gateway.Payment.PspWebhook.{
  apply_webhook, settle_known, apply_and_mark, mark_applied, process_psp_webhook, process_body,
  apply_recorded, apply_existing, new_event, or_invalid,
}
use dodo_payment_gateway.Webhook.Signature.{verify}

is_duplicate :
    (e event : WebhookEvent) (w : World)
    → find (WebhookEvents.has_event_id e.event_id) w.db.webhook_events ≡ some event
    → w.env.outcome w.tick ≡ Outcome.works
    → WebhookEvents.create e w ≡ (err unique_violation, record w { tick = suc w.tick })
unfolding WebhookEvents.create WebhookEvents.insert_query statement
is_duplicate e event w row o = ground arith

finds_event :
    (id : String) (event : WebhookEvent) (w : World)
    → find (WebhookEvents.has_event_id id) w.db.webhook_events ≡ some event
    → w.env.outcome w.tick ≡ Outcome.works
    → WebhookEvents.get_by_event_id id w ≡ (ok event, record w { tick = suc w.tick })
unfolding WebhookEvents.get_by_event_id WebhookEvents.select_query statement or_no_rows
finds_event id event w row o = rw (o, row) refl

-- The body of a webhook whose event has been processed before.
repeated_body :
    (body : PspWebhookPayload) (payload : String) (event : WebhookEvent) (w : World)
    → (body.event_id == "") ≡ false
    → (body.event_type == "") ≡ false
    → find (WebhookEvents.has_event_id body.event_id) w.db.webhook_events ≡ some event
    → is_processed event.status ≡ true
    → w.env.outcome (suc w.tick) ≡ Outcome.works
    → w.env.outcome (suc (suc w.tick)) ≡ Outcome.works
    → process_body body payload w ≡ (ok tt, record w { tick = suc (suc (suc w.tick)) })
unfolding process_body raise_if new_uuid apply_recorded apply_existing ◌>>=◌
repeated_body body payload event w named typed row done o o' =
    rw
      (
        named,
        typed,
        is_duplicate (new_event body payload (w.env.uuid w.tick)) event
            (record w { tick = suc w.tick }) row o,
        finds_event body.event_id event (record w { tick = suc (suc w.tick) }) row o',
        done,
      )
      refl

-- A verified webhook that names a PROCESSED event.
pub repeated-process_psp_webhook :
    (secret payload event_id timestamp signature : String) (w : World) (body : PspWebhookPayload)
    (event : WebhookEvent)
    → verify w.env secret event_id timestamp signature payload (w.env.clock w.tick) ≡ none
    → w.env.decode_webhook payload ≡ some body
    → (body.event_id == "") ≡ false
    → (body.event_type == "") ≡ false
    → find (WebhookEvents.has_event_id body.event_id) w.db.webhook_events ≡ some event
    → is_processed event.status ≡ true
    → w.env.outcome (suc (suc w.tick)) ≡ Outcome.works
    → w.env.outcome (suc (suc (suc w.tick))) ≡ Outcome.works
    → process_psp_webhook secret payload event_id timestamp signature w
      ≡ (ok tt, record w { tick = suc (suc (suc (suc w.tick))) })
unfolding process_psp_webhook raise_some time_now ◌>>=◌ asks or_invalid
repeated-process_psp_webhook secret payload event_id timestamp signature w body event verified
      decoded named typed row done o o' =
    rw (verified, decoded)
      (repeated_body body payload event (record w { tick = suc w.tick }) named typed row done o o')

-- When the look-up of the attempt fails, for whatever reason, a webhook counts as applied: nothing is
-- changed and no error is returned.
lost-apply_webhook :
    (body : PspWebhookPayload) (w : World)
    → (body.idempotency_key == "") ≡ false
    → w.env.outcome w.tick ≡ Outcome.fails
    → apply_webhook body w ≡ (ok tt, record w { tick = suc w.tick })
unfolding apply_webhook PaymentAttempts.get_by_id statement settle_known ◌>>=◌
lost-apply_webhook body w named o = rw (named, o) refl

-- What a webhook says is lost when the look-up of its attempt fails in the database: applying it
-- returns no error, its event is marked PROCESSED, and nothing else is changed or sent.
pub lost-apply_and_mark :
    (body : PspWebhookPayload) (id : String) (w : World)
    → (body.idempotency_key == "") ≡ false
    → w.env.outcome w.tick ≡ Outcome.fails
    → w.env.outcome (suc (suc w.tick)) ≡ Outcome.works
    → apply_and_mark body id w ≡ (
      ok tt,
      record w {
        db = (WebhookEvents.mark_processed_query id (w.env.clock (suc w.tick)) 0 w.db).1;
        tick = suc (suc (suc w.tick));
      },
    )
unfolding apply_and_mark mark_applied WebhookEvents.mark_processed
    WebhookEvents.mark_processed_query statement time_now ◌>>=◌
lost-apply_and_mark body id w named o o' = rw (lost-apply_webhook body w named o, o') refl
