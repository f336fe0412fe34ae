-- ===== src/Tests/Payments.antt =====
-- The payment service on concrete data.
use dodo_payment_gateway.Base.{
  ◌⊎◌, ◌+◌, ◌≤◌, ◌≡◌, ◌↔◌, refl, true, some, [], ◌∷◌, count, find, update, arith,
}
use dodo_payment_gateway.Base.Decimal.{decimal_ℤ, parse_int}
use dodo_payment_gateway.Errors.{ok, err, idempotency_conflict}
use dodo_payment_gateway.Store.{
  Env, Outcome, HttpReply, DeliveryReply, ChargeRequest, ChargeResponse, PspWebhookPayload, Db,
  World, ◌>>=◌,
}
use dodo_payment_gateway.Repository.PaymentAttempts
use dodo_payment_gateway.Repository.OutboundEvents
use dodo_payment_gateway.Repository.Invoices
use dodo_payment_gateway.Repository.IdempotencyKeys
use dodo_payment_gateway.Store
use dodo_payment_gateway.Payment.Guards
use dodo_payment_gateway.Payment.Create
use dodo_payment_gateway.Payment.Create.{create_pending_attempt}
use dodo_payment_gateway.Payment.Creation.{Created, create_pending_attempt-Created}
use dodo_payment_gateway.Payment.Settle.{persist_success, persist_failure}
use dodo_payment_gateway.Repository.WebhookEvents
use dodo_payment_gateway.Payment.Reads.{get_payment_attempt-ok_iff}
use dodo_payment_gateway.Payment.PspWebhook.{apply_and_mark, apply_webhook, process_psp_webhook}
use dodo_payment_gateway.Payment.History.{Evolves}
use dodo_payment_gateway.Payment.Charges.{SendsOne, pay_invoice-SendsOne}
use dodo_payment_gateway.Payment.Safety.Replay.{pay_invoice-replays, conflict-pay_invoice}
use dodo_payment_gateway.Payment.Outbox.{IsSettled, persist_success-IsSettled}
use dodo_payment_gateway.Payment.LostEvent.{persist_failure_loses_event}
use dodo_payment_gateway.Payment.Webhooks.{lost-apply_and_mark}
use dodo_payment_gateway.Payment.Webhooks.Accepted.{Judged, process_psp_webhook-Judged}
use dodo_payment_gateway.Payment.Webhooks.Repeated.{process_psp_webhook-once}
use dodo_payment_gateway.Webhook.Signature.{verify, sign}
use dodo_payment_gateway.Payment.Pay.{get_payment_attempt, pay_invoice}
use dodo_payment_gateway.Payment.Invariant.{Inv, is_succeeded_of, is_closed}
use dodo_payment_gateway.Payment.Steps.{Steps, starts}
use dodo_payment_gateway.Payment.Steps.Service.{pay_invoice-Steps, pay_and_receive-Steps}
use dodo_payment_gateway.Payment.Safety.{Steps-Evolves, settlement_sound}
use dodo_payment_gateway.Tests.{
  event_body, before, paid_once, attempt, settled_attempt, key, processed, under_way, settled,
  failing, losing,
}

before-Inv : Inv before.db
unfolding count
before-Inv = record {
  ids = λ id. omega arith;
  one_live = λ i. omega arith;
  closed = λ i h. ground arith;
  one_event = λ t s. omega arith;
}

settlement_sound_example :
    (count (is_succeeded_of "i") paid_once.db.payment_attempts
        + count (PaymentAttempts.is_pending_of "i") paid_once.db.payment_attempts
      ≤ 1)
    × ((count (is_succeeded_of "i") paid_once.db.payment_attempts ≡ 0)
        ⊎ (is_closed "i" paid_once.db.invoices ≡ true))
    × (count
          (OutboundEvents.has_source "payment.succeeded" "a:payment.succeeded")
          paid_once.db.outbound_events
        ≤ 1)
settlement_sound_example =
    settlement_sound before paid_once "i" "payment.succeeded" "a:payment.succeeded" before-Inv
      (pay_invoice-Steps "b" "i" "key-1" "card" before)

Steps-Evolves_example : Evolves before.db paid_once.db
Steps-Evolves_example =
    Steps-Evolves before paid_once (pay_invoice-Steps "b" "i" "key-1" "card" before)

pay_and_receive-Steps_example :
    Steps before paid_once
    × Steps before (process_psp_webhook "secret" "{}" "event-1" "0" "v1=x" before).1
    × ((process_psp_webhook "secret" "{}" "event-1" "0" "v1=x" before).1.charges ≡ [])
pay_and_receive-Steps_example =
    pay_and_receive-Steps "b" "i" "key-1" "card" "secret" "{}" "event-1" "0" "v1=x" before

pay_invoice-SendsOne_example : SendsOne [] paid_once
pay_invoice-SendsOne_example = pay_invoice-SendsOne "b" "i" "key-1" "card" before

pay_invoice-replays_example :
    pay_invoice "b" "i" "key-1" "card" settled ≡ (ok settled_attempt, record settled { tick = 2 })
unfolding find
pay_invoice-replays_example =
    pay_invoice-replays "b" "i" "key-1" "card" key settled_attempt settled settled refl refl refl
      refl refl refl (starts settled) refl refl

conflict-pay_invoice_example :
    pay_invoice "b" "i" "key-1" "other card" settled
    ≡ (err idempotency_conflict, record settled { tick = 1 })
unfolding find
conflict-pay_invoice_example =
    conflict-pay_invoice "b" "i" "key-1" "other card" key settled refl refl refl

persist_success-IsSettled_example :
    IsSettled attempt under_way.db (persist_success attempt "psp-1" under_way).1.db
unfolding find
persist_success-IsSettled_example =
    persist_success-IsSettled attempt "psp-1" under_way (refl, refl, refl, refl)

persist_failure_loses_event_example :
    let u = (persist_failure attempt "card_declined" failing).1 in
    (count (PaymentAttempts.is_pending_id "a") u.db.payment_attempts ≡ 0)
    × (u.db.outbound_events ≡ [])
    × ((persist_failure attempt "card_declined" u).1.db.outbound_events ≡ [])
persist_failure_loses_event_example =
    persist_failure_loses_event attempt "card_declined" "card_declined" failing refl refl

process_psp_webhook-Judged_example : Judged "secret" "{}" "event-1" "0" "v1=event-1.0.{}" before
process_psp_webhook-Judged_example =
    process_psp_webhook-Judged "secret" "{}" "event-1" "0" "v1=event-1.0.{}" before

-- A webhook about an attempt that is not known.
abbrev received : World
received = record before {
  db = record before.db { webhook_events = record processed { id = "a" } ∷ [] };
  tick = 6;
}

received-ok :
    process_psp_webhook "secret" "{}" "event-1" "0" "v1=event-1.0.{}" before ≡ (ok tt, received)
unfolding ◌>>=◌ find update Store.statement Store.or_no_rows Store.new_uuid Guards.raise_if
    Guards.raise_some Store.time_now Store.asks Store.pure Store.try verify sign parse_int decimal_ℤ
    process_psp_webhook apply_webhook WebhookEvents.create WebhookEvents.insert_query
    WebhookEvents.mark_processed WebhookEvents.mark_processed_query PaymentAttempts.get_by_id
    PaymentAttempts.select_query
received-ok = refl

process_psp_webhook-once_example :
    process_psp_webhook "secret" "{}" "event-1" "0" "v1=event-1.0.{}" received
    ≡ (ok tt, record received { tick = 10 })
unfolding verify sign parse_int decimal_ℤ
process_psp_webhook-once_example =
    process_psp_webhook-once "secret" "{}" "event-1" "0" "v1=event-1.0.{}" "event-1" "0"
      "v1=event-1.0.{}" before received received received-ok refl refl refl refl refl

created_attempt-ok :
    create_pending_attempt "b" "i" "key-1" "h" before
    ≡ (ok attempt, (create_pending_attempt "b" "i" "key-1" "h" before).1)
unfolding ◌>>=◌ find count update Store.statement Store.or_no_rows Store.new_uuid Store.transaction
    Guards.raise_if Guards.raise_some Guards.payable_invoice Guards.return_or create_pending_attempt
    Create.create_body Create.insert_pending Create.none_pending Create.open_draft
    IdempotencyKeys.create IdempotencyKeys.insert_query IdempotencyKeys.is_insertable
    IdempotencyKeys.is_duplicate Invoices.get_by_id_for_update Invoices.select_query
    PaymentAttempts.create PaymentAttempts.insert_query PaymentAttempts.is_insertable
    PaymentAttempts.is_duplicate PaymentAttempts.get_pending_by_invoice_id
    PaymentAttempts.select_pending_query
created_attempt-ok = refl

create_pending_attempt-Created_example :
    Created "b" "i" "key-1" "h" before.db
      (create_pending_attempt "b" "i" "key-1" "h" before).1.db
      attempt
create_pending_attempt-Created_example =
    create_pending_attempt-Created "b" "i" "key-1" "h" before created_attempt-ok

lost-apply_and_mark_example : apply_and_mark event_body "e" losing ≡ (
  ok tt,
  record losing { db = (WebhookEvents.mark_processed_query "e" 0 0 losing.db).1; tick = 3 },
)
lost-apply_and_mark_example = lost-apply_and_mark event_body "e" losing refl refl refl

get_payment_attempt-ok_iff_example :
    (get_payment_attempt "b" "a" settled ≡ (ok settled_attempt, record settled { tick = 1 })) ↔ (
      (find (PaymentAttempts.has_id "a") settled.db.payment_attempts ≡ some settled_attempt)
      × (settled_attempt.business_id ≡ "b"))
get_payment_attempt-ok_iff_example = get_payment_attempt-ok_iff "b" "a" settled_attempt settled refl
