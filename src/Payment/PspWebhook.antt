-- ===== src/Payment/PspWebhook.antt =====
-- internal/service/payment_service.go: ProcessPSPWebhook and applyWebhook.
use dodo_payment_gateway.Base.{String, Bool, ◌||◌, Option, none, some, ◌==◌, if◌then◌else◌}
use dodo_payment_gateway.Model.{is_processed, PaymentAttempt, WebhookEvent, WebhookEventStatus}
use dodo_payment_gateway.Errors.{
  Result, ok, err, is_unique_violation, invalid_request_body, event_id_required,
  event_type_required,
}
use dodo_payment_gateway.Store.{
  M, ◌>>=◌, ◌>>◌, pure, raise, try, new_uuid, time_now, asks, PspWebhookPayload,
}
use dodo_payment_gateway.Repository.PaymentAttempts
use dodo_payment_gateway.Repository.WebhookEvents
use dodo_payment_gateway.Payment.Guards.{raise_some, raise_if}
use dodo_payment_gateway.Payment.Settle.{persist_success, persist_failure, code_or_declined}
use dodo_payment_gateway.Webhook.Signature.{verify}

abbrev pub says_succeeded : PspWebhookPayload → Bool
says_succeeded body = body.event_type == "charge.succeeded" || body.status == "succeeded"

abbrev pub says_failed : PspWebhookPayload → Bool
says_failed body = body.event_type == "charge.failed" || body.status == "failed"

unfoldable pub settle_webhook : PspWebhookPayload → PaymentAttempt → M (Unit {0})
settle_webhook body attempt =
    if says_succeeded body
    then (do persist_success attempt body.psp_ref; pure tt)
    else if says_failed body
    then (do persist_failure attempt (code_or_declined body.code); pure tt)
    else pure tt

-- Any error of the look-up counts as an attempt that is not known.
unfoldable pub settle_known : PspWebhookPayload → Result PaymentAttempt → M (Unit {0})
unfolding settle_webhook
settle_known body (ok attempt) = settle_webhook body attempt
settle_known body (err e) = pure tt

unfoldable pub apply_webhook : PspWebhookPayload → M (Unit {0})
unfolding settle_known
apply_webhook body =
    if body.idempotency_key == ""
    then pure tt
    else (do read ← try (PaymentAttempts.get_by_id body.idempotency_key); settle_known body read)

-- `event.ID` is marked by the outcome of the application.
unfoldable pub mark_applied : String → Result (Unit {0}) → M (Unit {0})
mark_applied id (ok _) = WebhookEvents.mark_processed id
mark_applied id (err e) = do try (WebhookEvents.mark_failed id); raise e

unfoldable pub apply_and_mark : PspWebhookPayload → String → M (Unit {0})
unfolding mark_applied
apply_and_mark body id = do applied ← try (apply_webhook body); mark_applied id applied

unfoldable pub apply_existing : PspWebhookPayload → WebhookEvent → M (Unit {0})
unfolding apply_and_mark
apply_existing body existing =
    if is_processed existing.status then pure tt else apply_and_mark body existing.id

unfoldable pub apply_recorded : PspWebhookPayload → String → Result WebhookEvent → M (Unit {0})
unfolding apply_existing
apply_recorded body id (ok event) = apply_and_mark body id
apply_recorded body id (err e) =
    if is_unique_violation e
    then (do existing ← WebhookEvents.get_by_event_id body.event_id; apply_existing body existing)
    else raise e

abbrev pub new_event : PspWebhookPayload → String → String → WebhookEvent
new_event body payload id = record {
  id = id;
  event_id = body.event_id;
  event_type = body.event_type;
  payload = payload;
  status = WebhookEventStatus.pending;
  created_at = 0;
  processed_at = none;
}

unfoldable pub process_body : PspWebhookPayload → String → M (Unit {0})
unfolding apply_recorded
process_body body payload = do
  raise_if (body.event_id == "") event_id_required
  raise_if (body.event_type == "") event_type_required
  id ← new_uuid
  created ← try (WebhookEvents.create (new_event body payload id))
  apply_recorded body id created

unfoldable pub or_invalid : Option PspWebhookPayload → M PspWebhookPayload
or_invalid none = raise invalid_request_body
or_invalid (some body) = pure body

unfoldable pub process_psp_webhook : String → String → String → String → String → M (Unit {0})
unfolding process_body or_invalid
process_psp_webhook psp_webhook_secret payload event_id timestamp signature = do
  now ← time_now
  verified ← asks (λ env. verify env psp_webhook_secret event_id timestamp signature payload now)
  raise_some verified
  decoded ← asks (λ env. env.decode_webhook payload)
  body ← or_invalid decoded
  process_body body payload
