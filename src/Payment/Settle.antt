-- ===== src/Payment/Settle.antt =====
-- internal/service/payment_service.go: chargeAndSettle, persistSuccess, persistFailure and
-- enqueueOutboundEvent. Marshalling the payload cannot fail.
use Prim.Native.String.{◌++◌}
use dodo_payment_gateway.Base.{ℕ, String, Bool, none, some, ◌==◌, if◌then◌else◌}
use dodo_payment_gateway.Model.{
  is_succeeded, PaymentAttempt, PaymentAttemptStatus, OutboundEvent, OutboundEventStatus,
  event_type_payment_succeeded, event_type_payment_failed,
}
use dodo_payment_gateway.Errors.{Result, ok, err}
use dodo_payment_gateway.Store.{
  M, ◌>>=◌, ◌>>◌, pure, try, transaction, new_uuid, time_now, asks, ChargeResponse,
}
use dodo_payment_gateway.Repository.Invoices
use dodo_payment_gateway.Repository.PaymentAttempts
use dodo_payment_gateway.Repository.OutboundEvents
use dodo_payment_gateway.Psp.{charge, is_unknown_outcome, error_text}

abbrev pub outbound_event : PaymentAttempt → String → String → ℕ → OutboundEvent
outbound_event attempt event_type id now = record {
  id = id;
  business_id = attempt.business_id;
  source_id = attempt.id ++ ":" ++ event_type;
  event_type = event_type;
  payload = record {
    id = attempt.id;
    type = event_type;
    payment_attempt_id = attempt.id;
    invoice_id = attempt.invoice_id;
    business_id = attempt.business_id;
    amount = attempt.amount;
    currency = attempt.currency;
    status = attempt.status;
    psp_transaction_id = attempt.psp_transaction_id;
    failure_code = attempt.failure_code;
  };
  status = OutboundEventStatus.pending;
  attempt_count = 0;
  next_retry_at = now;
  last_error = none;
  created_at = 0;
  delivered_at = none;
}

unfoldable pub enqueue_outbound_event : PaymentAttempt → String → M (Unit {0})
enqueue_outbound_event attempt event_type = do
  id ← new_uuid
  now ← time_now
  OutboundEvents.create (outbound_event attempt event_type id now)

-- `attempt.Status`, `attempt.PSPTransactionID` and `attempt.FailureCode` after a success.
abbrev pub as_succeeded : PaymentAttempt → String → PaymentAttempt
as_succeeded attempt psp_ref = record attempt {
  status = PaymentAttemptStatus.succeeded;
  psp_transaction_id = some psp_ref;
  failure_code = none;
}

abbrev pub as_failed : PaymentAttempt → String → PaymentAttempt
as_failed attempt code = record attempt {
  status = PaymentAttemptStatus.failed;
  failure_code = some code;
}

-- The rest of the transaction, once the attempt is SUCCEEDED.
unfoldable pub settle_paid : PaymentAttempt → String → M PaymentAttempt
unfolding enqueue_outbound_event
settle_paid attempt psp_ref = do
  Invoices.mark_paid_if_open attempt.invoice_id
  enqueue_outbound_event (as_succeeded attempt psp_ref) event_type_payment_succeeded
  pure (as_succeeded attempt psp_ref)

-- The attempt was no longer PENDING.
unfoldable pub settle_existing : String → PaymentAttempt → M PaymentAttempt
unfolding settle_paid
settle_existing psp_ref existing =
    if is_succeeded existing.status then settle_paid existing psp_ref else pure existing

unfoldable pub settle_updated : PaymentAttempt → String → Bool → M PaymentAttempt
unfolding settle_existing
settle_updated attempt psp_ref updated =
    if updated
    then settle_paid attempt psp_ref
    else (do existing ← PaymentAttempts.get_by_id attempt.id; settle_existing psp_ref existing)

unfoldable pub success_body : PaymentAttempt → String → M PaymentAttempt
unfolding settle_updated
success_body attempt psp_ref = do
  Invoices.get_by_id_for_update attempt.invoice_id
  updated ←
      PaymentAttempts.update_status_if_pending attempt.id PaymentAttemptStatus.succeeded
        (some psp_ref) none
  settle_updated attempt psp_ref updated

unfoldable pub persist_success : PaymentAttempt → String → M PaymentAttempt
unfolding success_body
persist_success attempt psp_ref = transaction (success_body attempt psp_ref)

unfoldable pub fail_updated : PaymentAttempt → String → Bool → M PaymentAttempt
unfolding enqueue_outbound_event
fail_updated attempt code updated =
    if updated
    then (do
      enqueue_outbound_event (as_failed attempt code) event_type_payment_failed
      pure (as_failed attempt code))
    else PaymentAttempts.get_by_id attempt.id

-- Not in a transaction: the update and the event are two statements.
unfoldable pub persist_failure : PaymentAttempt → String → M PaymentAttempt
unfolding fail_updated
persist_failure attempt code = do
  updated ←
      PaymentAttempts.update_status_if_pending attempt.id PaymentAttemptStatus.failed none
        (some code)
  fail_updated attempt code updated

-- `if code == "" { code = "card_declined" }`
abbrev pub code_or_declined : String → String
code_or_declined code = if code == "" then "card_declined" else code

unfoldable pub settle : PaymentAttempt → Result ChargeResponse → M PaymentAttempt
settle attempt (err e) =
    if is_unknown_outcome e
    then pure attempt
    else (do text ← asks (λ env. error_text env e); persist_failure attempt text)
settle attempt (ok response) =
    if response.status == "succeeded"
    then persist_success attempt response.psp_ref
    else persist_failure attempt (code_or_declined response.code)

unfoldable pub charge_and_settle : PaymentAttempt → String → M PaymentAttempt
unfolding settle
charge_and_settle attempt card_token = do
  response ← try (
      charge (record {
        amount = attempt.amount;
        currency = attempt.currency;
        card_token = card_token;
        idempotency_key = attempt.id;
      }))
  settle attempt response
