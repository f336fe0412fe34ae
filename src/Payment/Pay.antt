-- ===== src/Payment/Pay.antt =====
-- internal/service/payment_service.go: PayInvoice, replayIdempotentPay and GetPaymentAttempt.
use dodo_payment_gateway.Base.{
  String, Bool, true, false, not, ◌||◌, Option, none, some, ◌==◌, if◌then◌else◌,
}
use dodo_payment_gateway.Model.{is_pending, PaymentAttempt, IdempotencyKey}
use dodo_payment_gateway.Errors.{
  Error, Result, ok, err, is_no_rows, is_unique_violation, invoice_not_found, invoice_not_owned,
  invoice_already_paid, invoice_void, payment_in_progress, idempotency_conflict,
  payment_attempt_not_found, payment_attempt_not_owned,
}
use dodo_payment_gateway.Store.{M, ◌>>=◌, pure, raise, try}
use dodo_payment_gateway.Repository.PaymentAttempts
use dodo_payment_gateway.Repository.IdempotencyKeys
use dodo_payment_gateway.Payment.Guards.{hash_pay_request, return_or}
use dodo_payment_gateway.Payment.Settle.{charge_and_settle}
use dodo_payment_gateway.Payment.Create.{create_pending_attempt}

unfoldable pub resume : String → PaymentAttempt → M PaymentAttempt
resume card_token attempt =
    if not (is_pending attempt.status) then pure attempt else charge_and_settle attempt card_token

unfoldable pub replay_attempt : String → Option String → M PaymentAttempt
unfolding resume
replay_attempt card_token none = raise payment_in_progress
replay_attempt card_token (some attempt_id) = do
  attempt ← PaymentAttempts.get_by_id attempt_id
  resume card_token attempt

unfoldable pub replay_idempotent_pay : IdempotencyKey → String → String → String → M PaymentAttempt
unfolding replay_attempt
replay_idempotent_pay existing_key invoice_id card_token request_hash =
    if not (existing_key.request_hash == request_hash)
      || not (existing_key.invoice_id == invoice_id)
    then raise idempotency_conflict
    else replay_attempt card_token existing_key.payment_attempt_id

-- The errors that PayInvoice passes on before it looks for a unique violation.
abbrev pub is_refusal : Error → Bool
is_refusal idempotency_conflict = true
is_refusal payment_in_progress = true
is_refusal invoice_already_paid = true
is_refusal invoice_void = true
is_refusal invoice_not_owned = true
is_refusal invoice_not_found = true
is_refusal _ = false

-- What PayInvoice does with the outcome of createPendingAttempt.
unfoldable pub pay_created :
    String → String → String → String → String → Result PaymentAttempt → M PaymentAttempt
pay_created business_id invoice_id idempotency_key card_token request_hash (ok attempt) =
    charge_and_settle attempt card_token
pay_created business_id invoice_id idempotency_key card_token request_hash (err e) =
    if is_refusal e
    then raise e
    else if is_unique_violation e
    then (do
      existing_key ← IdempotencyKeys.get_by_key business_id idempotency_key
      replay_idempotent_pay existing_key invoice_id card_token request_hash)
    else raise e

-- What PayInvoice does with the outcome of its first look-up of the key.
unfoldable pub pay_looked_up :
    String → String → String → String → String → Result IdempotencyKey → M PaymentAttempt
unfolding pay_created
pay_looked_up business_id invoice_id idempotency_key card_token request_hash (ok existing_key) =
    replay_idempotent_pay existing_key invoice_id card_token request_hash
pay_looked_up business_id invoice_id idempotency_key card_token request_hash (err e) =
    if is_no_rows e
    then (do
      created ← try (create_pending_attempt business_id invoice_id idempotency_key request_hash)
      pay_created business_id invoice_id idempotency_key card_token request_hash created)
    else raise e

unfoldable pub pay_invoice : String → String → String → String → M PaymentAttempt
unfolding pay_looked_up
pay_invoice business_id invoice_id idempotency_key card_token = do
  request_hash ← hash_pay_request invoice_id card_token
  existing ← try (IdempotencyKeys.get_by_key business_id idempotency_key)
  pay_looked_up business_id invoice_id idempotency_key card_token request_hash existing

unfoldable pub check_attempt_owner : String → PaymentAttempt → M PaymentAttempt
check_attempt_owner business_id attempt =
    if not (attempt.business_id == business_id)
    then raise payment_attempt_not_owned
    else pure attempt

unfoldable pub get_payment_attempt : String → String → M PaymentAttempt
unfolding check_attempt_owner
get_payment_attempt business_id attempt_id = do
  read ← try (PaymentAttempts.get_by_id attempt_id)
  attempt ← return_or (λ _. payment_attempt_not_found) read
  check_attempt_owner business_id attempt
