-- ===== src/Handlers/Payments.antt =====
-- internal/handler/payment_handler.go.
use dodo_payment_gateway.Base.{ℕ, String, Option, none, some, ◌==◌, if◌then◌else◌}
use dodo_payment_gateway.Model.{PaymentAttempt}
use dodo_payment_gateway.Errors.{
  Error, invoice_not_found, payment_attempt_not_found, invoice_not_owned, payment_attempt_not_owned,
  invoice_already_paid, invoice_void, invoice_uncollectible, payment_in_progress,
  idempotency_conflict,
}
use dodo_payment_gateway.Store.{M, ◌>>=◌, pure, try}
use dodo_payment_gateway.Payment.Pay
use dodo_payment_gateway.Handlers.{Answer, bad_request, require_business_id, answer}

-- writePaymentError
abbrev pub payment_error_status : Error → String → ℕ
payment_error_status invoice_not_found message = 404
payment_error_status payment_attempt_not_found message = 404
payment_error_status invoice_not_owned message = 403
payment_error_status payment_attempt_not_owned message = 403
payment_error_status invoice_already_paid message = 409
payment_error_status invoice_void message = 409
payment_error_status invoice_uncollectible message = 409
payment_error_status payment_in_progress message = 409
payment_error_status idempotency_conflict message = 409
payment_error_status _ message = 500

unfoldable pub pay_bound_invoice :
    String → Option String → String → Option String → M (Answer PaymentAttempt)
unfolding require_business_id answer
pay_bound_invoice invoice_id none idempotency_key context =
    pure (bad_request "card_token is required")
pay_bound_invoice invoice_id (some card_token) idempotency_key context =
    if idempotency_key == ""
    then pure (bad_request "Idempotency-Key header is required")
    else require_business_id context λ business_id. do
      paid ← try (Pay.pay_invoice business_id invoice_id idempotency_key card_token)
      answer 200 payment_error_status paid

-- Of the path, the JSON's card_token, the header Idempotency-Key and the context.
unfoldable pub pay_invoice :
    String → Option String → String → Option String → M (Answer PaymentAttempt)
unfolding pay_bound_invoice
pay_invoice invoice_id request idempotency_key context =
    if invoice_id == ""
    then pure (bad_request "invoice id is required")
    else pay_bound_invoice invoice_id request idempotency_key context

unfoldable pub get_payment_attempt : String → Option String → M (Answer PaymentAttempt)
unfolding require_business_id answer
get_payment_attempt attempt_id context = require_business_id context λ business_id. do
  read ← try (Pay.get_payment_attempt business_id attempt_id)
  answer 200 payment_error_status read
