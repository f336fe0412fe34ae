-- ===== src/Psp.antt =====
-- internal/psp: the client of the card processor. The environment answers the request; encoding it
-- as JSON cannot fail.

use Prim.Native.String.{◌++◌}
use dodo_payment_gateway.Base.{
  suc, String, Bool, true, false, Option, none, some, List, leb, if◌then◌else◌, insert,
}
use dodo_payment_gateway.Base.Decimal.{decimal}
use dodo_payment_gateway.Errors.{
  Error, psp_timeout, psp_unavailable, psp_rejected, bad_request, deadline_exceeded, canceled, ok,
}
use dodo_payment_gateway.Store.{
  Env, M, ChargeRequest, ChargeResponse, HttpReply, ◌>>=◌, pure, raise, asks,
}

-- The request goes out unless it could not be built.
unfoldable pub log_charge : HttpReply → ChargeRequest → List ChargeRequest → List ChargeRequest
log_charge (HttpReply.not_built text) req sent = sent
log_charge _ req sent = insert req sent

unfoldable pub send : ChargeRequest → M HttpReply
unfolding log_charge
send req w =
    let reply = w.env.transport w.tick req in
    (ok reply, record w { tick = suc w.tick; charges = log_charge reply req w.charges })

unfoldable pub or_unavailable : Option ChargeResponse → M ChargeResponse
or_unavailable none = raise psp_unavailable
or_unavailable (some body) = pure body

-- What the client makes of the answer.
unfoldable pub read_reply : HttpReply → M ChargeResponse
unfolding or_unavailable
read_reply (HttpReply.not_built text) = raise (bad_request text)
read_reply HttpReply.timed_out = raise psp_timeout
read_reply HttpReply.disconnected = raise psp_unavailable
read_reply (HttpReply.answered code body) =
    if leb 500 code
    then raise psp_unavailable
    else if leb 400 code
    then raise (psp_rejected code)
    else (do decoded ← asks (λ env. env.decode_charge body); or_unavailable decoded)

unfoldable pub charge : ChargeRequest → M ChargeResponse
unfolding send read_reply
charge req = do reply ← send req; read_reply reply

unfoldable pub is_unknown_outcome : Error → Bool
is_unknown_outcome psp_timeout = true
is_unknown_outcome psp_unavailable = true
is_unknown_outcome deadline_exceeded = true
is_unknown_outcome canceled = true
is_unknown_outcome _ = false

-- `err.Error()`
unfoldable pub error_text : Env → Error → String
error_text env Error.invoice_not_found = "invoice not found"
error_text env Error.invoice_not_owned = "invoice does not belong to business"
error_text env Error.invoice_already_paid = "invoice already paid"
error_text env Error.invoice_void = "invoice is void"
error_text env Error.invoice_uncollectible = "invoice is uncollectible"
error_text env Error.payment_in_progress = "payment is already being processed"
error_text env Error.idempotency_conflict = "idempotency key reused with different request"
error_text env Error.payment_attempt_not_found = "payment attempt not found"
error_text env Error.payment_attempt_not_owned = "payment attempt does not belong to business"
error_text env Error.invalid_signature = "invalid webhook signature"
error_text env Error.replay = "webhook timestamp outside replay window"
error_text env Error.invalid_request_body = "invalid request body"
error_text env Error.event_id_required = "event_id is required"
error_text env Error.event_type_required = "event_type is required"
error_text env Error.webhook_url_required = "webhook url is required"
error_text env Error.event_not_found = "event not found"
error_text env Error.event_not_owned = "event does not belong to business"
error_text env Error.api_key_not_found = "api key not found"
error_text env Error.api_key_not_owned = "api key does not belong to business"
error_text env Error.api_key_revoked = "api key already revoked"
error_text env Error.api_key_bootstrap = "business already has an active api key"
error_text env Error.business_not_found = "business not found"
error_text env Error.amount_not_positive = "amount must be greater than zero"
error_text env Error.currency_required = "currency is required"
error_text env Error.customer_not_found = "customer not found"
error_text env Error.customer_not_owned = "customer does not belong to business"
error_text env Error.missing_authorization = "missing authorization header"
error_text env Error.invalid_authorization = "invalid authorization header"
error_text env Error.invalid_api_key = "invalid API key"
error_text env psp_timeout = "psp timeout"
error_text env psp_unavailable = "psp unavailable"
error_text env (psp_rejected status) = "psp rejected request: status " ++ decimal status
error_text env (bad_request text) = text
error_text env e = env.driver_text e
