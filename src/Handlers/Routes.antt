-- ===== src/Handlers/Routes.antt =====
-- The routes of cmd/server/main.go: a handler behind internal/middleware/auth.go. What APIKeyAuth and
-- OptionalAPIKeyAuth refuse is answered 401, and the handler is not called.
use dodo_payment_gateway.Base.{String, Option, none, some, List}
use dodo_payment_gateway.Model.{ApiKey, Customer, Invoice, PaymentAttempt, Business, OutboundEvent}
use dodo_payment_gateway.Errors.{Result, ok, err}
use dodo_payment_gateway.Store.{M, ◌>>=◌, asks, try}
use dodo_payment_gateway.Psp.{error_text}
use dodo_payment_gateway.Auth.{api_key_auth, optional_api_key_auth}
use dodo_payment_gateway.Handlers.{Answer}
use dodo_payment_gateway.Handlers.Payments
use dodo_payment_gateway.Handlers.Invoices
use dodo_payment_gateway.Handlers.Invoices.{CreateInvoiceRequest}
use dodo_payment_gateway.Handlers.Keys
use dodo_payment_gateway.Handlers.Keys.{CreateApiKeyRequest}
use dodo_payment_gateway.Handlers.Webhooks

-- `c.Set(BusinessIDKey, apiKey.BusinessID)`
abbrev pub context_of : Option ApiKey → Option String
context_of none = none
context_of (some key) = some key.business_id

module _ {A : Type 0} where
  unfoldable pub go_on : (Option String → M (Answer A)) → Result (Option ApiKey) → M (Answer A)
  go_on handler (ok key) = handler (context_of key)
  go_on handler (err e) = asks (λ env. Answer.refused 401 (error_text env e))

  -- Of the header Authorization.
  unfoldable pub with_api_key : String → (Option String → M (Answer A)) → M (Answer A)
  unfolding go_on
  with_api_key auth_header handler = do key ← try (api_key_auth auth_header); go_on handler key

  unfoldable pub with_optional_api_key : String → (Option String → M (Answer A)) → M (Answer A)
  unfolding go_on
  with_optional_api_key auth_header handler = do
    key ← try (optional_api_key_auth auth_header)
    go_on handler key

unfoldable pub post_customers : String → Option (String × String) → M (Answer Customer)
unfolding with_api_key
post_customers auth_header req = with_api_key auth_header (Invoices.create_customer req)

unfoldable pub post_api_keys : String → CreateApiKeyRequest → M (Answer (String × ApiKey))
unfolding with_optional_api_key
post_api_keys auth_header req = with_optional_api_key auth_header (Keys.create_api_key req)

unfoldable pub get_api_keys : String → M (Answer (List ApiKey))
unfolding with_api_key
get_api_keys auth_header = with_api_key auth_header Keys.list_api_keys

unfoldable pub post_revoke : String → String → M (Answer ApiKey)
unfolding with_api_key
post_revoke auth_header key_id = with_api_key auth_header (Keys.revoke_api_key key_id)

unfoldable pub post_rotate : String → String → M (Answer (String × ApiKey × ApiKey))
unfolding with_api_key
post_rotate auth_header key_id = with_api_key auth_header (Keys.rotate_api_key key_id)

unfoldable pub post_invoices : String → Option CreateInvoiceRequest → M (Answer Invoice)
unfolding with_api_key
post_invoices auth_header req = with_api_key auth_header (Invoices.create_invoice req)

unfoldable pub get_invoices : String → String → M (Answer Invoice)
unfolding with_api_key
get_invoices auth_header invoice_id = with_api_key auth_header (Invoices.get_invoice invoice_id)

unfoldable pub post_pay : String → String → Option String → String → M (Answer PaymentAttempt)
unfolding with_api_key
post_pay auth_header invoice_id req idempotency_key =
    with_api_key auth_header (Payments.pay_invoice invoice_id req idempotency_key)

unfoldable pub get_payment_attempts : String → String → M (Answer PaymentAttempt)
unfolding with_api_key
get_payment_attempts auth_header attempt_id =
    with_api_key auth_header (Payments.get_payment_attempt attempt_id)

unfoldable pub post_webhook_endpoint : String → Option String → M (Answer Business)
unfolding with_api_key
post_webhook_endpoint auth_header req = with_api_key auth_header (Webhooks.set_endpoint req)

unfoldable pub get_events : String → String → M (Answer (List OutboundEvent))
unfolding with_api_key
get_events auth_header after = with_api_key auth_header (Webhooks.list_events after)

unfoldable pub get_event_by_id : String → String → M (Answer OutboundEvent)
unfolding with_api_key
get_event_by_id auth_header event_id = with_api_key auth_header (Webhooks.get_event event_id)

unfoldable pub post_redeliver : String → String → M (Answer OutboundEvent)
unfolding with_api_key
post_redeliver auth_header event_id = with_api_key auth_header (Webhooks.redeliver_event event_id)
