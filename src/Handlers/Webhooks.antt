-- ===== src/Handlers/Webhooks.antt =====
-- internal/handler/webhook_handler.go.
use dodo_payment_gateway.Base.{ℕ, String, Option, none, some, List, ◌==◌, ◌||◌, if◌then◌else◌}
use dodo_payment_gateway.Base.Int.{pos}
use dodo_payment_gateway.Model.{Business, OutboundEvent}
use dodo_payment_gateway.Errors.{Error, invalid_signature, replay, event_not_found, event_not_owned}
use dodo_payment_gateway.Store.{M, ◌>>=◌, pure, try}
use dodo_payment_gateway.Payment.PspWebhook
use dodo_payment_gateway.Endpoints
use dodo_payment_gateway.Handlers.{Answer, bad_request, require_business_id, answer}

-- errors.Is on two errors, and then err.Error().
abbrev pub psp_webhook_error_status : Error → String → ℕ
psp_webhook_error_status invalid_signature message = 401
psp_webhook_error_status replay message = 401
psp_webhook_error_status _ message =
    if message == "invalid request body"
      || message == "event_id is required"
      || message == "event_type is required"
    then 400
    else 500

-- Of the secret of the service, the body, if it could be read, and the three headers.
unfoldable pub handle_psp_webhook :
    String → Option String → String → String → String → M (Answer (Unit {0}))
unfolding answer
handle_psp_webhook secret none id timestamp signature =
    pure (bad_request "failed to read request body")
handle_psp_webhook secret (some payload) id timestamp signature = do
  received ← try (PspWebhook.process_psp_webhook secret payload id timestamp signature)
  answer 200 psp_webhook_error_status received

-- Of the JSON's url. The answer has the endpoint and the secret.
unfoldable pub set_endpoint : Option String → Option String → M (Answer Business)
unfolding require_business_id answer
set_endpoint none context = pure (bad_request "url is required")
set_endpoint (some url) context = require_business_id context λ business_id. do
  changed ← try (Endpoints.set_endpoint business_id url)
  answer 200 (λ e message. 500) changed

-- Of the query `after`; the limit is always 0, which stands for 50.
unfoldable pub list_events : String → Option String → M (Answer (List OutboundEvent))
unfolding require_business_id answer
list_events after context = require_business_id context λ business_id. do
  events ← try (Endpoints.list_events business_id after (pos 0))
  answer 200 (λ e message. 500) events

-- writeWebhookEventError
abbrev pub event_error_status : Error → String → ℕ
event_error_status event_not_found message = 404
event_error_status event_not_owned message = 403
event_error_status _ message = 500

unfoldable pub get_event : String → Option String → M (Answer OutboundEvent)
unfolding require_business_id answer
get_event event_id context = require_business_id context λ business_id. do
  event ← try (Endpoints.get_event business_id event_id)
  answer 200 event_error_status event

unfoldable pub redeliver_event : String → Option String → M (Answer OutboundEvent)
unfolding require_business_id answer
redeliver_event event_id context = require_business_id context λ business_id. do
  event ← try (Endpoints.redeliver business_id event_id)
  answer 202 event_error_status event
