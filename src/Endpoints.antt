-- ===== src/Endpoints.antt =====
-- internal/service/webhook_service.go: what a business may do with its endpoint and its events.
pub mod Redelivery
pub mod Address
use dodo_payment_gateway.Base.{ℕ, String, Bool, Option, none, some, List, ◌==◌, ◌||◌, if◌then◌else◌}
use dodo_payment_gateway.Base.Int.{ℤ, pos, negsuc, ltb_ℤ, pos_part}
use dodo_payment_gateway.Base.Trim.{trim_space}
use dodo_payment_gateway.Model.{Business, OutboundEvent}
use dodo_payment_gateway.Errors.{Error, webhook_url_required, event_not_found, event_not_owned}
use dodo_payment_gateway.Store.{World, M, ◌>>=◌, ◌>>◌, pure, raise, try, asks, time_now}
use dodo_payment_gateway.Repository.Businesses
use dodo_payment_gateway.Repository.OutboundEvents
use dodo_payment_gateway.Payment.Guards.{raise_if, return_or}
use dodo_payment_gateway.Accounts.{new_secret}

unfoldable pub secret_or_new : String → M String
unfolding new_secret
secret_or_new secret = if secret == "" then new_secret else pure secret

unfoldable pub set_trimmed_endpoint : String → String → M Business
unfolding secret_or_new
set_trimmed_endpoint business_id url = do
  business ← Businesses.get_by_id business_id
  secret ← secret_or_new business.webhook_secret
  Businesses.update_webhook_endpoint business_id url secret
  pure (record business { webhook_url = some url; webhook_secret = secret })

unfoldable pub set_endpoint : String → String → M Business
unfolding trim_space set_trimmed_endpoint
set_endpoint business_id url = do
  trimmed ← asks (λ env. trim_space env.is_space url)
  raise_if (trimmed == "") webhook_url_required
  set_trimmed_endpoint business_id trimmed

-- `limit` of ListEvents; the result is positive.
unfoldable pub page_limit : ℤ → ℕ
page_limit limit = if ltb_ℤ limit (pos 1) || ltb_ℤ (pos 100) limit then 50 else pos_part limit

unfoldable pub list_events : String → String → ℤ → M (List OutboundEvent)
unfolding page_limit
list_events business_id after_id limit =
    OutboundEvents.list_by_business business_id after_id (page_limit limit)

unfoldable pub check_event_owner : String → OutboundEvent → M OutboundEvent
check_event_owner business_id event =
    if event.business_id == business_id then pure event else raise event_not_owned

unfoldable pub get_event : String → String → M OutboundEvent
unfolding check_event_owner
get_event business_id event_id = do
  read ← try (OutboundEvents.get_by_id event_id)
  event ← return_or (λ e. event_not_found) read
  check_event_owner business_id event

unfoldable pub redeliver : String → String → M OutboundEvent
unfolding get_event
redeliver business_id event_id = do
  event ← get_event business_id event_id
  now ← time_now
  OutboundEvents.reset_for_redelivery event.id now
  get_event business_id event_id
