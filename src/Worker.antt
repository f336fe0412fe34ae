-- ===== src/Worker.antt =====
-- internal/worker/webhook_dispatcher.go. Errors of a mark are logged only.
pub mod Claims
pub mod Signed
pub mod Resolution
pub mod Posts
pub mod Verified
pub mod Settled
pub mod Stuck
pub mod Budget
pub mod Ticks
use Prim.Native.String.{◌++◌}
use dodo_payment_gateway.Base.{
  ℕ, zero, suc, ◌/◌, String, Bool, ◌&&◌, Option, none, some, List, [], ◌∷◌, ◌==◌, ltb, leb,
  if◌then◌else◌, insert,
}
use dodo_payment_gateway.Base.Int.{pos}
use dodo_payment_gateway.Base.Decimal.{decimal}
use dodo_payment_gateway.Model.{Business, OutboundEvent}
use dodo_payment_gateway.Errors.{Error, Result, ok, err}
use dodo_payment_gateway.Store.{
  Env, World, M, Delivery, DeliveryReply, ◌>>=◌, ◌>>◌, pure, try, asks, time_now,
}
use dodo_payment_gateway.Repository.Businesses
use dodo_payment_gateway.Repository.OutboundEvents
use dodo_payment_gateway.Webhook.Retry.{next_retry_at, claim_batch_size, second}
use dodo_payment_gateway.Webhook.Signature.{sign}

-- What is posted for an event at `now`: `now.Unix()` is in seconds.
abbrev pub signed_delivery : Env → OutboundEvent → Business → String → ℕ → Delivery
signed_delivery env event business url now = record {
  url = url;
  id = event.id;
  timestamp = decimal (now / second);
  signature =
      sign env business.webhook_secret event.id (pos (now / second))
        (env.encode_event event.payload);
  body = env.encode_event event.payload;
}

-- The request goes out unless it could not be built.
unfoldable pub log_delivery :
    DeliveryReply → Delivery → List (Delivery × DeliveryReply) → List (Delivery × DeliveryReply)
log_delivery (DeliveryReply.not_built text) request sent = sent
log_delivery reply request sent = insert (request, reply) sent

unfoldable pub post : Delivery → M DeliveryReply
unfolding log_delivery
post request w =
    let reply = w.env.deliver w.tick request in
    (ok reply, record w { tick = suc w.tick; deliveries = log_delivery reply request w.deliveries })

unfoldable pub save_failure : OutboundEvent → String → Option ℕ → M (Unit {0})
save_failure event reason none =
    OutboundEvents.mark_failed event.id (suc event.attempt_count) reason
save_failure event reason (some next) =
    OutboundEvents.mark_retry event.id (suc event.attempt_count) next reason

-- `next_retry_at` with what `NextRetryAt` returns; an error of the mark is logged only.
unfoldable pub record_failure : OutboundEvent → String → M (Unit {0})
unfolding save_failure
record_failure event reason = do
  now ← time_now
  try (save_failure event reason (next_retry_at (suc event.attempt_count) now))
  pure tt

unfoldable pub save_delivered : OutboundEvent → M (Unit {0})
save_delivered event = do now ← time_now; try (OutboundEvents.mark_delivered event.id now); pure tt

abbrev pub is_2xx : ℕ → Bool
is_2xx code = leb 200 code && ltb code 300

unfoldable pub record_reply : OutboundEvent → DeliveryReply → M (Unit {0})
unfolding record_failure save_delivered
record_reply event (DeliveryReply.not_built text) = record_failure event text
record_reply event (DeliveryReply.failed text) = record_failure event text
record_reply event (DeliveryReply.answered code) =
    if is_2xx code then save_delivered event else record_failure event ("http " ++ decimal code)

unfoldable pub post_event : OutboundEvent → Business → String → M (Unit {0})
unfolding post record_reply
post_event event business url = do
  now ← time_now
  request ← asks (λ env. signed_delivery env event business url now)
  reply ← post request
  record_reply event reply

unfoldable pub deliver_at : OutboundEvent → Business → Option String → M (Unit {0})
unfolding post_event
deliver_at event business none = record_failure event "webhook url not configured"
deliver_at event business (some url) =
    if url == ""
    then record_failure event "webhook url not configured"
    else post_event event business url

unfoldable pub deliver_to : OutboundEvent → Result Business → M (Unit {0})
unfolding deliver_at
deliver_to event (err e) = record_failure event "business not found"
deliver_to event (ok business) = deliver_at event business business.webhook_url

unfoldable pub deliver_one : OutboundEvent → M (Unit {0})
unfolding deliver_to
deliver_one event = do read ← try (Businesses.get_by_id event.business_id); deliver_to event read

unfoldable pub deliver_all : List OutboundEvent → M (Unit {0})
unfolding deliver_one
deliver_all [] = pure tt
deliver_all (event ∷ events) = do deliver_one event; deliver_all events

unfoldable pub deliver_due : M (Unit {0})
unfolding deliver_all
deliver_due = do
  now ← time_now
  events ← OutboundEvents.claim_due claim_batch_size now
  deliver_all events

-- `Run`, for the ticks that come before its context is done; an error is logged only.
unfoldable pub run : ℕ → M (Unit {0})
unfolding deliver_due
run zero = pure tt
run (suc ticks) = do try deliver_due; run ticks
