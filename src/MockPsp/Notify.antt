-- ===== src/MockPsp/Notify.antt =====
-- notifyWebhook of cmd/mock-psp/main.go, which a charge that has succeeded starts on its own.
--
-- The clock, the uuids and the wire are those of a world; its database is not used. A sleep is no step
-- of the model, since any time may pass between two readings of the clock.
pub mod Attempts
pub mod Received
use Prim.Native.String.{◌++◌}
use dodo_payment_gateway.Base.{
  ℕ, ◌*◌, ◌/◌, String, Bool, true, false, List, [], ◌∷◌, leb, ◌==◌, if◌then◌else◌,
}
use dodo_payment_gateway.Base.Int.{pos}
use dodo_payment_gateway.Base.Decimal.{decimal}
use dodo_payment_gateway.Store.{
  Env, M, Delivery, DeliveryReply, PspWebhookPayload, ChargeRequest, ChargeResponse, ◌>>=◌, pure,
  asks, time_now, new_uuid,
}
use dodo_payment_gateway.Webhook.Retry.{second}
use dodo_payment_gateway.Webhook.Signature.{sign}
use dodo_payment_gateway.Worker.{post}
use dodo_payment_gateway.MockPsp.{Progress}

abbrev pub millisecond : ℕ
millisecond = 1000000

abbrev pub delays : List ℕ
delays = 0 ∷ 200 * millisecond ∷ second ∷ []

abbrev pub payload : String → String → ChargeRequest → ChargeResponse → PspWebhookPayload
payload event_id event_type req resp = record {
  event_id = event_id;
  event_type = event_type;
  psp_ref = resp.psp_ref;
  idempotency_key = req.idempotency_key;
  status = resp.status;
  code = resp.code;
}

-- What is posted at `now`.
abbrev pub notification : Env → String → String → PspWebhookPayload → ℕ → Delivery
notification env url secret body now = record {
  url = url;
  id = body.event_id;
  timestamp = decimal (now / second);
  signature = sign env secret body.event_id (pos (now / second)) (env.encode_webhook body);
  body = env.encode_webhook body;
}

-- A reply after which the loop goes on; it returns after a request that could not be built.
abbrev pub goes_on : DeliveryReply → Bool
goes_on (DeliveryReply.not_built text) = false
goes_on (DeliveryReply.failed text) = true
goes_on (DeliveryReply.answered code) = leb 500 code

unfoldable pub attempt : String → String → PspWebhookPayload → M DeliveryReply
attempt url secret body = do
  now ← time_now
  request ← asks (λ env. notification env url secret body now)
  post request

-- The loop, for the delays that are left.
unfoldable pub attempts : String → String → PspWebhookPayload → List ℕ → M (Unit {0})
unfolding attempt
attempts url secret body [] = pure tt
attempts url secret body (delay ∷ rest) =
    let next = attempts url secret body rest in
    attempt url secret body >>= λ reply. if goes_on reply then next else pure tt

abbrev pub event_id : String → String
event_id uuid = "evt_" ++ uuid

unfoldable pub notify_webhook :
    String → String → String → ChargeRequest → ChargeResponse → M (Unit {0})
unfolding attempts
notify_webhook url secret event_type req resp = do
  id ← new_uuid
  attempts url secret (payload (event_id id) event_type req resp) delays

-- The end of `finish`, which only a charge that has finished reaches; its `notify` is true where the
-- status is "succeeded".
unfoldable pub notify_finished : String → String → ChargeRequest → Progress → M (Unit {0})
unfolding notify_webhook
notify_finished url secret req (Progress.finished code resp) =
    if resp.status == "succeeded"
    then notify_webhook url secret "charge.succeeded" req resp
    else pure tt
notify_finished url secret req _ = pure tt
