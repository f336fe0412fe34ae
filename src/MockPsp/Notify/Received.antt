-- ===== src/MockPsp/Notify/Received.antt =====
-- The webhook of the mock processor at the gateway: cmd/mock-psp/main.go with ProcessPSPWebhook of
-- internal/service/payment_service.go.
use text.Mathlib.TextLemmas.{append-eq-nil_iff, cons-ne-nil}
use dodo_payment_gateway.Base.{
  ap, subst, ℕ, suc, ◌+◌, ◌/◌, ◌^◌, ◌≤◌, ◌<◌, ◌≡◌, refl, String, false, none, some, ◌==◌, find,
  arith, eq_iff, Bool-cases, inl, inr, eq_iff, Bool-cases, inl, inr,
}
use dodo_payment_gateway.Base.Decimal.{decimal}
use dodo_payment_gateway.Base.Decimal.Roundtrip.{parse_int-decimal}
use dodo_payment_gateway.Model.{PaymentAttempt}
use dodo_payment_gateway.Errors.{ok}
use dodo_payment_gateway.Store.{Db, Env, World, PspWebhookPayload, ChargeRequest, ChargeResponse}
use dodo_payment_gateway.Repository.WebhookEvents
use dodo_payment_gateway.Payment.PspWebhook.{process_psp_webhook}
use dodo_payment_gateway.Payment.Settled.{Waiting}
use dodo_payment_gateway.Payment.Settled.Received.{Applied, process_psp_webhook-Applied}
use dodo_payment_gateway.Webhook.Retry.{second}
use dodo_payment_gateway.Webhook.Signature.{verify, replay_window, default_psp_secret}
use dodo_payment_gateway.Webhook.Signature.Window.{verify-none_iff}
use dodo_payment_gateway.Settings.{or_default, gateway_settings, processor_settings}
use dodo_payment_gateway.MockPsp.Notify.{notification, payload, event_id}

verify-notification :
    (env : Env) (url secret : String) (body : PspWebhookPayload) (now arrival : ℕ)
    → now < 2 ^ 62
    → arrival < 2 ^ 62
    → now ≤ arrival + replay_window
    → arrival + second ≤ now + replay_window
    → let d = notification env url secret body now in
      verify env secret d.id d.timestamp d.signature d.body arrival ≡ none
verify-notification env url secret body now arrival h k early late =
    (verify-none_iff env secret body.event_id (decimal (now / second)) _ (env.encode_webhook body)
        arrival (now / second) (parse_int-decimal (now / second) (omega arith)) k (omega arith)).1
      (omega arith, omega arith, refl)

event_id_named : (uuid : String) → (event_id uuid == "") ≡ false
event_id_named uuid = elim (Bool-cases (event_id uuid == "")) [
  | inl empty ↦ absurd (
      cons-ne-nil _ _
        ((append-eq-nil_iff {p = "evt_"} {q = uuid}).0 ((eq_iff (event_id uuid) "").0 empty)).0)
  | inr named ↦ named
]

-- ProcessPSPWebhook with the secret `secret` takes what was signed with `signed_with` and applies it.
abbrev Settles : String → String → String → PspWebhookPayload → ℕ → World → PaymentAttempt → Type 0
Settles secret url signed_with body now w a =
    let d = notification w.env url signed_with body now in
    (n : ℕ) × (d' : Db) × (process_psp_webhook secret d.body d.id d.timestamp d.signature w
      ≡ (ok tt, record w { db = d'; tick = n }))
    × Applied body a d'

-- What the mock processor posts about a charge that has succeeded settles the payment at the gateway,
-- also if the call that sent the charge timed out: if both processes have the same PSP_WEBHOOK_SECRET,
-- or none, and the post arrives within the replay window, in the processor's own JSON, for the first
-- time, for an attempt that is PENDING, with its invoice and its business in the database, and if the
-- statements work and uuids are new, then ProcessPSPWebhook returns no error, the attempt is SUCCEEDED
-- with the processor's reference, the event for the business is in the outbox, the invoice is no longer
-- DRAFT or OPEN, and the webhook is PROCESSED.
pub notification-Applied :
    (getenv_psp getenv : String → String) (uuid : String) (req : ChargeRequest)
    (resp : ChargeResponse) (now : ℕ) (w : World) (a : PaymentAttempt)
    → Waiting a w
    → getenv_psp "PSP_WEBHOOK_SECRET" ≡ getenv "PSP_WEBHOOK_SECRET"
    → req.idempotency_key ≡ a.id
    → (a.id == "") ≡ false
    → now < 2 ^ 62
    → w.env.clock w.tick < 2 ^ 62
    → now ≤ w.env.clock w.tick + replay_window
    → w.env.clock w.tick + second ≤ now + replay_window
    → w.env.decode_webhook
        (w.env.encode_webhook (payload (event_id uuid) "charge.succeeded" req resp))
      ≡ some (payload (event_id uuid) "charge.succeeded" req resp)
    → find (WebhookEvents.has_event_id (event_id uuid)) w.db.webhook_events ≡ none
    → find (WebhookEvents.has_id (w.env.uuid (suc w.tick))) w.db.webhook_events ≡ none
    → let body = payload (event_id uuid) "charge.succeeded" req resp in
      let psp = processor_settings getenv_psp in
      let d = notification w.env psp.webhook_url psp.webhook_secret body now in
      (n : ℕ) × (d' : Db) × (process_psp_webhook
          (gateway_settings getenv).psp_webhook_secret
          d.body
          d.id
          d.timestamp
          d.signature
          w
        ≡ (ok tt, record w { db = d'; tick = n }))
      × Applied body a d'
notification-Applied getenv_psp getenv uuid req resp now w a s agree same named early late before
      after decoded new free =
    let body = payload (event_id uuid) "charge.succeeded" req resp in
    let psp = processor_settings getenv_psp in
    subst (λ secret. Settles secret psp.webhook_url psp.webhook_secret body now w a)
      (ap (λ value. or_default value default_psp_secret) agree)
      (process_psp_webhook-Applied psp.webhook_secret _ (event_id uuid) _ _ w body a s
        (verify-notification w.env psp.webhook_url psp.webhook_secret body now (w.env.clock w.tick)
          early late before after)
        decoded same named refl (event_id_named uuid) refl new free)
