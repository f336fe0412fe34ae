-- ===== src/Payment/Webhooks/Repeated.antt =====
-- A webhook of the card processor that is delivered again: ProcessPSPWebhook of
-- internal/service/payment_service.go.
use dodo_payment_gateway.Base.{
  ℕ, suc, ◌≡◌, ◌∙◌, sym, ap, String, false, Option, none, some, ◌==◌, find, arith,
}
use dodo_payment_gateway.Errors.{Error, ok}
use dodo_payment_gateway.Store.{
  Db, Env, World, Outcome, pure, raise, asks, time_now, PspWebhookPayload,
}
use dodo_payment_gateway.Store.Laws.{bind_elim, asks-ok}
use dodo_payment_gateway.Repository.WebhookEvents
use dodo_payment_gateway.Payment.Guards.{raise_some}
use dodo_payment_gateway.Payment.PspWebhook.{process_psp_webhook, or_invalid}
use dodo_payment_gateway.Payment.Webhooks.{repeated-process_psp_webhook}
use dodo_payment_gateway.Webhook.Signature.{verify}
use dodo_payment_gateway.Payment.Webhooks.Done.{Done, process_body-Done}

-- The payload is a body that names its event, which is PROCESSED.
abbrev Received : String → World → Db → Type 0
Received payload w d =
    (body : PspWebhookPayload) × (w.env.decode_webhook payload ≡ some body)
    × ((body.event_id == "") ≡ false)
    × ((body.event_type == "") ≡ false)
    × Done body.event_id d

decoded-ok :
    (o : Option PspWebhookPayload) (w : World) {body : PspWebhookPayload} {u : World}
    → or_invalid o w ≡ (ok body, u)
    → o ≡ some body
unfolding or_invalid pure raise
decoded-ok none w h = cc h
decoded-ok (some body) w h = ground (arith, h)

raise_some-env :
    (o : Option Error) (w : World) {u : World} → raise_some o w ≡ (ok tt, u) → u.env ≡ w.env
unfolding raise_some pure raise
raise_some-env none w h = ground (arith, h)
raise_some-env (some e) w h = cc h

time_now-env : (w : World) {now : ℕ} {u : World} → time_now w ≡ (ok now, u) → u.env ≡ w.env
unfolding time_now
time_now-env w h = ground (arith, h)

process_psp_webhook-Received :
    (secret payload event_id timestamp signature : String) (w : World) {u : World}
    → process_psp_webhook secret payload event_id timestamp signature w ≡ (ok tt, u)
    → Received payload w u.db
unfolding process_psp_webhook
process_psp_webhook-Received secret payload event_id timestamp signature w h =
    bind_elim time_now _ w h λ now w1 timed h1. bind_elim (asks _) _ w1 h1 λ verified w2 asked h2.
      bind_elim (raise_some verified) _ w2 h2 λ _ w3 passed h3.
        bind_elim (asks _) _ w3 h3 λ decoded w4 read h4.
          bind_elim (or_invalid decoded) _ w4 h4 λ body w5 parsed h5.
            let (named, typed, done) = process_body-Done body payload w5 h5 in
            let same : w3.env ≡ w.env =
              raise_some-env verified w2 passed
              ∙ ap (λ (v : World). v.env) (sym (asks-ok _ w1 asked).1)
              ∙ time_now-env w timed in
            (
              body,
              ap (λ (env : Env). env.decode_webhook payload) (sym same)
                  ∙ (asks-ok _ w3 read).0
                  ∙ decoded-ok decoded w4 parsed,
              named,
              typed,
              done,
            )

-- A webhook that has been answered with success is done: when its payload is delivered again, in a
-- request that Verify accepts, and the events of the processor are those that were left and the
-- database answers the two statements, it is answered with success, and nothing is changed or sent.
pub process_psp_webhook-once :
    (secret payload event_id timestamp signature again_id again_timestamp again_signature : String)
    (w u v : World)
    → process_psp_webhook secret payload event_id timestamp signature w ≡ (ok tt, u)
    → v.db.webhook_events ≡ u.db.webhook_events
    → v.env.decode_webhook payload ≡ w.env.decode_webhook payload
    → verify v.env secret again_id again_timestamp again_signature payload (v.env.clock v.tick)
      ≡ none
    → v.env.outcome (suc (suc v.tick)) ≡ Outcome.works
    → v.env.outcome (suc (suc (suc v.tick))) ≡ Outcome.works
    → process_psp_webhook secret payload again_id again_timestamp again_signature v
      ≡ (ok tt, record v { tick = suc (suc (suc (suc v.tick))) })
process_psp_webhook-once secret payload event_id timestamp signature again_id again_timestamp
      again_signature w u v first left same verified o o' =
    let (body, decoded, named, typed, (event, row, done)) =
      process_psp_webhook-Received secret payload event_id timestamp signature w first in
    repeated-process_psp_webhook secret payload again_id again_timestamp again_signature v body
      event verified (same ∙ decoded) named typed
      (ap (find (WebhookEvents.has_event_id body.event_id)) left ∙ row) done o o'
