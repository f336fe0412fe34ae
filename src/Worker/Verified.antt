-- ===== src/Worker/Verified.antt =====
-- A business that checks its webhooks as internal/webhook/signature.go does accepts what the
-- dispatcher posts.
use dodo_payment_gateway.Base.{ℕ, ◌+◌, ◌/◌, ◌^◌, ◌≤◌, ◌<◌, ◌≡◌, refl, String, none, arith}
use dodo_payment_gateway.Base.Decimal.{decimal}
use dodo_payment_gateway.Base.Decimal.Roundtrip.{parse_int-decimal}
use dodo_payment_gateway.Model.{Business, OutboundEvent}
use dodo_payment_gateway.Store.{Env}
use dodo_payment_gateway.Webhook.Retry.{second}
use dodo_payment_gateway.Webhook.Signature.{verify, replay_window}
use dodo_payment_gateway.Webhook.Signature.Window.{verify-none_iff}
use dodo_payment_gateway.Worker.{signed_delivery}

-- What is signed for a business at `now` verifies under that business's secret when it arrives no
-- more than five minutes later, less the second to which the timestamp is rounded down, or earlier by
-- a clock that is at most five minutes behind; for times between 1970 and 2116.
pub verify-signed_delivery :
    (env : Env) (event : OutboundEvent) (business : Business) (url : String) (now arrival : ℕ)
    → now < 2 ^ 62
    → arrival < 2 ^ 62
    → now ≤ arrival + replay_window
    → arrival + second ≤ now + replay_window
    → let d = signed_delivery env event business url now in
      verify env business.webhook_secret d.id d.timestamp d.signature d.body arrival ≡ none
verify-signed_delivery env event business url now arrival h k early late =
    (verify-none_iff env business.webhook_secret event.id (decimal (now / second)) _
        (env.encode_event event.payload) arrival (now / second)
        (parse_int-decimal (now / second) (omega arith)) k (omega arith)).1
      (omega arith, omega arith, refl)
