-- ===== src/Worker/Signed.antt =====
-- What a signed webhook request holds, field by field.
use Prim.Native.String.{◌++◌}
use dodo_payment_gateway.Base.{ℕ, ◌/◌, ◌≡◌, refl, String}
use dodo_payment_gateway.Base.Decimal.{decimal, decimal_ℤ}
use dodo_payment_gateway.Model.{Business, OutboundEvent}
use dodo_payment_gateway.Store.{Env, Delivery}
use dodo_payment_gateway.Webhook.Retry.{second}
use dodo_payment_gateway.Webhook.Signature.{sign, signed_payload}
use dodo_payment_gateway.Worker.{signed_delivery}

-- The request goes to `url` with that id and body, its timestamp is `now` in Unix seconds, and its
-- signature the HMAC under `secret` of the id, the timestamp and the body.
pub record IsSigned (env : Env) (url secret id body : String) (now : ℕ) (request : Delivery)
    : Type 0 where
  pub url_is : request.url ≡ url
  pub id_is : request.id ≡ id
  pub timestamp_is : request.timestamp ≡ decimal (now / second)
  pub signature_is :
      request.signature
      ≡ "v1=" ++ env.hmac_sha256_hex secret (id ++ "." ++ decimal (now / second) ++ "." ++ body)
  pub body_is : request.body ≡ body

-- What is to be posted for the event: signed under its business's secret.
abbrev pub IsSignedFor : Env → OutboundEvent → Business → String → ℕ → Delivery → Type 0
IsSignedFor env e b url now request =
    IsSigned env url b.webhook_secret e.id (env.encode_event e.payload) now request

pub signed_delivery-IsSigned :
    (env : Env) (e : OutboundEvent) (b : Business) (url : String) (now : ℕ)
    → IsSignedFor env e b url now (signed_delivery env e b url now)
unfolding sign signed_payload decimal_ℤ
signed_delivery-IsSigned env e b url now = record {
  url_is = refl;
  id_is = refl;
  timestamp_is = refl;
  signature_is = refl;
  body_is = refl;
}
