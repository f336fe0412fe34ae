-- ===== src/Webhook/Signature/Window.antt =====
-- Which signed payloads are accepted: the replay window, and where it fails to hold.
use dodo_payment_gateway.Base.{
  ℕ, ◌+◌, ◌*◌, ◌^◌, ◌≤◌, ◌<◌, ◌≡◌, ◌↔◌, String, none, some, arith, eq_iff,
}
use dodo_payment_gateway.Base.Int.{pos}
use dodo_payment_gateway.Base.Decimal.{codes, parse_int}
use dodo_payment_gateway.Store.{Env}
use dodo_payment_gateway.Webhook.Retry.{second}
use dodo_payment_gateway.Webhook.Signature.{replay_window, sign, verify}

module _ (env : Env) (secret event_id header signature body : String) (now t : ℕ) where
  -- A payload whose timestamp and whose arrival lie between 1970 and 2116 is accepted exactly if
  -- the two are at most five minutes apart, either way, and the signature is that of the secret
  -- over the event id, the timestamp and the body.
  pub verify-none_iff :
      parse_int (codes header) ≡ some (pos t)
      → now < 2 ^ 62
      → t * second < 2 ^ 62
      → (verify env secret event_id header signature body now ≡ none) ↔ (
          (now ≤ t * second + replay_window)
          × (t * second ≤ now + replay_window)
          × (sign env secret event_id (pos t) body ≡ signature))
  unfolding verify
  verify-none_iff parsed h k =
      ground (arith, eq_iff (sign env secret event_id (pos t) body) signature)

  -- A timestamp so far ahead that the difference saturates at the least Duration passes the replay
  -- window: its negation overflows to itself. Whoever can sign gets such a payload accepted.
  pub verify_far_future :
      parse_int (codes header) ≡ some (pos t)
      → now + 2 ^ 63 ≤ t * second
      → t < 2 ^ 62
      → sign env secret event_id (pos t) body ≡ signature
      → verify env secret event_id header signature body now ≡ none
  unfolding verify
  verify_far_future parsed h k signed =
      ground (arith, eq_iff (sign env secret event_id (pos t) body) signature)
