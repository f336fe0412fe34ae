-- ===== src/Payment/Webhooks/Accepted.antt =====
-- What ProcessPSPWebhook accepts.
use Prim.Native.String.{◌++◌}
use dodo_payment_gateway.Base.{
  suc, ◌≡◌, ◌≢◌, ◌⊎◌, refl, inl, inr, String, Option, none, some, ◌==◌, Bool-cases, Option-cases,
  eq_iff, ℕ, arith,
}
use dodo_payment_gateway.Base.Int.{ℤ}
use dodo_payment_gateway.Base.Decimal.{decimal_ℤ, codes, parse_int}
use dodo_payment_gateway.Errors.{
  Error, err, invalid_request_body, event_id_required, event_type_required,
}
use dodo_payment_gateway.Store.{Env, World, ◌>>=◌, raise, asks, time_now, PspWebhookPayload}
use dodo_payment_gateway.Payment.Guards.{raise_some, raise_if}
use dodo_payment_gateway.Payment.PspWebhook.{process_psp_webhook, process_body, or_invalid}
use dodo_payment_gateway.Webhook.Signature.{verify, verify_at, sign, signed_payload}

module _ (secret payload event_id timestamp signature : String) where
  -- The signature is the HMAC under the secret of the id, the timestamp, which is a number, and the
  -- payload; and the payload is a body with an event id and an event type.
  pub record Accepted (env : Env) : Type 0 where
    pub unix_ts : ℤ
    pub parsed : parse_int (codes timestamp) ≡ some unix_ts
    pub signed :
        signature
        ≡ "v1="
          ++ env.hmac_sha256_hex secret (event_id ++ "." ++ decimal_ℤ unix_ts ++ "." ++ payload)
    pub body : PspWebhookPayload
    pub decoded : env.decode_webhook payload ≡ some body
    pub named : body.event_id ≢ ""
    pub typed : body.event_type ≢ ""

  -- Why a webhook is answered with `e`: the error of Verify, or what its payload lacks.
  pub data Refused (w : World) : Error → Type 0 where
    unverified :
        (e : Error)
        → verify w.env secret event_id timestamp signature payload (w.env.clock w.tick) ≡ some e
        → Refused w e
    undecoded : w.env.decode_webhook payload ≡ none → Refused w invalid_request_body
    unnamed :
        (body : PspWebhookPayload)
        → w.env.decode_webhook payload ≡ some body
        → body.event_id ≡ ""
        → Refused w event_id_required
    untyped :
        (body : PspWebhookPayload)
        → w.env.decode_webhook payload ≡ some body
        → body.event_type ≡ ""
        → Refused w event_type_required

  -- It is refused, and no more than the time is read; or it may be accepted.
  abbrev pub Judged : World → Type 0
  Judged w =
      ((e : Error) × Refused w e
        × (process_psp_webhook secret payload event_id timestamp signature w
            ≡ (err e, record w { tick = suc w.tick })))
      ⊎ Accepted w.env

  abbrev IsSignedAt : Env → ℤ → Type 0
  IsSignedAt env unix_ts =
      signature
      ≡ "v1=" ++ env.hmac_sha256_hex secret (event_id ++ "." ++ decimal_ℤ unix_ts ++ "." ++ payload)

  verify_at-signed :
      (env : Env) (unix_ts : ℤ) (now : ℕ)
      → verify_at env secret event_id unix_ts signature payload now ≡ none
      → IsSignedAt env unix_ts
  unfolding verify_at sign signed_payload
  verify_at-signed env unix_ts now h =
      ground (arith, h, eq_iff (sign env secret event_id unix_ts payload) signature)

  parsed-signed :
      (env : Env) (now : ℕ) (ts : Option ℤ)
      → parse_int (codes timestamp) ≡ ts
      → verify env secret event_id timestamp signature payload now ≡ none
      → (unix_ts : ℤ) × (parse_int (codes timestamp) ≡ some unix_ts) × IsSignedAt env unix_ts
  unfolding verify
  parsed-signed env now none unparsed h = absurd (cc (unparsed, h))
  parsed-signed env now (some unix_ts) parsed h =
      (unix_ts, parsed, verify_at-signed env unix_ts now (cc (parsed, h)))

  module _ (w : World)
      (verified : verify w.env secret event_id timestamp signature payload (w.env.clock w.tick)
        ≡ none) where
    body-Judged : (body : PspWebhookPayload) → w.env.decode_webhook payload ≡ some body → Judged w
    unfolding process_psp_webhook process_body raise_some raise_if time_now ◌>>=◌ asks raise
        or_invalid
    body-Judged body decoded = elim (Bool-cases (body.event_id == "")) [
      | inl no_id ↦ inl (
        event_id_required,
        Refused.unnamed body decoded ((eq_iff body.event_id "").0 no_id),
        rw (verified, decoded, no_id) refl,
      )
      | inr named ↦ elim (Bool-cases (body.event_type == "")) [
        | inl no_type ↦ inl (
          event_type_required,
          Refused.untyped body decoded ((eq_iff body.event_type "").0 no_type),
          rw (verified, decoded, named, no_type) refl,
        )
        | inr typed ↦
            let (unix_ts, parsed, signed) =
              parsed-signed w.env (w.env.clock w.tick) _ refl verified in
            inr (record {
              unix_ts = unix_ts;
              parsed = parsed;
              signed = signed;
              body = body;
              decoded = decoded;
              named = λ h. ground (arith, eq_iff body.event_id "", h, named);
              typed = λ h. ground (arith, eq_iff body.event_type "", h, typed);
            })
      ]
    ]

    verified-Judged : Judged w
    unfolding process_psp_webhook raise_some time_now ◌>>=◌ asks raise or_invalid
    verified-Judged = elim (Option-cases (w.env.decode_webhook payload)) [
      | inl garbled ↦
          inl (invalid_request_body, Refused.undecoded garbled, rw (verified, garbled) refl)
      | inr (body, decoded) ↦ body-Judged body decoded
    ]

-- Whatever fails, ProcessPSPWebhook refuses a webhook with the error of Verify or that of what its
-- payload lacks, and then nothing is changed or sent, unless the signature is the HMAC under the
-- secret of the id, the timestamp, which is a number, and the payload, and the payload decodes to a
-- body with an event id and an event type.
pub process_psp_webhook-Judged :
    (secret payload event_id timestamp signature : String) (w : World)
    → Judged secret payload event_id timestamp signature w
unfolding process_psp_webhook raise_some time_now ◌>>=◌ asks raise
process_psp_webhook-Judged secret payload event_id timestamp signature w =
    elim (Option-cases
      (verify w.env secret event_id timestamp signature payload (w.env.clock w.tick))) [
        | inl verified ↦ verified-Judged secret payload event_id timestamp signature w verified
        | inr (e, refused) ↦ inl (e, Refused.unverified e refused, rw refused refl)
      ]
