-- ===== src/MockPsp/Notify/Attempts.antt =====
-- What notifyWebhook posts.
use dodo_payment_gateway.Base.{
  ℕ, suc, ◌≤◌, ◌≡◌, ◌⊎◌, ◌&&◌, refl, inl, inr, ap, ◌∙◌, sym, String, Bool, true, false, List, [],
  ◌∷◌, ◌++◌, insert, suc, leb, subst, length, arith, if◌then◌else◌, Bool-cases, not,
}
use mathlib.Core.List.{append_assoc, append-nil}
use dodo_payment_gateway.Store.{
  Env, World, Delivery, DeliveryReply, M, PspWebhookPayload, ChargeRequest, ChargeResponse, ◌>>=◌,
  asks, time_now, new_uuid, pure,
}
use dodo_payment_gateway.Base.Decimal.{decimal_ℤ}
use dodo_payment_gateway.Webhook.Signature.{sign, signed_payload}
use dodo_payment_gateway.Worker.{post, log_delivery}
use dodo_payment_gateway.Worker.Signed.{IsSigned}
use dodo_payment_gateway.MockPsp.Notify.{
  attempt, attempts, notification, goes_on, delays, event_id, notify_webhook,
}

abbrev pub Log : Type 0
Log = List (Delivery × DeliveryReply)

-- Every request but the last failed or was answered with 500 or more.
abbrev pub is_retrying : Log → Bool
is_retrying [] = true
is_retrying (x ∷ []) = true
is_retrying (x ∷ y ∷ sent) = goes_on x.1 && is_retrying (y ∷ sent)

-- The last request was answered with less than 500.
abbrev pub is_taken : Log → Bool
is_taken [] = false
is_taken (x ∷ []) = not (goes_on x.1)
is_taken (x ∷ y ∷ sent) = is_taken (y ∷ sent)

module _ (env : Env) (url secret : String) (body : PspWebhookPayload) where
  -- Each request is signed for the time read at its own tick, `t` for the first, and answered by the
  -- wire at the tick after that.
  abbrev pub AreSigned : ℕ → Log → Type 0
  AreSigned t [] = Unit
  AreSigned t (x ∷ sent) =
      IsSigned env url secret body.event_id (env.encode_webhook body) (env.clock t) x.0
      × (x.1 ≡ env.deliver (suc t) x.0)
      × AreSigned (suc (suc t)) sent

  -- The request that comes after `sent`, signed for its time as they are, could not be built.
  abbrev pub IsUnbuilt : ℕ → Log → Type 0
  IsUnbuilt t [] =
      (request : Delivery) × (text : String) × IsSigned env url secret body.event_id
        (env.encode_webhook body) (env.clock t) request
      × (env.deliver (suc t) request ≡ DeliveryReply.not_built text)
  IsUnbuilt t (x ∷ sent) = IsUnbuilt (suc (suc t)) sent

  -- Why it ends: of `n` requests the last is taken, all were sent, or the next could not be built.
  abbrev pub Ends : ℕ → ℕ → Log → Type 0
  Ends n t sent = (is_taken sent ≡ true) ⊎ (length sent ≡ n) ⊎ IsUnbuilt t sent

  -- What is sent for `body` from tick `t` on, in at most `n` requests, from the log `before` to the
  -- log `after`.
  pub record Sent (n t : ℕ) (before after : Log) : Type 0 where
    pub sent : Log
    pub added : after ≡ before ++ sent
    pub bounded : length sent ≤ n
    pub signed : AreSigned t sent
    pub retrying : is_retrying sent ≡ true
    pub ends : Ends n t sent

retrying-cons :
    (x : Delivery × DeliveryReply) (sent : Log)
    → goes_on x.1 ≡ true
    → is_retrying sent ≡ true
    → is_retrying (x ∷ sent) ≡ true
retrying-cons x [] h k = refl
retrying-cons x (y ∷ sent) h k = ground (arith, h, k)

taken-cons :
    (x : Delivery × DeliveryReply) (sent : Log) → is_taken sent ≡ true → is_taken (x ∷ sent) ≡ true
taken-cons x [] h = cc h
taken-cons x (y ∷ sent) h = h

module _ (env : Env) (url secret : String) (body : PspWebhookPayload) where
  Ends-cons :
      (n t : ℕ) (x : Delivery × DeliveryReply) (sent : Log)
      → Ends env url secret body n (suc (suc t)) sent
      → Ends env url secret body (suc n) t (x ∷ sent)
  Ends-cons n t x sent (inl taken) = inl (taken-cons x sent taken)
  Ends-cons n t x sent (inr (inl all)) = inr (inl (ap suc all))
  Ends-cons n t x sent (inr (inr unbuilt)) = inr (inr unbuilt)

  notification-IsSigned :
      (now : ℕ)
      → IsSigned env url secret body.event_id
          (env.encode_webhook body)
          now
          (notification env url secret body now)
  unfolding sign signed_payload decimal_ℤ
  notification-IsSigned now = record {
    url_is = refl;
    id_is = refl;
    timestamp_is = refl;
    signature_is = refl;
    body_is = refl;
  }

  none-Sent :
      (n t : ℕ) (before : Log)
      → Ends env url secret body n t []
      → Sent env url secret body n t before before
  none-Sent n t before ends = record {
    sent = [];
    added = sym (append-nil before);
    bounded = omega arith;
    signed = tt;
    retrying = refl;
    ends = ends;
  }

  module _ (n : ℕ) (before : Log) (t : ℕ) (reply : DeliveryReply)
      (got : env.deliver (suc t) (notification env url secret body (env.clock t)) ≡ reply) where
    abbrev logged : Delivery × DeliveryReply
    logged = (notification env url secret body (env.clock t), reply)

    last-Sent :
        goes_on reply ≡ false → Sent env url secret body (suc n) t before (insert logged before)
    last-Sent stop = record {
      sent = logged ∷ [];
      added = refl;
      bounded = omega arith;
      signed = (notification-IsSigned (env.clock t), sym got, tt);
      retrying = refl;
      ends = inl (ground (arith, stop));
    }

    next-Sent :
        (after : Log)
        → goes_on reply ≡ true
        → Sent env url secret body n (suc (suc t)) (insert logged before) after
        → Sent env url secret body (suc n) t before after
    next-Sent after more rest = record {
      sent = logged ∷ rest.sent;
      added = rest.added ∙ append_assoc before (logged ∷ []) rest.sent;
      bounded = omega (arith, rest.bounded);
      signed = (notification-IsSigned (env.clock t), sym got, rest.signed);
      retrying = retrying-cons logged rest.sent more rest.retrying;
      ends = Ends-cons n t logged rest.sent rest.ends;
    }

-- From the reply on, for the log after it and the rest of the loop.
reply-Sent :
    (env : Env) (url secret : String) (body : PspWebhookPayload) (n : ℕ) (before : Log) (t : ℕ)
    (reply : DeliveryReply) (rest : M (Unit {0})) (v : World)
    → env.deliver (suc t) (notification env url secret body (env.clock t)) ≡ reply
    → v.deliveries ≡ log_delivery reply (notification env url secret body (env.clock t)) before
    → Sent env url secret body n (suc (suc t)) v.deliveries (rest v).1.deliveries
    → Sent env url secret body
        (suc n)
        t
        before
        ((if goes_on reply then rest else pure tt) v).1.deliveries
unfolding log_delivery pure
reply-Sent env url secret body n before t (DeliveryReply.not_built text) rest v got logged later =
    subst (λ l. Sent env url secret body (suc n) t before l) (sym logged)
      (none-Sent env url secret body (suc n) t before
        (inr (inr (_, text, notification-IsSigned env url secret body (env.clock t), got))))
reply-Sent env url secret body n before t (DeliveryReply.failed text) rest v got logged later =
    next-Sent env url secret body n before t (DeliveryReply.failed text) got _ refl
      (subst (λ l. Sent env url secret body n (suc (suc t)) l (rest v).1.deliveries) logged later)
reply-Sent env url secret body n before t (DeliveryReply.answered code) rest v got logged later =
    elim (Bool-cases (leb 500 code)) [
      | inl more ↦ rw more (
          next-Sent env url secret body n before t (DeliveryReply.answered code) got _ more (
            subst (λ l. Sent env url secret body n (suc (suc t)) l (rest v).1.deliveries) logged
              later))
      | inr stop ↦ rw stop (
          subst (λ l. Sent env url secret body (suc n) t before l) (sym logged)
            (last-Sent env url secret body n before t (DeliveryReply.answered code) got stop))
    ]

attempts-Sent :
    (url secret : String) (body : PspWebhookPayload) (ds : List ℕ) (w : World)
    → Sent w.env url secret body
        (length ds)
        w.tick
        w.deliveries
        (attempts url secret body ds w).1.deliveries
unfolding attempts attempt post pure ◌>>=◌ asks time_now
attempts-Sent url secret body [] w =
    none-Sent w.env url secret body 0 w.tick w.deliveries (inr (inl refl))
attempts-Sent url secret body (d ∷ ds) w =
    reply-Sent w.env url secret body (length ds) w.deliveries w.tick _ (attempts url secret body ds)
      _ refl refl (attempts-Sent url secret body ds _)

-- The webhook of a charge that has succeeded, with a new id and what the charge says, is posted at
-- most three times, to `url`: each request has the same id and body and the timestamp of its own
-- reading of the clock, for which it is signed with `secret`. Every request but the last failed or was
-- answered with 500 or more; and the last was answered with less, or it was the third, or the one that
-- was to come after it could not be built.
pub notify_webhook-Sent :
    (url secret event_type : String) (req : ChargeRequest) (resp : ChargeResponse) (w : World)
    → Sent w.env url secret
        (record {
          event_id = event_id (w.env.uuid w.tick);
          event_type = event_type;
          psp_ref = resp.psp_ref;
          idempotency_key = req.idempotency_key;
          status = resp.status;
          code = resp.code;
        })
        3
        (suc w.tick)
        w.deliveries
        (notify_webhook url secret event_type req resp w).1.deliveries
unfolding notify_webhook new_uuid ◌>>=◌
notify_webhook-Sent url secret event_type req resp w = attempts-Sent url secret _ delays _
