-- ===== src/Payment/Steps/Service.antt =====
-- PayInvoice and ProcessPSPWebhook make only such steps.
use dodo_payment_gateway.Base.{◌≡◌, subst, String, ◌==◌, Bool-cases, inl, inr}
use dodo_payment_gateway.Model.{PaymentAttempt, event_type_payment_failed}
use dodo_payment_gateway.Errors.{Result, ok, err}
use dodo_payment_gateway.Store.{World, try, ChargeRequest, ChargeResponse, PspWebhookPayload}
use dodo_payment_gateway.Store.Laws.{try-ok}
use dodo_payment_gateway.Store.Keeps.{
  Keeps, Keeps-pure, Keeps-if, Keeps-try, Keeps-bind, Keeps-asks, bind_keeps, bind_keeps_ok,
  Keeps-statement, Keeps-new_uuid, Keeps-time_now,
}
use dodo_payment_gateway.Repository.PaymentAttempts
use dodo_payment_gateway.Repository.IdempotencyKeys
use dodo_payment_gateway.Repository.WebhookEvents
use dodo_payment_gateway.Psp.{charge, is_unknown_outcome}
use dodo_payment_gateway.Payment.Settle.{
  persist_failure, fail_updated, settle, charge_and_settle, code_or_declined,
  enqueue_outbound_event, outbound_event, as_failed,
}
use dodo_payment_gateway.Payment.Pay.{pay_invoice}
use dodo_payment_gateway.Payment.PspWebhook.{
  says_succeeded, says_failed, settle_webhook, settle_known, apply_webhook, process_psp_webhook,
}
use dodo_payment_gateway.Payment.Invariant.{Knows}
use dodo_payment_gateway.Payment.Frame.{read_reply-Keeps, Receiving, process_psp_webhook-Keeps}
use dodo_payment_gateway.Payment.Runs.{Run, pay_invoice-Ends, read-Knows}
use dodo_payment_gateway.Payment.Charges.{process_psp_webhook-charges}
use dodo_payment_gateway.Payment.Steps.{
  Steps, starts, waits, sends, creates, settles, fails, enqueues, records, marks, rejects,
}

module _ (s : World) where
  abbrev Made : World → Type 0
  Made = Steps s

  read-Steps : (id : String) → Keeps Made (PaymentAttempts.get_by_id id)
  unfolding PaymentAttempts.get_by_id
  read-Steps id = Keeps-statement _ (λ w n h. waits h n) (λ n w h. h)

  look_up-Steps : (b k : String) → Keeps Made (IdempotencyKeys.get_by_key b k)
  unfolding IdempotencyKeys.get_by_key
  look_up-Steps b k = Keeps-statement _ (λ w n h. waits h n) (λ n w h. h)

  enqueue-Steps : (a : PaymentAttempt) (t : String) → Keeps Made (enqueue_outbound_event a t)
  unfolding enqueue_outbound_event
  enqueue-Steps a t = Keeps-bind (Keeps-new_uuid (λ w n h. waits h n)) λ id.
      Keeps-bind (Keeps-time_now (λ w n h. waits h n))
        λ now. record { at = λ w h. enqueues h (outbound_event a t id now) }

  persist_failure-Steps : (a : PaymentAttempt) (code : String) → Keeps Made (persist_failure a code)
  unfolding persist_failure fail_updated
  persist_failure-Steps a code =
      Keeps-bind (record { at = λ w h. fails h a.id code })
        λ updated.
          Keeps-if updated
            (λ _.
              Keeps-bind (enqueue-Steps (as_failed a code) event_type_payment_failed)
                (λ _. Keeps-pure _))
            (λ _. read-Steps a.id)

  settle-Steps :
      (u : World) (a : PaymentAttempt) (r : Result ChargeResponse) (v : World)
      → Made u
      → Knows a u.db
      → Steps u v
      → Made v
      → Made (settle a r v).1
  unfolding settle
  settle-Steps u a (err e) v before k after h =
      (Keeps-if (is_unknown_outcome e) (λ _. Keeps-pure a)
          (λ _. Keeps-bind (Keeps-asks _) (persist_failure-Steps a))).at
        v h
  settle-Steps u a (ok response) v before k after h =
      elim (Bool-cases (response.status == "succeeded")) [
        | inl yes_paid ↦ rw yes_paid (settles before after a k response.psp_ref)
        | inr declined ↦
            rw declined ((persist_failure-Steps a (code_or_declined response.code)).at v h)
      ]

charge-Steps : (s : World) (req : ChargeRequest) → Keeps (Made s) (charge req)
unfolding charge
charge-Steps s req = Keeps-bind (record { at = λ w h. sends h req }) read_reply-Keeps

module _ (s : World) where
  charge_and_settle-Steps :
      (a : PaymentAttempt) (token : String) (w : World)
      → Made s w
      → Knows a w.db
      → Made s (charge_and_settle a token w).1
  unfolding charge_and_settle
  charge_and_settle-Steps a token w h k =
      bind_keeps_ok (Made s) _ _ w ((Keeps-try (charge-Steps s request)).at w h) λ r u e.
        settle-Steps s w a r u h k
          (subst (λ (x : Result _ × World). Steps w x.1) e
            ((Keeps-try (charge-Steps w request)).at w (starts w)))
          (subst (λ (x : Result _ × World). Made s x.1) e
            ((Keeps-try (charge-Steps s request)).at w h))
    where
      request : ChargeRequest
      request = record {
        amount = a.amount;
        currency = a.currency;
        card_token = token;
        idempotency_key = a.id;
      }

  paying : Run (Made s) (Made s)
  paying = record {
    weaken = λ w h. h;
    look_up = look_up-Steps s;
    read = read-Steps s;
    begin_attempt = λ b i k h. record { at = λ w made. creates made b i k h };
    charge = charge_and_settle-Steps;
  }

  settle_webhook-Steps :
      (body : PspWebhookPayload) (a : PaymentAttempt) (w : World)
      → Made s w
      → Knows a w.db
      → Made s (settle_webhook body a w).1
  unfolding settle_webhook
  settle_webhook-Steps body a w h k = elim (Bool-cases (says_succeeded body)) [
    | inl paid ↦
        rw paid (
          bind_keeps {P = Made s} _ _ w (settles h (starts w) a k body.psp_ref)
            (λ _. Keeps-pure tt))
    | inr unpaid ↦ rw unpaid (
        (Keeps-if (says_failed body)
            (λ _.
              Keeps-bind (persist_failure-Steps s a (code_or_declined body.code))
                (λ _. Keeps-pure tt))
            (λ _. Keeps-pure tt)).at
          w h)
  ]

  known-Steps :
      (body : PspWebhookPayload) (id : String) (w u : World) (r : Result PaymentAttempt)
      → Made s u
      → PaymentAttempts.get_by_id id w ≡ (r, u)
      → Made s (settle_known body r u).1
  unfolding settle_known
  known-Steps body id w u (ok a) h e = settle_webhook-Steps body a u h (read-Knows id w e)
  known-Steps body id w u (err e') h e = (Keeps-pure {P = Made s} tt).at u h

  apply_webhook-Steps : (body : PspWebhookPayload) → Keeps (Made s) (apply_webhook body)
  unfolding apply_webhook
  apply_webhook-Steps body =
      Keeps-if (body.idempotency_key == "") (λ _. Keeps-pure tt)
        (λ _. record {
          at = λ w h. bind_keeps_ok (Made s) _ _ w (read.at w h) λ r u e.
              known-Steps body body.idempotency_key w u r
                (subst (λ (x : Result (Result PaymentAttempt) × World). Made s x.1) e (read.at w h))
                (try-ok _ w e);
        })
    where
      read : Keeps (Made s) (try (PaymentAttempts.get_by_id body.idempotency_key))
      read = Keeps-try (read-Steps s body.idempotency_key)

  receiving : Receiving (Made s)
  unfolding WebhookEvents.get_by_event_id
  receiving = record {
    timeless = λ w n h. waits h n;
    apply = apply_webhook-Steps;
    record_event = λ e. record { at = λ w h. records h e };
    find_event = λ i. Keeps-statement _ (λ w n h. waits h n) (λ n w h. h);
    mark_processed = λ i. record { at = λ w h. marks h i };
    mark_failed = λ i. record { at = λ w h. rejects h i };
  }

-- What PayInvoice does, whatever fails, is a sequence of the steps of `Steps`: an attempt that it
-- settles by success is one whose row it has read or created before.
pub pay_invoice-Steps : (b i k token : String) (w : World) → Steps w (pay_invoice b i k token w).1
pay_invoice-Steps b i k token w = pay_invoice-Ends (paying w) b i k token w (starts w)

-- What ProcessPSPWebhook does, whatever fails, is a sequence of the steps of `Steps`.
process_psp_webhook-Steps :
    (secret payload event_id timestamp signature : String) (w : World)
    → Steps w (process_psp_webhook secret payload event_id timestamp signature w).1
process_psp_webhook-Steps secret payload event_id timestamp signature w =
    (process_psp_webhook-Keeps (receiving w) secret payload event_id timestamp signature).at w
      (starts w)

-- What PayInvoice and ProcessPSPWebhook do, whatever fails, are sequences of the steps of `Steps`, in
-- which an attempt that is settled by success is one whose row has been read or created before; and a
-- webhook of the card processor sends it nothing.
pub pay_and_receive-Steps :
    (b i k token secret payload event_id timestamp signature : String) (w : World)
    → Steps w (pay_invoice b i k token w).1
      × Steps w (process_psp_webhook secret payload event_id timestamp signature w).1
      × ((process_psp_webhook secret payload event_id timestamp signature w).1.charges ≡ w.charges)
pay_and_receive-Steps b i k token secret payload event_id timestamp signature w = (
  pay_invoice-Steps b i k token w,
  process_psp_webhook-Steps secret payload event_id timestamp signature w,
  process_psp_webhook-charges secret payload event_id timestamp signature w,
)
