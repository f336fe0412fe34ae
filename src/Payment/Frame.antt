-- ===== src/Payment/Frame.antt =====
-- The payment service seen as its single effects: a property of the world that each of them keeps is
-- kept by every operation of the service, whatever fails on the way.
use dodo_payment_gateway.Base.{leb, String, Bool, true, false, Option, none, some, ◌==◌}
use dodo_payment_gateway.Model.{
  is_succeeded, is_processed, PaymentAttempt, PaymentAttemptStatus, WebhookEvent, OutboundEvent,
  event_type_payment_succeeded, event_type_payment_failed,
}
use dodo_payment_gateway.Errors.{Error, Result, ok, err, is_unique_violation}
use dodo_payment_gateway.Store.{
  World, M, ◌>>◌, pure, transaction, PspWebhookPayload, ChargeResponse, HttpReply,
}
use dodo_payment_gateway.Store.Keeps.{
  Keeps, IsTimeless, Keeps-pure, Keeps-raise, Keeps-if, Keeps-try, Keeps-bind, Keeps-asks,
  Keeps-new_uuid, Keeps-time_now,
}
use dodo_payment_gateway.Repository.Invoices
use dodo_payment_gateway.Repository.PaymentAttempts
use dodo_payment_gateway.Repository.WebhookEvents
use dodo_payment_gateway.Repository.OutboundEvents
use dodo_payment_gateway.Psp.{read_reply, or_unavailable, is_unknown_outcome}
use dodo_payment_gateway.Payment.Guards.{raise_if, raise_some}
use dodo_payment_gateway.Payment.Settle.{
  enqueue_outbound_event, outbound_event, as_succeeded, as_failed, settle_paid, settle_existing,
  settle_updated, success_body, persist_success, fail_updated, persist_failure, code_or_declined,
  settle,
}
use dodo_payment_gateway.Payment.PspWebhook.{
  says_succeeded, says_failed, settle_webhook, settle_known, apply_webhook, mark_applied,
  apply_and_mark, apply_existing, apply_recorded, new_event, process_body, or_invalid,
  process_psp_webhook,
}

-- What settling an attempt does to the world.
pub record Settling (P : World → Type 0) : Type 1 where
  pub timeless : IsTimeless P
  pub transact : {A : Type 0} (m : M A) → Keeps P m → Keeps P (transaction m)
  pub lock : (i : String) → Keeps P (Invoices.get_by_id_for_update i)
  pub mark_paid : (i : String) → Keeps P (Invoices.mark_paid_if_open i)
  pub read : (i : String) → Keeps P (PaymentAttempts.get_by_id i)
  pub update :
      (i : String) (s : PaymentAttemptStatus) (ref code : Option String)
      → Keeps P (PaymentAttempts.update_status_if_pending i s ref code)
  pub enqueue : (e : OutboundEvent) → Keeps P (OutboundEvents.create e)

module _ {P : World → Type 0} (f : Settling P) where
  enqueue-Keeps : (a : PaymentAttempt) (t : String) → Keeps P (enqueue_outbound_event a t >> pure a)
  unfolding enqueue_outbound_event
  enqueue-Keeps a t =
      Keeps-bind
        (Keeps-bind (Keeps-new_uuid f.timeless)
          λ id. Keeps-bind (Keeps-time_now f.timeless) λ now. f.enqueue (outbound_event a t id now))
        (λ _. Keeps-pure a)

  settle_paid-Keeps : (a : PaymentAttempt) (ref : String) → Keeps P (settle_paid a ref)
  unfolding settle_paid
  settle_paid-Keeps a ref =
      Keeps-bind (f.mark_paid a.invoice_id)
        (λ _. enqueue-Keeps (as_succeeded a ref) event_type_payment_succeeded)

  settle_existing-Keeps : (ref : String) (a : PaymentAttempt) → Keeps P (settle_existing ref a)
  unfolding settle_existing
  settle_existing-Keeps ref a =
      Keeps-if (is_succeeded a.status) (λ _. settle_paid-Keeps a ref) (λ _. Keeps-pure a)

  success_body-Keeps : (a : PaymentAttempt) (ref : String) → Keeps P (success_body a ref)
  unfolding success_body settle_updated
  success_body-Keeps a ref = Keeps-bind (f.lock a.invoice_id) λ _.
      Keeps-bind (f.update a.id PaymentAttemptStatus.succeeded (some ref) none) λ updated.
        Keeps-if updated (λ _. settle_paid-Keeps a ref)
          (λ _. Keeps-bind (f.read a.id) (settle_existing-Keeps ref))

  pub persist_success-Keeps : (a : PaymentAttempt) (ref : String) → Keeps P (persist_success a ref)
  unfolding persist_success
  persist_success-Keeps a ref = f.transact (success_body a ref) (success_body-Keeps a ref)

  pub persist_failure-Keeps :
      (a : PaymentAttempt) (code : String) → Keeps P (persist_failure a code)
  unfolding persist_failure fail_updated
  persist_failure-Keeps a code =
      Keeps-bind (f.update a.id PaymentAttemptStatus.failed none (some code)) λ updated.
        Keeps-if updated (λ _. enqueue-Keeps (as_failed a code) event_type_payment_failed)
          (λ _. f.read a.id)

  pub settle-Keeps : (a : PaymentAttempt) (r : Result ChargeResponse) → Keeps P (settle a r)
  unfolding settle
  settle-Keeps a (err e) =
      Keeps-if (is_unknown_outcome e) (λ _. Keeps-pure a)
        (λ _. Keeps-bind (Keeps-asks _) (persist_failure-Keeps a))
  settle-Keeps a (ok response) =
      Keeps-if (response.status == "succeeded") (λ _. persist_success-Keeps a response.psp_ref)
        (λ _. persist_failure-Keeps a (code_or_declined response.code))

  settle_webhook-Keeps :
      (body : PspWebhookPayload) (a : PaymentAttempt) → Keeps P (settle_webhook body a)
  unfolding settle_webhook
  settle_webhook-Keeps body a =
      Keeps-if (says_succeeded body)
        (λ _. Keeps-bind (persist_success-Keeps a body.psp_ref) (λ _. Keeps-pure tt))
        (λ _.
          Keeps-if (says_failed body)
            (λ _.
              Keeps-bind (persist_failure-Keeps a (code_or_declined body.code))
                (λ _. Keeps-pure tt))
            (λ _. Keeps-pure tt))

  settle_known-Keeps :
      (body : PspWebhookPayload) (r : Result PaymentAttempt) → Keeps P (settle_known body r)
  unfolding settle_known
  settle_known-Keeps body (ok a) = settle_webhook-Keeps body a
  settle_known-Keeps body (err e) = Keeps-pure tt

  pub apply_webhook-Keeps : (body : PspWebhookPayload) → Keeps P (apply_webhook body)
  unfolding apply_webhook
  apply_webhook-Keeps body =
      Keeps-if (body.idempotency_key == "") (λ _. Keeps-pure tt)
        (λ _. Keeps-bind (Keeps-try (f.read body.idempotency_key)) (settle_known-Keeps body))

module _ {P : World → Type 0} where
  or_unavailable-Keeps : (o : Option ChargeResponse) → Keeps P (or_unavailable o)
  unfolding or_unavailable
  or_unavailable-Keeps none = Keeps-raise _
  or_unavailable-Keeps (some r) = Keeps-pure r

  pub read_reply-Keeps : (r : HttpReply) → Keeps P (read_reply r)
  unfolding read_reply
  read_reply-Keeps (HttpReply.not_built text) = Keeps-raise _
  read_reply-Keeps HttpReply.timed_out = Keeps-raise _
  read_reply-Keeps HttpReply.disconnected = Keeps-raise _
  read_reply-Keeps (HttpReply.answered code body) =
      Keeps-if (leb 500 code) (λ _. Keeps-raise _)
        (λ _.
          Keeps-if (leb 400 code) (λ _. Keeps-raise _)
            (λ _. Keeps-bind (Keeps-asks _) or_unavailable-Keeps))

  pub raise_if-Keeps : (b : Bool) (e : Error) → Keeps P (raise_if b e)
  unfolding raise_if
  raise_if-Keeps true e = Keeps-raise e
  raise_if-Keeps false e = Keeps-pure tt

  pub raise_some-Keeps : (o : Option Error) → Keeps P (raise_some o)
  unfolding raise_some
  raise_some-Keeps none = Keeps-pure tt
  raise_some-Keeps (some e) = Keeps-raise e

-- What receiving a webhook does beside settling the attempt.
pub record Receiving (P : World → Type 0) : Type 1 where
  pub timeless : IsTimeless P
  pub apply : (body : PspWebhookPayload) → Keeps P (apply_webhook body)
  pub record_event : (e : WebhookEvent) → Keeps P (WebhookEvents.create e)
  pub find_event : (i : String) → Keeps P (WebhookEvents.get_by_event_id i)
  pub mark_processed : (i : String) → Keeps P (WebhookEvents.mark_processed i)
  pub mark_failed : (i : String) → Keeps P (WebhookEvents.mark_failed i)

module _ {P : World → Type 0} (f : Receiving P) where
  mark_applied-Keeps : (i : String) (r : Result (Unit {0})) → Keeps P (mark_applied i r)
  unfolding mark_applied
  mark_applied-Keeps i (ok _) = f.mark_processed i
  mark_applied-Keeps i (err e) = Keeps-bind (Keeps-try (f.mark_failed i)) (λ _. Keeps-raise e)

  apply_and_mark-Keeps : (body : PspWebhookPayload) (i : String) → Keeps P (apply_and_mark body i)
  unfolding apply_and_mark
  apply_and_mark-Keeps body i = Keeps-bind (Keeps-try (f.apply body)) (mark_applied-Keeps i)

  apply_existing-Keeps :
      (body : PspWebhookPayload) (e : WebhookEvent) → Keeps P (apply_existing body e)
  unfolding apply_existing
  apply_existing-Keeps body e =
      Keeps-if (is_processed e.status) (λ _. Keeps-pure tt) (λ _. apply_and_mark-Keeps body e.id)

  apply_recorded-Keeps :
      (body : PspWebhookPayload) (i : String) (r : Result WebhookEvent)
      → Keeps P (apply_recorded body i r)
  unfolding apply_recorded
  apply_recorded-Keeps body i (ok e) = apply_and_mark-Keeps body i
  apply_recorded-Keeps body i (err e) =
      Keeps-if (is_unique_violation e)
        (λ _. Keeps-bind (f.find_event body.event_id) (apply_existing-Keeps body))
        (λ _. Keeps-raise e)

  or_invalid-Keeps : (o : Option PspWebhookPayload) → Keeps P (or_invalid o)
  unfolding or_invalid
  or_invalid-Keeps none = Keeps-raise _
  or_invalid-Keeps (some b) = Keeps-pure b

  process_body-Keeps : (body : PspWebhookPayload) (p : String) → Keeps P (process_body body p)
  unfolding process_body
  process_body-Keeps body p = Keeps-bind (raise_if-Keeps _ _) λ _.
      Keeps-bind (raise_if-Keeps _ _) λ _. Keeps-bind (Keeps-new_uuid f.timeless) λ id.
        Keeps-bind (Keeps-try (f.record_event (new_event body p id))) (apply_recorded-Keeps body id)

  -- ProcessPSPWebhook as a whole.
  pub process_psp_webhook-Keeps :
      (secret payload event_id timestamp signature : String)
      → Keeps P (process_psp_webhook secret payload event_id timestamp signature)
  unfolding process_psp_webhook
  process_psp_webhook-Keeps secret payload event_id timestamp signature =
      Keeps-bind (Keeps-time_now f.timeless) λ now. Keeps-bind (Keeps-asks _) λ verified.
        Keeps-bind (raise_some-Keeps verified) λ _.
          Keeps-bind (Keeps-asks _)
            λ decoded. Keeps-bind (or_invalid-Keeps decoded) λ body. process_body-Keeps body payload
