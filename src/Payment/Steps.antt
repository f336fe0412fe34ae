-- ===== src/Payment/Steps.antt =====
-- Any number of calls of the payment service at once, as the database sees them: a sequence of
-- transactions and single statements of all of them, in any order. What a thread carries from one
-- to the next is an attempt it has read or created; `settles` may use one from any earlier world.
pub mod Service
use dodo_payment_gateway.Base.{ℕ, String, Option, none, some}
use dodo_payment_gateway.Model.{
  Invoice, PaymentAttempt, PaymentAttemptStatus, WebhookEvent, OutboundEvent,
}
use dodo_payment_gateway.Store.{World, ChargeRequest}
use dodo_payment_gateway.Repository.Invoices
use dodo_payment_gateway.Repository.PaymentAttempts
use dodo_payment_gateway.Repository.OutboundEvents
use dodo_payment_gateway.Repository.WebhookEvents
use dodo_payment_gateway.Psp.{send}
use dodo_payment_gateway.Payment.Settle.{persist_success}
use dodo_payment_gateway.Payment.Create.{create_pending_attempt}
use dodo_payment_gateway.Payment.Invariant.{Knows}

pub data Steps : World → World → Type 0 where
  starts : (w : World) → Steps w w
  -- time passes, or rows are read
  waits : {w v : World} → Steps w v → (n : ℕ) → Steps w (record v { tick = n })
  sends : {w v : World} → Steps w v → (req : ChargeRequest) → Steps w (send req v).1
  creates :
      {w v : World} → Steps w v → (b i k h : String) → Steps w (create_pending_attempt b i k h v).1
  settles :
      {w u v : World}
      → Steps w u
      → Steps u v
      → (a : PaymentAttempt) → Knows a u.db
      → (ref : String) → Steps w (persist_success a ref v).1
  fails :
      {w v : World}
      → Steps w v
      → (id code : String)
      → Steps w
          (PaymentAttempts.update_status_if_pending id PaymentAttemptStatus.failed none
            (some code)
            v).1
  enqueues : {w v : World} → Steps w v → (e : OutboundEvent) → Steps w (OutboundEvents.create e v).1
  records : {w v : World} → Steps w v → (e : WebhookEvent) → Steps w (WebhookEvents.create e v).1
  marks : {w v : World} → Steps w v → (id : String) → Steps w (WebhookEvents.mark_processed id v).1
  rejects : {w v : World} → Steps w v → (id : String) → Steps w (WebhookEvents.mark_failed id v).1
