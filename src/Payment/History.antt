-- ===== src/Payment/History.antt =====
-- How the tables may change: rows stay, an attempt and an invoice keep what was fixed when they were
-- created, a settled attempt and an idempotency key are final, and an invoice follows its lifecycle
-- (DESIGN.md, "Invoice State Machine").
pub mod Rows
pub mod Service
use dodo_payment_gateway.Base.{◌≡◌, ◌⊎◌, false, Bool, String, Option, none, some, find}
use dodo_payment_gateway.Model.{
  Invoice, InvoiceStatus, draft, open_status, paid, PaymentAttempt, is_pending, IdempotencyKey,
}
use dodo_payment_gateway.Store.{Db}
use dodo_payment_gateway.Repository.Invoices
use dodo_payment_gateway.Repository.PaymentAttempts
use dodo_payment_gateway.Repository.IdempotencyKeys

-- DRAFT → OPEN → PAID, also in one step; every other status is final.
abbrev pub Follows : InvoiceStatus → InvoiceStatus → Type 0
Follows draft t = (t ≡ draft) ⊎ ((t ≡ open_status) ⊎ (t ≡ paid))
Follows open_status t = (t ≡ open_status) ⊎ (t ≡ paid)
Follows s t = t ≡ s

abbrev pub InvoiceEvolves : Option Invoice → Option Invoice → Type 0
InvoiceEvolves none _ = Unit
InvoiceEvolves (some v) none = ⊥
InvoiceEvolves (some v) (some v') =
    (v'.business_id ≡ v.business_id)
    × (v'.customer_id ≡ v.customer_id)
    × (v'.currency ≡ v.currency)
    × (v'.amount ≡ v.amount)
    × Follows v.status v'.status

abbrev pub AttemptEvolves : Option PaymentAttempt → Option PaymentAttempt → Type 0
AttemptEvolves none _ = Unit
AttemptEvolves (some a) none = ⊥
AttemptEvolves (some a) (some a') =
    (a'.invoice_id ≡ a.invoice_id)
    × (a'.business_id ≡ a.business_id)
    × (a'.amount ≡ a.amount)
    × (a'.currency ≡ a.currency)
    × (is_pending a.status ≡ false → a' ≡ a)

abbrev pub KeyEvolves : Option IdempotencyKey → Option IdempotencyKey → Type 0
KeyEvolves none _ = Unit
KeyEvolves (some k) o = o ≡ some k

pub record Evolves (d d' : Db) : Type 0 where
  pub invoices :
      (id : String)
      → InvoiceEvolves
          (find (Invoices.has_id id) d.invoices)
          (find (Invoices.has_id id) d'.invoices)
  pub attempts :
      (id : String)
      → AttemptEvolves
          (find (PaymentAttempts.has_id id) d.payment_attempts)
          (find (PaymentAttempts.has_id id) d'.payment_attempts)
  pub keys :
      (b k : String)
      → KeyEvolves
          (find (IdempotencyKeys.has_key b k) d.idempotency_keys)
          (find (IdempotencyKeys.has_key b k) d'.idempotency_keys)
