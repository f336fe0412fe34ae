-- ===== src/Payment/Invariant.antt =====
-- What holds of the tables between any two transactions, and what a thread knows of an attempt that
-- it has read.
pub mod Rows
pub mod Settles
pub mod Bodies
pub mod Settlement
use dodo_payment_gateway.Base.{
  ◌≤◌, ◌<◌, ◌≡◌, String, Bool, true, false, not, ◌&&◌, ◌||◌, Option, none, some, List, ◌==◌, find,
  count,
}
use dodo_payment_gateway.Model.{
  Invoice, InvoiceStatus, is_draft_or_open, PaymentAttempt, is_pending, is_succeeded, OutboundEvent,
}
use dodo_payment_gateway.Store.{Db}
use dodo_payment_gateway.Repository.Invoices
use dodo_payment_gateway.Repository.PaymentAttempts
use dodo_payment_gateway.Repository.OutboundEvents

abbrev pub is_succeeded_of : String → PaymentAttempt → Bool
is_succeeded_of invoice_id a = a.invoice_id == invoice_id && is_succeeded a.status

-- The attempts that hold an invoice: PENDING or SUCCEEDED.
abbrev pub is_live_of : String → PaymentAttempt → Bool
is_live_of invoice_id a =
    a.invoice_id == invoice_id && (is_pending a.status || is_succeeded a.status)

-- The invoice exists and can no longer be paid.
abbrev pub is_closed_row : Option Invoice → Bool
is_closed_row none = false
is_closed_row (some v) = not (is_draft_or_open v.status)

abbrev pub is_closed : String → List Invoice → Bool
is_closed id invoices = is_closed_row (find (Invoices.has_id id) invoices)

pub record Inv (d : Db) : Type 0 where
  pub ids : (id : String) → count (PaymentAttempts.has_id id) d.payment_attempts ≤ 1
  pub one_live : (i : String) → count (is_live_of i) d.payment_attempts ≤ 1
  pub closed :
      (i : String)
      → 0 < count (is_succeeded_of i) d.payment_attempts
      → is_closed i d.invoices ≡ true
  pub one_event : (t s : String) → count (OutboundEvents.has_source t s) d.outbound_events ≤ 1

-- The columns of an attempt that no statement changes.
abbrev pub IsSameAttempt : PaymentAttempt → Option PaymentAttempt → Type 0
IsSameAttempt a none = ⊥
IsSameAttempt a (some r) =
    (r.invoice_id ≡ a.invoice_id)
    × (r.business_id ≡ a.business_id)
    × (r.amount ≡ a.amount)
    × (r.currency ≡ a.currency)

-- The attempt in memory is that of a row.
abbrev pub Knows : PaymentAttempt → Db → Type 0
Knows a d = IsSameAttempt a (find (PaymentAttempts.has_id a.id) d.payment_attempts)
