-- ===== src/Payment/Create.antt =====
-- internal/service/payment_service.go: createPendingAttempt.
use dodo_payment_gateway.Base.{String, not, none, some, ◌==◌, if◌then◌else◌}
use dodo_payment_gateway.Model.{
  Invoice, open_status, is_draft, PaymentAttempt, PaymentAttemptStatus, IdempotencyKey,
}
use dodo_payment_gateway.Errors.{
  Error, Result, ok, err, is_no_rows, is_unique_violation, invoice_not_found, invoice_not_owned,
  payment_in_progress,
}
use dodo_payment_gateway.Store.{M, ◌>>=◌, ◌>>◌, pure, raise, try, transaction, new_uuid}
use dodo_payment_gateway.Repository.Invoices
use dodo_payment_gateway.Repository.PaymentAttempts
use dodo_payment_gateway.Repository.IdempotencyKeys
use dodo_payment_gateway.Payment.Guards.{payable_invoice, raise_some, raise_if, return_or}

-- The attempt and the key as they are built; the database sets their times.
abbrev pub new_attempt : Invoice → String → String → PaymentAttempt
new_attempt invoice business_id id = record {
  id = id;
  invoice_id = invoice.id;
  business_id = business_id;
  amount = invoice.amount;
  currency = invoice.currency;
  status = PaymentAttemptStatus.pending;
  psp_transaction_id = none;
  failure_code = none;
  created_at = 0;
  updated_at = 0;
}

abbrev pub new_key : Invoice → String → String → String → String → String → IdempotencyKey
new_key invoice business_id idempotency_key request_hash attempt_id id = record {
  id = id;
  business_id = business_id;
  idempotency_key = idempotency_key;
  invoice_id = invoice.id;
  request_hash = request_hash;
  payment_attempt_id = some attempt_id;
  created_at = 0;
}

unfoldable pub open_draft : Invoice → M (Unit {0})
open_draft invoice =
    if is_draft invoice.status then Invoices.update_status invoice.id open_status else pure tt

-- A pending attempt stands in the way; that there is none is what `ErrNoRows` says.
unfoldable pub none_pending : Result PaymentAttempt → M (Unit {0})
none_pending (ok _) = raise payment_in_progress
none_pending (err e) = if is_no_rows e then pure tt else raise e

abbrev pub in_progress : Error → Error
in_progress e = if is_unique_violation e then payment_in_progress else e

unfoldable pub insert_pending : Invoice → String → String → String → M PaymentAttempt
unfolding none_pending return_or
insert_pending invoice business_id idempotency_key request_hash = do
  attempt_id ← new_uuid
  key_id ← new_uuid
  IdempotencyKeys.create
      (new_key invoice business_id idempotency_key request_hash attempt_id key_id)
  pending ← try (PaymentAttempts.get_pending_by_invoice_id invoice.id)
  none_pending pending
  created ← try (PaymentAttempts.create (new_attempt invoice business_id attempt_id))
  return_or in_progress created

unfoldable pub create_body : String → String → String → String → M PaymentAttempt
unfolding insert_pending open_draft
create_body business_id invoice_id idempotency_key request_hash = do
  read ← try (Invoices.get_by_id_for_update invoice_id)
  invoice ← return_or (λ _. invoice_not_found) read
  raise_if (not (invoice.business_id == business_id)) invoice_not_owned
  raise_some (payable_invoice invoice.status)
  open_draft invoice
  insert_pending invoice business_id idempotency_key request_hash

unfoldable pub create_pending_attempt : String → String → String → String → M PaymentAttempt
unfolding create_body
create_pending_attempt business_id invoice_id idempotency_key request_hash =
    transaction (create_body business_id invoice_id idempotency_key request_hash)
