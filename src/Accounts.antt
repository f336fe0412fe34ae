-- ===== src/Accounts.antt =====
-- internal/service/business_service.go, customer_service.go and invoice_service.go.
pub mod Invoicing
use Prim.Native.String.{◌++◌}
use dodo_payment_gateway.Base.{
  ℕ, String, Bool, true, false, Option, none, some, ◌==◌, if◌then◌else◌, not,
}
use dodo_payment_gateway.Base.Int.{ℤ, pos, ltb_ℤ}
use dodo_payment_gateway.Base.Trim.{trim_space, map_text}
use dodo_payment_gateway.Model.{Business, Customer, Invoice, draft}
use dodo_payment_gateway.Errors.{
  Error, Result, ok, err, business_not_found, amount_not_positive, currency_required,
  customer_not_found, customer_not_owned, invoice_not_found, invoice_not_owned,
}
use dodo_payment_gateway.Store.{World, M, ◌>>=◌, ◌>>◌, pure, raise, try, asks, new_uuid, new_random}
use dodo_payment_gateway.Repository.Businesses
use dodo_payment_gateway.Repository.Customers
use dodo_payment_gateway.Repository.Invoices
use dodo_payment_gateway.Payment.Guards.{raise_if, return_or}

-- NewSecret of internal/webhook/signature.go.
unfoldable pub new_secret : M String
new_secret = do bytes ← new_random; pure ("whsec_" ++ bytes)

unfoldable pub create_business : String → M Business
unfolding new_secret
create_business name = do
  id ← new_uuid
  secret ← new_secret
  Businesses.create
      (record { id = id; name = name; webhook_url = none; webhook_secret = secret; created_at = 0 })

unfoldable pub create_customer : String → String → String → M Customer
create_customer business_id name email = do
  exists ← Businesses.exists business_id
  raise_if (not exists) business_not_found
  id ← new_uuid
  Customers.create
      (record { id = id; business_id = business_id; name = name; email = email; created_at = 0 })

abbrev pub draft_invoice : String → String → String → String → ℤ → Invoice
draft_invoice id business_id customer_id currency amount = record {
  id = id;
  business_id = business_id;
  customer_id = customer_id;
  currency = currency;
  amount = amount;
  status = draft;
  created_at = 0;
  updated_at = 0;
}

-- From its third check on, for the normalised currency.
unfoldable pub create_checked_invoice : String → String → String → ℤ → M Invoice
create_checked_invoice business_id customer_id currency amount = do
  business_exists ← Businesses.exists business_id
  raise_if (not business_exists) business_not_found
  read ← try (Customers.get_by_id customer_id)
  customer ← return_or (λ e. customer_not_found) read
  raise_if (not (customer.business_id == business_id)) customer_not_owned
  id ← new_uuid
  Invoices.create (draft_invoice id business_id customer_id currency amount)

unfoldable pub create_invoice : String → String → String → ℤ → M Invoice
unfolding trim_space map_text create_checked_invoice
create_invoice business_id customer_id currency amount = do
  raise_if (not (ltb_ℤ (pos 0) amount)) amount_not_positive
  normalized ← asks (λ env. map_text env.to_upper (trim_space env.is_space currency))
  raise_if (normalized == "") currency_required
  create_checked_invoice business_id customer_id normalized amount

unfoldable pub check_invoice_owner : String → Invoice → M Invoice
check_invoice_owner business_id invoice =
    if invoice.business_id == business_id then pure invoice else raise invoice_not_owned

unfoldable pub get_invoice : String → String → M Invoice
unfolding check_invoice_owner
get_invoice business_id invoice_id = do
  read ← try (Invoices.get_by_id invoice_id)
  invoice ← return_or (λ e. invoice_not_found) read
  check_invoice_owner business_id invoice
