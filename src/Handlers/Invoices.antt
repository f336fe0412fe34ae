-- ===== src/Handlers/Invoices.antt =====
-- internal/handler/invoice_handler.go, customer_handler.go and business_handler.go.
use dodo_payment_gateway.Base.{ℕ, String, Option, none, some, ◌==◌, ◌||◌, if◌then◌else◌}
use dodo_payment_gateway.Base.Int.{ℤ}
use dodo_payment_gateway.Model.{Business, Customer, Invoice}
use dodo_payment_gateway.Errors.{Error}
use dodo_payment_gateway.Store.{M, ◌>>=◌, pure, try}
use dodo_payment_gateway.Accounts
use dodo_payment_gateway.Handlers.{Answer, bad_request, require_business_id, answer}

pub record CreateInvoiceRequest : Type 0 where
  pub customer_id : String
  pub currency : String
  pub amount : ℤ

-- The switch on err.Error().
abbrev pub create_error_status : Error → String → ℕ
create_error_status e message =
    if message == "business not found" || message == "customer not found"
    then 404
    else if message == "customer does not belong to business"
    then 403
    else if message == "amount must be greater than zero" || message == "currency is required"
    then 400
    else 500

unfoldable pub create_invoice : Option CreateInvoiceRequest → Option String → M (Answer Invoice)
unfolding require_business_id answer
create_invoice none context = pure (bad_request "customer_id, currency and amount are required")
create_invoice (some req) context = require_business_id context λ business_id. do
  created ← try (Accounts.create_invoice business_id req.customer_id req.currency req.amount)
  answer 201 create_error_status created

abbrev pub get_error_status : Error → String → ℕ
get_error_status e message =
    if message == "invoice not found"
    then 404
    else if message == "invoice does not belong to business"
    then 403
    else 500

unfoldable pub get_invoice : String → Option String → M (Answer Invoice)
unfolding require_business_id answer
get_invoice invoice_id context = require_business_id context λ business_id. do
  read ← try (Accounts.get_invoice business_id invoice_id)
  answer 200 get_error_status read

abbrev pub customer_error_status : Error → String → ℕ
customer_error_status e message = if message == "business not found" then 404 else 500

-- Of the JSON's name and email.
unfoldable pub create_customer : Option (String × String) → Option String → M (Answer Customer)
unfolding require_business_id answer
create_customer none context = pure (bad_request "name and a valid email are required")
create_customer (some (name, email)) context = require_business_id context λ business_id. do
  created ← try (Accounts.create_customer business_id name email)
  answer 201 customer_error_status created

-- Of the JSON's name.
unfoldable pub create_business : Option String → M (Answer Business)
unfolding answer
create_business none = pure (bad_request "name is required")
create_business (some name) = do
  created ← try (Accounts.create_business name)
  answer 201 (λ e message. 500) created
