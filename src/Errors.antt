-- ===== src/Errors.antt =====
-- The errors that the services return or inspect: the sentinel variables of internal/service,
-- internal/webhook and internal/psp, and what pgx reports.
use dodo_payment_gateway.Base.{ℕ, String, Bool, true, false}

pub data Error : Type 0 where
  -- pgx.ErrNoRows, code 23505, any other constraint, code 42883, and a failed or unacknowledged
  -- statement
  no_rows unique_violation constraint_violation undefined_operator connection_lost : Error
  -- internal/service/payment_service.go
  invoice_not_found invoice_not_owned invoice_already_paid invoice_void : Error
  invoice_uncollectible payment_in_progress idempotency_conflict : Error
  payment_attempt_not_found payment_attempt_not_owned : Error
  -- internal/webhook/signature.go
  invalid_signature replay : Error
  -- the checks of ProcessPSPWebhook
  invalid_request_body event_id_required event_type_required : Error
  -- internal/service/webhook_service.go
  webhook_url_required event_not_found event_not_owned : Error
  -- internal/service/api_key_service.go
  api_key_not_found api_key_not_owned api_key_revoked api_key_bootstrap business_not_found : Error
  -- internal/service/invoice_service.go
  amount_not_positive currency_required customer_not_found customer_not_owned : Error
  -- internal/middleware/auth.go: the answers 401
  missing_authorization invalid_authorization invalid_api_key : Error
  -- internal/psp: ErrTimeout, ErrUnavailable (also wrapped), and the two context errors
  psp_timeout psp_unavailable deadline_exceeded canceled : Error
  -- "psp rejected request: status %d"
  psp_rejected : ℕ → Error
  -- an HTTP request that could not be built, with its text
  bad_request : String → Error

pub data Result {ℓ} (A : Type ℓ) : Type ℓ where
  ok : A → Result A
  err : Error → Result A

abbrev pub is_ok {ℓ} : {A : Type ℓ} → Result A → Bool
is_ok (ok a) = true
is_ok (err e) = false

-- `errors.Is(err, pgx.ErrNoRows)`
abbrev pub is_no_rows : Error → Bool
is_no_rows no_rows = true
is_no_rows _ = false

-- `isUniqueViolation` of the payment service.
abbrev pub is_unique_violation : Error → Bool
is_unique_violation unique_violation = true
is_unique_violation _ = false
