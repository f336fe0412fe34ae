-- ===== src/Handlers.antt =====
-- internal/handler and internal/httperr: what a request is answered. A request whose JSON does not bind
-- is none; the context has the business that the middleware has found, if it has.
pub mod Payments
pub mod Invoices
pub mod Keys
pub mod Webhooks
pub mod Routes
pub mod Access
use dodo_payment_gateway.Base.{ℕ, String, Option, none, some, nat_eq, if◌then◌else◌}
use dodo_payment_gateway.Errors.{Error, Result, ok, err}
use dodo_payment_gateway.Store.{Env, World, M, pure, asks}
use dodo_payment_gateway.Psp.{error_text}

-- A status with a value, or with the text of an error.
pub data Answer (A : Type 0) : Type 0 where
  sent : ℕ → A → Answer A
  refused : ℕ → String → Answer A

module _ {A : Type 0} where
  abbrev pub bad_request : String → Answer A
  bad_request message = Answer.refused 400 message

  abbrev pub internal : Answer A
  internal = Answer.refused 500 "internal server error"

  -- The status with the error's text; 500 does not show it.
  abbrev pub refusal : ℕ → String → Answer A
  refusal status message = if nat_eq status 500 then internal else Answer.refused status message

  unfoldable pub require_business_id : Option String → (String → M (Answer A)) → M (Answer A)
  require_business_id none handler = pure (Answer.refused 401 "business context missing")
  require_business_id (some business_id) handler = handler business_id

  -- The value under `status`, or the error under the status that `status_of` gives it and its text.
  unfoldable pub answer : ℕ → (Error → String → ℕ) → Result A → M (Answer A)
  answer status status_of (ok a) = pure (Answer.sent status a)
  answer status status_of (err e) =
      asks (λ env. refusal (status_of e (error_text env e)) (error_text env e))
