-- ===== src/Payment/Reads.antt =====
-- GetPaymentAttempt of internal/service/payment_service.go.
use dodo_payment_gateway.Base.{suc, ◌≡◌, ◌↔◌, String, some, find, arith, eq_iff}
use dodo_payment_gateway.Model.{PaymentAttempt}
use dodo_payment_gateway.Errors.{ok}
use dodo_payment_gateway.Store.{World, Outcome, ◌>>=◌, pure, raise, statement, or_no_rows}
use dodo_payment_gateway.Repository.PaymentAttempts
use dodo_payment_gateway.Payment.Guards.{return_or}
use dodo_payment_gateway.Payment.Pay.{get_payment_attempt, check_attempt_owner}

-- From a database that answers, GetPaymentAttempt returns an attempt exactly to the business that owns
-- it.
pub get_payment_attempt-ok_iff :
    (business_id id : String) (a : PaymentAttempt) (w : World)
    → w.env.outcome w.tick ≡ Outcome.works
    → (get_payment_attempt business_id id w ≡ (ok a, record w { tick = suc w.tick })) ↔ (
        (find (PaymentAttempts.has_id id) w.db.payment_attempts ≡ some a)
        × (a.business_id ≡ business_id))
unfolding get_payment_attempt check_attempt_owner return_or PaymentAttempts.get_by_id statement
    or_no_rows ◌>>=◌ raise pure
get_payment_attempt-ok_iff business_id id a w o = ground (arith, eq_iff a.business_id business_id)
