-- ===== src/Webhook/Retry.antt =====
-- internal/webhook/retry.go. A Duration is a number of nanoseconds; counts of attempts are never
-- negative, so that `failedAttempts <= 0` is the test for zero.
pub mod Schedule
use dodo_payment_gateway.Base.{
  ℕ, zero, suc, ◌+◌, ◌-◌, ◌*◌, List, [], ◌∷◌, Option, none, some, ltb, leb, nat_eq, length,
  if◌then◌else◌,
}

abbrev pub second : ℕ
second = 1000000000

abbrev pub minute : ℕ
minute = 60 * second

abbrev pub hour : ℕ
hour = 60 * minute

abbrev pub max_attempts : ℕ
max_attempts = 8

abbrev pub attempt_timeout : ℕ
attempt_timeout = 5 * second

abbrev pub claim_batch_size : ℕ
claim_batch_size = 10

abbrev pub backoff_after_failure : List ℕ
backoff_after_failure =
    (5 * second)
    ∷ (25 * second)
    ∷ (2 * minute)
    ∷ (10 * minute)
    ∷ (30 * minute)
    ∷ (2 * hour)
    ∷ (6 * hour)
    ∷ []

-- `xs[i]`; the code reads within the bounds only.
abbrev pub get_or {ℓ} : {A : Type ℓ} → List A → ℕ → A → A
get_or [] i a = a
get_or (x ∷ xs) zero a = x
get_or (x ∷ xs) (suc i) a = get_or xs i a

-- `none` is the result false.
unfoldable pub next_retry_at : ℕ → ℕ → Option ℕ
next_retry_at failed_attempts now =
    if leb max_attempts failed_attempts
    then none
    else if nat_eq failed_attempts 0
    then some now
    else if ltb (length backoff_after_failure) failed_attempts
    then none
    else some (now + get_or backoff_after_failure (failed_attempts - 1) 0)
