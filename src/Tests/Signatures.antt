-- ===== src/Tests/Signatures.antt =====
-- Signatures and the retry schedule on concrete data.
use dodo_payment_gateway.Base.{◌+◌, ◌*◌, ◌≤◌, ◌<◌, ◌≡◌, ◌≢◌, ◌↔◌, refl, none, some, arith}
use dodo_payment_gateway.Base.Int.{pos}
use dodo_payment_gateway.Base.Decimal.{decimal_ℤ, parse_int}
use dodo_payment_gateway.Webhook.Retry.{second, max_attempts, hour, next_retry_at}
use dodo_payment_gateway.Webhook.Retry.Schedule.{due_after, retry_budget}
use dodo_payment_gateway.Webhook.Signature.{verify, sign, replay_window}
use dodo_payment_gateway.Webhook.Signature.Window.{verify-none_iff, verify_far_future}
use dodo_payment_gateway.Tests.{env}

retry_budget_example :
    ((7 < max_attempts) ↔ (next_retry_at 7 10 ≢ none))
    × ((10 ≤ 10 + 6 * hour) × (10 + 6 * hour ≤ 10 + 6 * hour))
    × (due_after 7 100 ≡ some 31350000000100)
    × (due_after 8 100 ≡ none)
unfolding next_retry_at
retry_budget_example = retry_budget 7 10 100

verify-none_iff_example : (verify env "secret" "event-1" "60" "v1=event-1.60.{}" "{}" 0 ≡ none) ↔ (
    (0 ≤ 60 * second + replay_window)
    × (60 * second ≤ 0 + replay_window)
    × (sign env "secret" "event-1" (pos 60) "{}" ≡ "v1=event-1.60.{}"))
unfolding parse_int
verify-none_iff_example =
    verify-none_iff env "secret" "event-1" "60" "v1=event-1.60.{}" "{}" 0 60 refl (omega arith)
      (omega arith)

verify_far_future_example :
    verify env "secret" "event-1" "10000000000" "v1=event-1.10000000000.{}" "{}" 0 ≡ none
unfolding parse_int sign decimal_ℤ
verify_far_future_example =
    verify_far_future env "secret" "event-1" "10000000000" "v1=event-1.10000000000.{}" "{}" 0
      10000000000 refl (omega arith) (omega arith) refl
