-- ===== src/Webhook/Retry/Schedule.antt =====
-- The schedule as a whole: when a delivery is retried, for how long, and when it is given up.
use dodo_payment_gateway.Base.{
  ℕ, zero, suc, ◌+◌, ◌*◌, ◌≤◌, ◌<◌, ◌≡◌, ◌≢◌, ◌↔◌, refl, ap, Option, none, some, arith,
}
use dodo_payment_gateway.Webhook.Retry.{next_retry_at, max_attempts, second, minute, hour}

-- The time of the next attempt, if every attempt fails at once when it is due: `k` failures from
-- the first try at `start` on; `none` once an attempt has no successor.
unfoldable pub due_after : ℕ → ℕ → Option ℕ
due_after zero start = some start
due_after (suc k) start = elim (due_after k start) [
  | none ↦ none
  | some at ↦ next_retry_at (suc k) at
]

-- A failed delivery is tried again exactly when fewer than eight attempts have failed.
pub next_retry_at-some_iff : (n now : ℕ) → (n < max_attempts) ↔ (next_retry_at n now ≢ none)
unfolding next_retry_at
next_retry_at-some_iff zero now = ground arith
next_retry_at-some_iff (suc zero) now = ground arith
next_retry_at-some_iff (suc (suc zero)) now = ground arith
next_retry_at-some_iff (suc (suc (suc zero))) now = ground arith
next_retry_at-some_iff (suc (suc (suc (suc zero)))) now = ground arith
next_retry_at-some_iff (suc (suc (suc (suc (suc zero))))) now = ground arith
next_retry_at-some_iff (suc (suc (suc (suc (suc (suc zero)))))) now = ground arith
next_retry_at-some_iff (suc (suc (suc (suc (suc (suc (suc zero))))))) now = ground arith
next_retry_at-some_iff (suc (suc (suc (suc (suc (suc (suc (suc n)))))))) now = ground arith

-- The next attempt is never before now, and at most six hours later.
next_retry_at_bounds :
    (n now at : ℕ) → next_retry_at n now ≡ some at → (now ≤ at) × (at ≤ now + 6 * hour)
unfolding next_retry_at
next_retry_at_bounds zero now at h = ground arith
next_retry_at_bounds (suc zero) now at h = ground arith
next_retry_at_bounds (suc (suc zero)) now at h = ground arith
next_retry_at_bounds (suc (suc (suc zero))) now at h = ground arith
next_retry_at_bounds (suc (suc (suc (suc zero)))) now at h = ground arith
next_retry_at_bounds (suc (suc (suc (suc (suc zero))))) now at h = ground arith
next_retry_at_bounds (suc (suc (suc (suc (suc (suc zero)))))) now at h = ground arith
next_retry_at_bounds (suc (suc (suc (suc (suc (suc (suc zero))))))) now at h = ground arith
next_retry_at_bounds (suc (suc (suc (suc (suc (suc (suc (suc n)))))))) now at h = ground arith

-- The whole budget from the first try to the eighth is 8h 42m 30s, as the comment on the table
-- says, whenever the first try is; after the eighth failure there is no further one.
due_after_budget :
    (start : ℕ)
    → (due_after 7 start ≡ some (start + (8 * hour + 42 * minute + 30 * second)))
      × (due_after 8 start ≡ none)
unfolding due_after next_retry_at
due_after_budget start = (ap some (omega arith), refl)

-- The next attempt, if there is one, is not before now and at most six hours later.
abbrev pub IsWithin : ℕ → Option ℕ → Type 0
IsWithin now none = Unit {0}
IsWithin now (some at) = (now ≤ at) × (at ≤ now + 6 * hour)

next_retry_at-IsWithin : (n now : ℕ) (o : Option ℕ) → next_retry_at n now ≡ o → IsWithin now o
next_retry_at-IsWithin n now none h = tt
next_retry_at-IsWithin n now (some at) h = next_retry_at_bounds n now at h

-- A failed delivery is tried again exactly when fewer than eight attempts have failed, not before now
-- and at most six hours later; and the whole budget from the first try to the eighth is 8h 42m 30s, as
-- the comment on the table says, whenever the first try is, and after the eighth failure there is no
-- further one.
pub retry_budget :
    (n now start : ℕ)
    → ((n < max_attempts) ↔ (next_retry_at n now ≢ none))
      × IsWithin now (next_retry_at n now)
      × (due_after 7 start ≡ some (start + (8 * hour + 42 * minute + 30 * second)))
      × (due_after 8 start ≡ none)
retry_budget n now start = (
  next_retry_at-some_iff n now,
  next_retry_at-IsWithin n now (next_retry_at n now) refl,
  (due_after_budget start).0,
  (due_after_budget start).1,
)
