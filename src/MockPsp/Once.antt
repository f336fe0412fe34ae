-- ===== src/MockPsp/Once.antt =====
-- What the idempotency key of the mock processor promises.
use dodo_payment_gateway.Base.{
  ◌≤◌, ◌≡◌, String, Bool, true, false, ◌&&◌, ◌==◌, is_some, if◌then◌else◌, count, arith, count_mono,
}
use dodo_payment_gateway.MockPsp.{MockPsp, Charge, Progress, lookup, initial}
use dodo_payment_gateway.MockPsp.Steps.{Steps, starts, arrives, completes, closes}
use dodo_payment_gateway.MockPsp.Cache.{is_kept_for, Inv, initial-Inv, handle_charge-Inv}
use dodo_payment_gateway.MockPsp.Release.{complete_charge-Inv, close_entry-Inv}

pub Steps-Inv : {p q : MockPsp} → Steps p q → Inv p → Inv q
Steps-Inv (starts p) inv = inv
Steps-Inv (arrives {q = q} s method body) inv = handle_charge-Inv method body q (Steps-Inv s inv)
Steps-Inv (completes {q = q} s id uuid) inv = complete_charge-Inv id uuid q (Steps-Inv s inv)
Steps-Inv (closes {q = q} s id) inv = close_entry-Inv id q (Steps-Inv s inv)

abbrev pub is_success : Progress → Bool
is_success (Progress.finished code resp) = resp.status == "succeeded"
is_success _ = false

at_most_one : (b : Bool) → (if b then 1 else 0) ≤ 1
at_most_one b = ground arith

abbrev pub is_success_for : String → Charge → Bool
is_success_for key c = c.request.idempotency_key == key && is_success c.progress

success-kept : (key : String) (c : Charge) → is_success_for key c ≡ true → is_kept_for key c ≡ true
success-kept key c h = ground (arith, h)

-- However many requests come in at once, with whatever tokens, and in whatever order they end, at most
-- one charge of an idempotency key succeeds.
pub one_success :
    {p : MockPsp}
    → Steps initial p
    → (key : String) → (key == "") ≡ false
    → count (is_success_for key) p.charges ≤ 1
one_success {p} steps key named = omega (
  arith,
  (Steps-Inv steps initial-Inv).alone key named,
  at_most_one (is_some (lookup key p.cache)),
  count_mono (is_success_for key) (is_kept_for key) p.charges (λ c h. success-kept key c h),
)
