-- ===== src/MockPsp/Steps.antt =====
-- Any number of handlers of the mock processor at once, as sequences of what they do to the cache.
use dodo_payment_gateway.Base.{ℕ, String, Option}
use dodo_payment_gateway.Store.{ChargeRequest}
use dodo_payment_gateway.MockPsp.{MockPsp, handle_charge, complete_charge, close_entry}

pub data Steps : MockPsp → MockPsp → Type 0 where
  starts : (p : MockPsp) → Steps p p
  arrives :
      {p q : MockPsp}
      → Steps p q
      → (method : String) (body : Option ChargeRequest) → Steps p (handle_charge method body q).1
  completes :
      {p q : MockPsp} → Steps p q → (id : ℕ) (uuid : String) → Steps p (complete_charge id uuid q)
  closes : {p q : MockPsp} → Steps p q → (id : ℕ) → Steps p (close_entry id q)
