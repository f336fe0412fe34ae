-- ===== src/MockPsp/Replay.antt =====
-- The answer to a request that repeats the key of a charge which has finished.
use dodo_payment_gateway.Base.{
  ℕ, ◌≤◌, ◌≡◌, ◌∙◌, ap, inl, inr, String, true, false, not, ◌&&◌, Option, none, some, ◌==◌, nat_eq,
  find, count, arith, eq_iff, Bool-cases, Option-cases, count_split, count-pos_of_find_and,
  count_mono, find_holds,
}
use dodo_payment_gateway.Store.{ChargeRequest, ChargeResponse}
use dodo_payment_gateway.MockPsp.{
  MockPsp, Charge, Progress, Arrival, has_id, lookup, get_or_start, accept_charge, handle_charge,
  initial,
}
use dodo_payment_gateway.MockPsp.Steps.{Steps, starts, arrives, completes, closes}
use dodo_payment_gateway.MockPsp.{cached_answer, answer_waiting, answer_running}
use dodo_payment_gateway.MockPsp.Cache.{is_kept_for, Inv, initial-Inv}
use dodo_payment_gateway.MockPsp.Once.{Steps-Inv, is_success_for, one_success}
use dodo_payment_gateway.MockPsp.Kept.{Steps-kept}

-- Two charges that are kept for a key are one if one is.
same_id :
    (q : MockPsp) (key : String) (id j : ℕ) (c d : Charge)
    → find (has_id id) q.charges ≡ some c
    → is_kept_for key c ≡ true
    → find (has_id j) q.charges ≡ some d
    → is_kept_for key d ≡ true
    → count (is_kept_for key) q.charges ≡ 1
    → j ≡ id
same_id q key id j c d found kept there held one = elim (Bool-cases (nat_eq j id)) [
  | inl same ↦ ground (arith, same)
  | inr other ↦ absurd (
      ground (
        arith,
        one,
        count_split (has_id id) (is_kept_for key) q.charges,
        count-pos_of_find_and (has_id id) (is_kept_for key) c q.charges found kept,
        count-pos_of_find_and (has_id j) (λ x. is_kept_for key x && not (has_id id x)) d q.charges
            there (ground (arith, held, find_holds (has_id j) d q.charges there, other)),
        count_mono (λ x. (is_kept_for key x && not (has_id id x)) && has_id j x)
            (λ x. is_kept_for key x && not (has_id id x)) q.charges (λ x h. ground (arith, h)),
      ))
]

-- The entry of a named key is that of the charge kept for it.
lookup-kept :
    (q : MockPsp) (key : String) (id : ℕ) (c : Charge)
    → Inv q
    → (key == "") ≡ false
    → find (has_id id) q.charges ≡ some c
    → is_kept_for key c ≡ true
    → lookup key q.cache ≡ some id
lookup-kept q key id c inv named found kept =
    let one = count-pos_of_find_and (has_id id) (is_kept_for key) c q.charges found kept in
    elim (Option-cases (lookup key q.cache)) [
      | inl gone ↦ absurd (
          ground (
            arith,
            inv.alone key named,
            gone,
            one,
            count_split (has_id id) (is_kept_for key) q.charges,
          ))
      | inr (j, hit) ↦
          let (d, there, held) = inv.cached key j hit in
          hit
          ∙ ap some (
              same_id q key id j c d found kept there held
                (inv.alone key named ∙ ground (arith, hit)))
    ]

get_or_start-some :
    (request : ChargeRequest) (q : MockPsp) (id : ℕ) (o : Option ℕ)
    → o ≡ some id
    → get_or_start request q o ≡ (Arrival.waits id, q)
unfolding get_or_start
get_or_start-some request q id none h = cc h
get_or_start-some request q id (some i) h = ground (arith, h)

handle_charge-waits :
    (request : ChargeRequest) (q : MockPsp) (id : ℕ)
    → (request.card_token == "") ≡ false
    → (request.idempotency_key == "") ≡ false
    → lookup request.idempotency_key q.cache ≡ some id
    → handle_charge "POST" (some request) q ≡ (Arrival.waits id, q)
unfolding handle_charge accept_charge
handle_charge-waits request q id given named hit =
    rw (given, named) (get_or_start-some request q id (lookup request.idempotency_key q.cache) hit)

Steps-trans : {p q r : MockPsp} → Steps p q → Steps q r → Steps p r
Steps-trans before (starts q) = before
Steps-trans before (arrives after method body) = arrives (Steps-trans before after) method body
Steps-trans before (completes after id uuid) = completes (Steps-trans before after) id uuid
Steps-trans before (closes after id) = closes (Steps-trans before after) id

-- Once a charge with an idempotency key has finished, whatever happens then, a POST with that key and
-- a card token, of whatever amount and token, starts no charge: it waits for the charge that finished,
-- which is as it was, and is answered as that charge was; and at most one charge of the key succeeds.
pub replay :
    {p q : MockPsp}
    → Steps initial p
    → Steps p q
    → (id code : ℕ) (resp : ChargeResponse) (c : Charge) (request : ChargeRequest)
    → find (has_id id) p.charges ≡ some c
    → c.progress ≡ Progress.finished code resp
    → c.request.idempotency_key ≡ request.idempotency_key
    → (request.idempotency_key == "") ≡ false
    → (request.card_token == "") ≡ false
    → (handle_charge "POST" (some request) q ≡ (Arrival.waits id, q))
      × (find (has_id id) q.charges ≡ some c)
      × (answer_waiting c.progress ≡ some (cached_answer code resp))
      × (answer_running c.progress ≡ some (cached_answer code resp))
      × (count (is_success_for request.idempotency_key) q.charges ≤ 1)
unfolding answer_waiting answer_running
replay {p} {q} before after id code resp c request found done same named given =
    let now = Steps-kept after id c (ground (arith, done)) found in
    let hit =
      lookup-kept q request.idempotency_key id c (Steps-Inv after (Steps-Inv before initial-Inv))
        named now
        (ground (arith, done, named, eq_iff c.request.idempotency_key request.idempotency_key)) in
    (
      handle_charge-waits request q id given named hit,
      now,
      ap answer_waiting done,
      ap answer_running done,
      one_success (Steps-trans before after) request.idempotency_key named,
    )
