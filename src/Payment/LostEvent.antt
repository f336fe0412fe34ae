-- ===== src/Payment/LostEvent.antt =====
-- persistFailure of internal/service/payment_service.go is no transaction.
use dodo_payment_gateway.Base.{
  ℕ, suc, ◌≡◌, refl, subst, String, Bool, none, some, List, [], ◌∷◌, ltb, count, update, arith,
  Bool-cases, inl, inr,
}
use dodo_payment_gateway.Model.{
  PaymentAttempt, PaymentAttemptStatus, OutboundEvent, event_type_payment_failed,
}
use dodo_payment_gateway.Errors.{Result, ok, err, connection_lost}
use dodo_payment_gateway.Store.{World, Outcome, ◌>>=◌, ◌>>◌, pure, statement, new_uuid, time_now}
use dodo_payment_gateway.Store.Keeps.{Keeps, Keeps-statement, bind_keeps_ok}
use dodo_payment_gateway.Repository.PaymentAttempts
use dodo_payment_gateway.Repository.OutboundEvents
use dodo_payment_gateway.Payment.Settle.{
  persist_failure, fail_updated, enqueue_outbound_event, as_failed,
}
use dodo_payment_gateway.Payment.Invariant.Settlement.{settled-db}

none_left :
    (id code : String) (n : ℕ) (rows : List PaymentAttempt)
    → count (PaymentAttempts.is_pending_id id) (
        update
          (PaymentAttempts.is_pending_id id)
          (PaymentAttempts.set_status PaymentAttemptStatus.failed none (some code) n)
          rows)
      ≡ 0
unfolding count update
none_left id code n [] = refl
none_left id code n (a ∷ rows) = ground (arith, none_left id code n rows)

-- No row is PENDING under this id, and the outbox is `o`.
abbrev Over : String → List OutboundEvent → World → Type 0
Over id o w =
    (w.db.outbound_events ≡ o)
    × (count (PaymentAttempts.is_pending_id id) w.db.payment_attempts ≡ 0)

update-Over :
    (id code : String) (o : List OutboundEvent)
    → Keeps
        (Over id o)
        (PaymentAttempts.update_status_if_pending id PaymentAttemptStatus.failed none (some code))
unfolding PaymentAttempts.update_status_if_pending PaymentAttempts.update_if_pending_query
update-Over id code o =
    Keeps-statement _ (λ w n h. h) (λ n w h. (h.0, none_left id code n w.db.payment_attempts))

read-Over :
    (id : String) (o : List OutboundEvent) → Keeps (Over id o) (PaymentAttempts.get_by_id id)
unfolding PaymentAttempts.get_by_id
read-Over id o = Keeps-statement _ (λ w n h. h) (λ n w h. h)

Over-Keeps :
    (a : PaymentAttempt) (code : String) (o : List OutboundEvent)
    → Keeps (Over a.id o) (persist_failure a code)
unfolding persist_failure fail_updated
Over-Keeps a code o = record {
  at = λ w h. bind_keeps_ok (Over a.id o) _ _ w ((update-Over a.id code o).at w h) λ b u e.
      let (n, now, hit) = settled-db a.id PaymentAttemptStatus.failed none (some code) w e in
      rw (hit, h.1)
        ((read-Over a.id o).at u (
          subst (λ (x : Result Bool × World). Over a.id o x.1) e
            ((update-Over a.id code o).at w h)));
}

-- The world after the UPDATE.
abbrev after_update : String → String → World → World
unfolding PaymentAttempts.update_if_pending_query
after_update id code w = record w {
  db =
      (PaymentAttempts.update_if_pending_query id PaymentAttemptStatus.failed none (some code)
        (w.env.clock w.tick) w.db).1;
  tick = suc w.tick;
}

update_works :
    (id code : String) (w : World)
    → w.env.outcome w.tick ≡ Outcome.works
    → PaymentAttempts.update_status_if_pending id PaymentAttemptStatus.failed none (some code) w ≡ (
      ok (ltb 0 (count (PaymentAttempts.is_pending_id id) w.db.payment_attempts)),
      after_update id code w,
    )
unfolding PaymentAttempts.update_status_if_pending PaymentAttempts.update_if_pending_query statement
update_works id code w o = rw o refl

enqueue_fails :
    (a : PaymentAttempt) (t : String) (w : World)
    → w.env.outcome (suc (suc w.tick)) ≡ Outcome.fails
    → (enqueue_outbound_event a t >> pure a) w
      ≡ (err connection_lost, record w { tick = suc (suc (suc w.tick)) })
unfolding enqueue_outbound_event OutboundEvents.create statement new_uuid time_now ◌>>=◌
enqueue_fails a t w o = rw o refl

first_call :
    (a : PaymentAttempt) (code : String) (w : World)
    → w.env.outcome w.tick ≡ Outcome.works
    → w.env.outcome (suc (suc (suc w.tick))) ≡ Outcome.fails
    → Over a.id w.db.outbound_events (persist_failure a code w).1
unfolding persist_failure fail_updated ◌>>=◌ PaymentAttempts.update_if_pending_query
first_call a code w o o' =
    elim (Bool-cases (ltb 0 (count (PaymentAttempts.is_pending_id a.id) w.db.payment_attempts))) [
      | inl hit ↦
          rw
            (
              update_works a.id code w o,
              hit,
              enqueue_fails (as_failed a code) event_type_payment_failed (after_update a.id code w)
                  o',
            )
            (refl, none_left a.id code (w.env.clock w.tick) w.db.payment_attempts)
      | inr missed ↦
          rw (update_works a.id code w o, missed)
            ((read-Over a.id w.db.outbound_events).at (after_update a.id code w)
              (refl, none_left a.id code (w.env.clock w.tick) w.db.payment_attempts))
    ]

-- When the UPDATE of persistFailure works and the INSERT of the event fails, no row with the id of
-- the attempt is PENDING and the outbox is as before; and a further call of persistFailure for
-- that attempt, whatever becomes of its statements, leaves the outbox so.
pub persist_failure_loses_event :
    (a : PaymentAttempt) (code code' : String) (w : World)
    → w.env.outcome w.tick ≡ Outcome.works
    → w.env.outcome (suc (suc (suc w.tick))) ≡ Outcome.fails
    → let u = (persist_failure a code w).1 in
      (count (PaymentAttempts.is_pending_id a.id) u.db.payment_attempts ≡ 0)
      × (u.db.outbound_events ≡ w.db.outbound_events)
      × ((persist_failure a code' u).1.db.outbound_events ≡ w.db.outbound_events)
persist_failure_loses_event a code code' w o o' =
    let first = first_call a code w o o' in
    (first.1, first.0, ((Over-Keeps a code' w.db.outbound_events).at _ first).0)
