-- ===== src/Worker/Budget.antt =====
-- How often an event is tried.
use dodo_payment_gateway.Base.{
  ℕ, suc, ◌≤◌, ◌<◌, ◌≡◌, refl, sym, subst, inl, inr, String, Bool, true, false, ◌&&◌, ◌||◌, Option,
  none, some, List, [], ◌∷◌, ◌==◌, not, eq_iff, find_holds, count-pos_of_find_and, count_split,
  count-eq-zero_of_find-none, count-or_le, leb, ltb, count, update, select, find, Option-cases,
  arith, count-update_le, count-select, count_mono,
}
use dodo_payment_gateway.Model.{OutboundEvent, OutboundEventStatus}
use dodo_payment_gateway.Errors.{Result, ok, err}
use dodo_payment_gateway.Store.{Db, World, time_now}
use dodo_payment_gateway.Store.Laws.{statement-db, statement-ok, time_now-ok}
use dodo_payment_gateway.Store.Keeps.{
  Keeps, OnDb, Keeps-pure, Keeps-try, Keeps-bind, Keeps-time_now, Keeps-statement_db, bind_keeps_ok,
}
use dodo_payment_gateway.Repository.Businesses
use dodo_payment_gateway.Repository.OutboundEvents
use dodo_payment_gateway.Repository.OutboundEvents.{
  is_due, is_one_of, as_delivering, as_delivered, as_retry, as_failed,
}
use dodo_payment_gateway.Webhook.Retry.{next_retry_at, max_attempts, claim_batch_size}
use dodo_payment_gateway.Webhook.Retry.Schedule.{next_retry_at-some_iff}
use dodo_payment_gateway.Worker.{
  deliver_one, deliver_all, deliver_due, post, record_failure, save_failure, save_delivered,
}
use dodo_payment_gateway.Worker.Claims.{chosen, marked, chosen-due}
use dodo_payment_gateway.Worker.Posts.{Recording, deliver_one-Keeps}

-- Still to be tried: PENDING or DELIVERING.
abbrev pub is_open : OutboundEventStatus → Bool
is_open OutboundEventStatus.pending = true
is_open OutboundEventStatus.delivering = true
is_open _ = false

-- Beyond the budget: more failures than it allows, or as many and still to be tried.
abbrev pub is_over : OutboundEvent → Bool
is_over e =
    ltb max_attempts e.attempt_count || (is_open e.status && leb max_attempts e.attempt_count)

abbrev pub InBudget : Db → Type 0
InBudget d = count is_over d.outbound_events ≡ 0

-- A change that leaves no changed row beyond the budget.
change-InBudget :
    (p : OutboundEvent → Bool) (f : OutboundEvent → OutboundEvent) (rows : List OutboundEvent)
    → ((x : OutboundEvent) → is_over (f x) ≡ true → is_over x ≡ true)
    → count is_over rows ≡ 0
    → count is_over (update p f rows) ≡ 0
change-InBudget p f rows h k =
    omega (arith, k, count-update_le is_over is_over p f rows (λ x _. h x) (λ x q. q))

-- The event has failed fewer times than the budget allows.
abbrev IsTryable : OutboundEvent → Type 0
IsTryable e = e.attempt_count < max_attempts

retry-open :
    (e : OutboundEvent) (now next : ℕ)
    → next_retry_at (suc e.attempt_count) now ≡ some next
    → suc e.attempt_count < max_attempts
retry-open e now next more =
    (next_retry_at-some_iff (suc e.attempt_count) now).1 (λ none_left. cc (more, none_left))

module _ (e : OutboundEvent) (tryable : IsTryable e) where
  save_failure-InBudget :
      (reason : String) (now : ℕ) (o : Option ℕ)
      → next_retry_at (suc e.attempt_count) now ≡ o
      → Keeps (OnDb InBudget) (save_failure e reason o)
  unfolding save_failure OutboundEvents.mark_failed OutboundEvents.mark_retry
      OutboundEvents.change_query
  save_failure-InBudget reason now none over =
      Keeps-statement_db InBudget _
        (λ n d k. change-InBudget _ _ d.outbound_events (λ x q. ground (arith, tryable)) k)
  save_failure-InBudget reason now (some next) more = Keeps-statement_db InBudget _ (λ n d k.
      change-InBudget _ _ d.outbound_events (λ x q. ground (arith, q, retry-open e now next more))
        k)

  Recording-InBudget : Recording (OnDb InBudget) e
  unfolding record_failure save_delivered OutboundEvents.mark_delivered OutboundEvents.change_query
  Recording-InBudget = record {
    timeless = λ w n h. h;
    failure = λ reason. Keeps-bind (Keeps-time_now (λ w n h. h)) λ now.
        Keeps-bind
          (Keeps-try
            (save_failure-InBudget reason now (next_retry_at (suc e.attempt_count) now) refl))
          λ _. Keeps-pure tt;
    success = Keeps-bind (Keeps-time_now (λ w n h. h)) λ now.
        Keeps-bind
          (Keeps-try (
            Keeps-statement_db InBudget _
              (λ n d k. change-InBudget _ _ d.outbound_events (λ x q. ground (arith, q)) k)))
          λ _. Keeps-pure tt;
  }

  deliver_one-InBudget : Keeps (OnDb InBudget) (deliver_one e)
  unfolding post Businesses.get_by_id Businesses.select_query
  deliver_one-InBudget =
      deliver_one-Keeps Recording-InBudget (λ request. record { at = λ w h. h })
        (Keeps-statement_db InBudget _ (λ n d h. h))

abbrev spent : OutboundEvent → Bool
spent e = leb max_attempts e.attempt_count

deliver_all-InBudget :
    (events : List OutboundEvent)
    → count spent events ≡ 0
    → Keeps (OnDb InBudget) (deliver_all events)
unfolding deliver_all count
deliver_all-InBudget [] h = Keeps-pure tt
deliver_all-InBudget (e ∷ events) h =
    Keeps-bind (deliver_one-InBudget e (ground (arith, h)))
      (λ _. deliver_all-InBudget events (ground (arith, h)))

module _ (limit at : ℕ) (rows : List OutboundEvent) where
  -- A row that has the id of a chosen one, and is not due itself.
  abbrev stray : OutboundEvent → Bool
  stray e = is_one_of (chosen limit at rows) e && not (is_due at e)

  stray_twin :
      (e : OutboundEvent)
      → find stray rows ≡ some e
      → ¬ (count (OutboundEvents.has_id e.id) rows ≤ 1)
  stray_twin e found few =
      let held = find_holds stray e rows found in
      omega (
        arith,
        few,
        chosen-due limit at rows e (ground (arith, held)),
        count-pos_of_find_and stray (OutboundEvents.has_id e.id) e rows found
            (ground (arith, eq_iff e.id e.id)),
        count_mono (λ x. OutboundEvents.has_id e.id x && stray x)
            (λ x. OutboundEvents.has_id e.id x && not (is_due at x)) rows
            (λ x h. ground (arith, h)),
        count_mono (λ x. is_due at x && x.id == e.id)
            (λ x. OutboundEvents.has_id e.id x && is_due at x) rows (λ x h. ground (arith, h)),
        count_split (is_due at) (OutboundEvents.has_id e.id) rows,
      )

  module _ (unique : (id : String) → count (OutboundEvents.has_id id) rows ≤ 1) where
    no_stray : count stray rows ≡ 0
    no_stray = elim (Option-cases (find stray rows)) [
      | inl none_found ↦ count-eq-zero_of_find-none stray rows none_found
      | inr (e, found) ↦ absurd (stray_twin e found (unique e.id))
    ]

    abbrev loose : OutboundEvent → Bool
    loose e = is_over e || stray e

    none_loose : count is_over rows ≡ 0 → count loose rows ≡ 0
    none_loose k = omega (arith, k, no_stray, count-or_le is_over stray rows)

    chosen-loose :
        (e : OutboundEvent) → is_one_of (chosen limit at rows) e && spent e ≡ true → loose e ≡ true
    chosen-loose e h = ground (arith, h)

    marked-over : count is_over rows ≡ 0 → count is_over (marked limit at rows) ≡ 0
    marked-over k = omega (
      arith,
      none_loose k,
      count-update_le is_over loose (is_one_of (chosen limit at rows)) as_delivering rows
          (λ e p q. chosen-loose e (ground (arith, p, q))) (λ e q. ground (arith, q)),
    )

    claimed-spent :
        count is_over rows ≡ 0
        → count spent (select (is_one_of (chosen limit at rows)) (marked limit at rows)) ≡ 0
    claimed-spent k = omega (
      arith,
      none_loose k,
      count-select spent (is_one_of (chosen limit at rows)) (marked limit at rows),
      count-update_le (λ e. is_one_of (chosen limit at rows) e && spent e) loose
          (is_one_of (chosen limit at rows)) as_delivering rows
          (λ e p q. chosen-loose e (ground (arith, p, q))) chosen-loose,
    )

-- Each id stands in one row.
abbrev pub HasIds : Db → Type 0
HasIds d = (id : String) → count (OutboundEvents.has_id id) d.outbound_events ≤ 1

claim_due-InBudget :
    (limit at : ℕ) (w : World)
    → HasIds w.db
    → InBudget w.db
    → InBudget (OutboundEvents.claim_due limit at w).1.db
unfolding OutboundEvents.claim_due OutboundEvents.claim_query
claim_due-InBudget limit at w unique k =
    elim (statement-db (OutboundEvents.claim_query limit at) w) [
      | inl same ↦ subst InBudget (sym same) k
      | inr ran ↦ subst InBudget (sym ran) (marked-over limit at w.db.outbound_events unique k)
    ]

abbrev HasSpent : Result (List OutboundEvent) → Type 0
HasSpent (ok events) = count spent events ≡ 0
HasSpent (err e) = Unit

claim_due-spent :
    (limit at : ℕ) (w : World) {events : List OutboundEvent} {u : World}
    → HasIds w.db
    → InBudget w.db
    → OutboundEvents.claim_due limit at w ≡ (ok events, u)
    → (count spent events ≡ 0) × InBudget u.db
unfolding OutboundEvents.claim_due OutboundEvents.claim_query
claim_due-spent limit at w unique k h =
    let ran = (statement-ok (OutboundEvents.claim_query limit at) w h).0 in
    (
      subst (λ (r : Result (List OutboundEvent) × Db). HasSpent r.0) ran
          (claimed-spent limit at w.db.outbound_events unique k),
      subst (λ (r : Result (List OutboundEvent) × Db). InBudget r.1) ran
          (marked-over limit at w.db.outbound_events unique k),
    )

-- Whatever the endpoints answer and whatever statement fails, DeliverDue keeps every event within the
-- retry budget: no event ever has more than eight failures, and one that has eight is not tried again.
pub deliver_due-InBudget : (w : World) → HasIds w.db → InBudget w.db → InBudget (deliver_due w).1.db
unfolding deliver_due
deliver_due-InBudget w unique k =
    bind_keeps_ok (OnDb InBudget) time_now _ w
      ((Keeps-time_now {P = OnDb InBudget} (λ v n h. h)).at w k)
      λ now u timed.
        let rows = (time_now-ok w timed).1 in
        let ids = subst HasIds (sym rows) unique in
        let within = subst InBudget (sym rows) k in
        bind_keeps_ok (OnDb InBudget) (OutboundEvents.claim_due claim_batch_size now) _ u
          (claim_due-InBudget claim_batch_size now u ids within)
          λ events v got.
            let (left, kept) = claim_due-spent claim_batch_size now u ids within got in
            (deliver_all-InBudget events left).at v kept
