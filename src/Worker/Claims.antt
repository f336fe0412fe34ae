-- ===== src/Worker/Claims.antt =====
-- What ClaimDue of internal/repository/outbound_event_repository.go takes.
use dodo_payment_gateway.Base.{
  nat_eq, ℕ, ◌≤◌, ◌<◌, ◌≡◌, ◌∙◌, refl, ap, true, false, ◌&&◌, String, List, [], ◌∷◌, ◌==◌, count,
  update, select, take, order_by, arith, eq_iff, count-order_by, count-take_le, count-take_le_limit,
  count-select, count-eq-zero, count_mono, count-update_le, count-or_le,
}
use dodo_payment_gateway.Model.{OutboundEvent}
use dodo_payment_gateway.Errors.{ok}
use dodo_payment_gateway.Store.{Db}
use dodo_payment_gateway.Repository.OutboundEvents
use dodo_payment_gateway.Repository.OutboundEvents.{is_one_of, is_due, as_delivering, due_first}

-- The rows that a claim takes, and the table after it.
abbrev pub chosen : ℕ → ℕ → List OutboundEvent → List OutboundEvent
chosen limit at rows = take limit (order_by due_first (select (is_due at) rows))

abbrev pub marked : ℕ → ℕ → List OutboundEvent → List OutboundEvent
marked limit at rows = update (is_one_of (chosen limit at rows)) as_delivering rows

-- The events that a claim at `now` returns.
abbrev pub claimed : ℕ → ℕ → Db → List OutboundEvent
unfolding OutboundEvents.claim_query
claimed limit at d =
    select (is_one_of (chosen limit at d.outbound_events)) (marked limit at d.outbound_events)

pub is_one_of-id :
    (xs : List OutboundEvent) (a b : OutboundEvent) → a.id ≡ b.id → is_one_of xs a ≡ is_one_of xs b
unfolding is_one_of
is_one_of-id [] a b h = refl
is_one_of-id (x ∷ xs) a b h = cc (is_one_of-id xs a b h, ap (λ (i : String). x.id == i) h)

-- A row that is among rows chosen from `ys` has the id of one.
is_one_of_trans :
    (xs ys : List OutboundEvent) (e : OutboundEvent)
    → count (is_one_of ys) xs ≡ 0
    → is_one_of xs e ≡ true
    → is_one_of ys e ≡ false
unfolding is_one_of count
is_one_of_trans [] ys e none_of h = cc
is_one_of_trans (x ∷ xs) ys e none_of h =
    ground (arith, eq_iff x.id e.id, is_one_of-id ys x e, is_one_of_trans xs ys e)

-- Selecting by `is_one_of ys` gives rows whose ids are those of `ys`.
is_one_of-select :
    (ys rows : List OutboundEvent) (e : OutboundEvent)
    → is_one_of (select (is_one_of ys) rows) e ≡ true
    → is_one_of ys e ≡ true
unfolding is_one_of select
is_one_of-select ys [] e h = cc
is_one_of-select ys (x ∷ rows) e h =
    ground (arith, eq_iff x.id e.id, is_one_of-id ys x e, is_one_of-select ys rows e)

none_pending_left :
    (ys rows : List OutboundEvent) (at : ℕ)
    → count (λ e. is_due at e && is_one_of ys e) (update (is_one_of ys) as_delivering rows) ≡ 0
unfolding count update
none_pending_left ys [] at = refl
none_pending_left ys (x ∷ rows) at =
    ground (arith, is_one_of-id ys x (as_delivering x) refl, none_pending_left ys rows at)

-- A claim chooses none of the ids that an earlier one has.
chosen_apart :
    (ys rows : List OutboundEvent) (limit at : ℕ)
    → count (is_one_of ys) (chosen limit at (update (is_one_of ys) as_delivering rows)) ≡ 0
chosen_apart ys rows limit at = omega (
  arith,
  count-take_le (is_one_of ys) limit
      (order_by due_first (select (is_due at) (update (is_one_of ys) as_delivering rows))),
  count-order_by due_first (is_one_of ys)
      (select (is_due at) (update (is_one_of ys) as_delivering rows)),
  count-select (is_one_of ys) (is_due at) (update (is_one_of ys) as_delivering rows),
  none_pending_left ys rows at,
)

-- Two claims, one after the other, whatever the times and limits, have no event in common: no
-- event that the second returns has the id of one that the first has returned.
claims_apart :
    (limit at now limit' at' now' : ℕ) (d : Db)
    → let d' = (OutboundEvents.claim_query limit at now d).1 in
      ((OutboundEvents.claim_query limit at now d).0 ≡ ok (claimed limit at d))
      × ((OutboundEvents.claim_query limit' at' now' d').0 ≡ ok (claimed limit' at' d'))
      × (count (is_one_of (claimed limit at d)) (claimed limit' at' d') ≡ 0)
unfolding OutboundEvents.claim_query
claims_apart limit at now limit' at' now' d = (refl, refl, apart)
  where
    due : List OutboundEvent
    due = chosen limit at d.outbound_events

    rows : List OutboundEvent
    rows = marked limit at d.outbound_events

    later : List OutboundEvent
    later = chosen limit' at' rows

    none_twice :
        (e : OutboundEvent)
        → (is_one_of later e && is_one_of (select (is_one_of due) rows) e) ≡ false
    none_twice e = ground (
      arith,
      is_one_of_trans later due e (chosen_apart due d.outbound_events limit' at'),
      is_one_of-select due rows e,
    )

    apart :
        count
          (is_one_of (claimed limit at d))
          (select (is_one_of later) (update (is_one_of later) as_delivering rows))
        ≡ 0
    apart =
        count-select (is_one_of (select (is_one_of due) rows)) (is_one_of later)
          (update (is_one_of later) as_delivering rows)
        ∙ count-eq-zero _ (update (is_one_of later) as_delivering rows) none_twice

one_of-count :
    (xs : List OutboundEvent) (e : OutboundEvent)
    → is_one_of xs e ≡ true
    → 0 < count (λ x. x.id == e.id) xs
unfolding is_one_of count
one_of-count [] e h = cc
one_of-count (x ∷ xs) e h = ground (arith, one_of-count xs e)

pub chosen-due :
    (limit at : ℕ) (rows : List OutboundEvent) (e : OutboundEvent)
    → is_one_of (chosen limit at rows) e ≡ true
    → 0 < count (λ x. is_due at x && x.id == e.id) rows
chosen-due limit at rows e h = omega (
  arith,
  one_of-count (chosen limit at rows) e h,
  count-take_le (λ x. x.id == e.id) limit (order_by due_first (select (is_due at) rows)),
  count-order_by due_first (λ x. x.id == e.id) (select (is_due at) rows),
  count-select (λ x. x.id == e.id) (is_due at) rows,
)

-- With an id for each row, no more rows are among `xs` than `xs` has.
one_of_le :
    (xs rows : List OutboundEvent)
    → ((id : String) → count (OutboundEvents.has_id id) rows ≤ 1)
    → count (is_one_of xs) rows ≤ count (λ x. true) xs
unfolding is_one_of count
one_of_le [] rows u = omega (arith, count-eq-zero (λ (x : OutboundEvent). false) rows (λ x. refl))
one_of_le (x ∷ xs) rows u = omega (
  arith,
  one_of_le xs rows u,
  u x.id,
  count-or_le (λ (e : OutboundEvent). x.id == e.id) (is_one_of xs) rows,
  count_mono (λ (e : OutboundEvent). x.id == e.id) (OutboundEvents.has_id x.id) rows
      (λ e h. ground (arith, eq_iff x.id e.id, eq_iff e.id x.id)),
)

-- A claim of at most `limit` events returns, of rows with different ids, at most that many, and each
-- has the id of a row that was PENDING and due.
claim_within :
    (limit at now : ℕ) (d : Db)
    → ((id : String) → count (OutboundEvents.has_id id) d.outbound_events ≤ 1)
    → ((OutboundEvents.claim_query limit at now d).0 ≡ ok (claimed limit at d))
      × (count (λ e. true) (claimed limit at d) ≤ limit)
      × (count
            (λ e. nat_eq (count (λ x. is_due at x && x.id == e.id) d.outbound_events) 0)
            (claimed limit at d)
          ≡ 0)
unfolding OutboundEvents.claim_query
claim_within limit at now d u = (refl, few, due)
  where
    rows : List OutboundEvent
    rows = d.outbound_events

    few : count (λ e. true) (claimed limit at d) ≤ limit
    few = omega (
      arith,
      count-select (λ (e : OutboundEvent). true) (is_one_of (chosen limit at rows))
          (marked limit at rows),
      count-update_le (λ e. is_one_of (chosen limit at rows) e && true)
          (is_one_of (chosen limit at rows)) (is_one_of (chosen limit at rows)) as_delivering rows
          (λ x p q. p) (λ x q. ground (arith, q)),
      one_of_le (chosen limit at rows) rows u,
      count-take_le_limit (λ (e : OutboundEvent). true) limit
          (order_by due_first (select (is_due at) rows)),
    )

    due :
        count (λ e. nat_eq (count (λ x. is_due at x && x.id == e.id) rows) 0) (claimed limit at d)
        ≡ 0
    due =
        count-select (λ e. nat_eq (count (λ x. is_due at x && x.id == e.id) rows) 0)
          (is_one_of (chosen limit at rows)) (marked limit at rows)
        ∙ count-eq-zero _ (marked limit at rows) (λ e. ground (arith, chosen-due limit at rows e))

-- Two claims of due events, one after the other, whatever the times and limits, from a table with one
-- row for each id, have no event in common: no event that the second returns has the id of one that the
-- first has returned. The first returns at most its limit of events, and each has the id of a row that
-- was PENDING and due.
pub claim_query_disjoint :
    (limit at now limit' at' now' : ℕ) (d : Db)
    → ((id : String) → count (OutboundEvents.has_id id) d.outbound_events ≤ 1)
    → let d' = (OutboundEvents.claim_query limit at now d).1 in
      ((OutboundEvents.claim_query limit at now d).0 ≡ ok (claimed limit at d))
      × ((OutboundEvents.claim_query limit' at' now' d').0 ≡ ok (claimed limit' at' d'))
      × (count (is_one_of (claimed limit at d)) (claimed limit' at' d') ≡ 0)
      × (count (λ e. true) (claimed limit at d) ≤ limit)
      × (count
            (λ e. nat_eq (count (λ x. is_due at x && x.id == e.id) d.outbound_events) 0)
            (claimed limit at d)
          ≡ 0)
claim_query_disjoint limit at now limit' at' now' d unique =
    let (first, second, apart) = claims_apart limit at now limit' at' now' d in
    let (_, few, due) = claim_within limit at now d unique in (first, second, apart, few, due)
