-- ===== src/Payment/Invariant/Rows.antt =====
-- The invariant under the changes that single statements make to the rows.
use dodo_payment_gateway.Base.{
  ℕ, ◌+◌, ◌≤◌, ◌≡◌, refl, sym, subst, String, Bool, true, false, Option, none, List, ◌==◌, find,
  count, update, insert, arith, eq_iff, inl, inr, Bool-cases, count-insert_unique, [], ◌∷◌, ◌⊎◌,
  Option-cases, count-insert, count-update_le, find-update, count-eq-zero_of_find-none,
}
use dodo_payment_gateway.Model.{
  Invoice, is_draft_or_open, PaymentAttempt, PaymentAttemptStatus, is_pending, OutboundEvent,
}
use dodo_payment_gateway.Store.{Db}
use dodo_payment_gateway.Repository.Invoices
use dodo_payment_gateway.Repository.PaymentAttempts
use dodo_payment_gateway.Repository.OutboundEvents
use dodo_payment_gateway.Payment.Invariant.{Inv, is_live_of, is_succeeded_of, is_closed}

-- An update of invoices that changes no id and reopens no row keeps every closed invoice closed.
pub is_closed-update :
    (p : Invoice → Bool) (f : Invoice → Invoice) (i : String) (xs : List Invoice)
    → ((v : Invoice) → (f v).id ≡ v.id)
    → ((v : Invoice)
        → p v ≡ true
        → is_draft_or_open v.status ≡ false
        → is_draft_or_open (f v).status ≡ false)
    → is_closed i xs ≡ true
    → is_closed i (update p f xs) ≡ true
is_closed-update p f i xs same keeps h = elim (Option-cases (find (Invoices.has_id i) xs)) [
  | inl e ↦ ground arith
  | inr (v, e) ↦ ground (arith, find-update (Invoices.has_id i) p f xs (λ x. rw (same x)), keeps v)
]

-- A row's change of status to FAILED or SUCCEEDED leaves no more live attempts than there were.
pub settle-live :
    (id i : String) (s : PaymentAttemptStatus) (ref code : Option String) (n : ℕ)
    (xs : List PaymentAttempt)
    → count
        (is_live_of i)
        (update (PaymentAttempts.is_pending_id id) (PaymentAttempts.set_status s ref code n) xs)
      ≤ count (is_live_of i) xs
settle-live id i s ref code n xs =
    count-update_le (is_live_of i) (is_live_of i) _ _ xs (λ x h k. ground arith) (λ x h. h)

-- Either nothing is inserted, or the event is the first of its type and source.
pub insert-event_cases :
    (e : OutboundEvent) (n : ℕ) (d : Db)
    → ((OutboundEvents.insert_query e n d).1 ≡ d)
      ⊎ ((find (OutboundEvents.has_source e.event_type e.source_id) d.outbound_events ≡ none)
          × ((OutboundEvents.insert_query e n d).1 ≡ record d {
            outbound_events = insert (OutboundEvents.as_row e n) d.outbound_events;
          }))
unfolding OutboundEvents.insert_query
insert-event_cases e n d = ground arith

insert-one_event :
    (e : OutboundEvent) (n : ℕ) (t s : String) (xs : List OutboundEvent)
    → find (OutboundEvents.has_source e.event_type e.source_id) xs ≡ none
    → count (OutboundEvents.has_source t s) xs ≤ 1
    → count (OutboundEvents.has_source t s) (insert (OutboundEvents.as_row e n) xs) ≤ 1
insert-one_event e n t s xs none_found u =
    count-insert_unique (OutboundEvents.has_source t s)
      (OutboundEvents.has_source e.event_type e.source_id) (OutboundEvents.as_row e n) xs none_found
      u
      (λ h x k. ground (
        arith,
        eq_iff e.event_type t,
        eq_iff e.source_id s,
        eq_iff x.event_type t,
        eq_iff x.source_id s,
        eq_iff x.event_type e.event_type,
        eq_iff x.source_id e.source_id,
      ))

pub insert-event-Inv :
    (e : OutboundEvent) (n : ℕ) (d : Db) → Inv d → Inv (OutboundEvents.insert_query e n d).1
insert-event-Inv e n d v = elim (insert-event_cases e n d) [
  | inl same ↦ subst Inv (sym same) v
  | inr (none_found, changed) ↦ subst Inv (sym changed) (record {
    ids = v.ids;
    one_live = v.one_live;
    closed = v.closed;
    one_event = λ t s. insert-one_event e n t s d.outbound_events none_found (v.one_event t s);
  })
]

-- Either nothing is inserted, or the id is new and, for a PENDING row, no other is PENDING.
pub insert-attempt_cases :
    (a : PaymentAttempt) (n : ℕ) (d : Db)
    → ((PaymentAttempts.insert_query a n d).1 ≡ d)
      ⊎ ((find (PaymentAttempts.has_id a.id) d.payment_attempts ≡ none)
          × (is_pending a.status ≡ true
              → find (PaymentAttempts.is_pending_of a.invoice_id) d.payment_attempts ≡ none)
          × ((PaymentAttempts.insert_query a n d).1 ≡ record d {
            payment_attempts = insert (PaymentAttempts.as_row a n) d.payment_attempts;
          }))
unfolding PaymentAttempts.insert_query PaymentAttempts.is_duplicate
insert-attempt_cases a n d = ground arith

-- Live attempts are the PENDING and the SUCCEEDED ones.
count-live :
    (i : String) (xs : List PaymentAttempt)
    → count (is_live_of i) xs
      ≡ count (PaymentAttempts.is_pending_of i) xs + count (is_succeeded_of i) xs
unfolding count
count-live i [] = refl
count-live i (x ∷ xs) = ground (arith, count-live i xs)

-- A new PENDING attempt of an invoice that has neither a PENDING nor a SUCCEEDED one.
insert-one_live :
    (a : PaymentAttempt) (n : ℕ) (i : String) (xs : List PaymentAttempt)
    → find (PaymentAttempts.is_pending_of a.invoice_id) xs ≡ none
    → count (is_succeeded_of a.invoice_id) xs ≡ 0
    → count (is_live_of i) xs ≤ 1
    → count (is_live_of i) (insert (PaymentAttempts.as_row a n) xs) ≤ 1
insert-one_live a n i xs none_pending none_paid u = elim (Bool-cases (a.invoice_id == i)) [
  | inl hit ↦ ground (
    arith,
    count-insert (is_live_of i) (PaymentAttempts.as_row a n) xs,
    count-live i xs,
    (eq_iff a.invoice_id i).0 hit,
    subst (λ (j : String). count (PaymentAttempts.is_pending_of j) xs ≡ 0)
        ((eq_iff a.invoice_id i).0 hit)
        (count-eq-zero_of_find-none (PaymentAttempts.is_pending_of a.invoice_id) xs none_pending),
    subst (λ (j : String). count (is_succeeded_of j) xs ≡ 0) ((eq_iff a.invoice_id i).0 hit)
        none_paid,
  )
  | inr miss ↦ ground (arith, count-insert (is_live_of i) (PaymentAttempts.as_row a n) xs)
]

-- A new PENDING attempt, for an invoice that is not closed.
pub insert-attempt-Inv :
    (a : PaymentAttempt) (n : ℕ) (d : Db)
    → is_pending a.status ≡ true
    → is_closed a.invoice_id d.invoices ≡ false
    → Inv d
    → Inv (PaymentAttempts.insert_query a n d).1
insert-attempt-Inv a n d p open_invoice v = elim (insert-attempt_cases a n d) [
  | inl same ↦ subst Inv (sym same) v
  | inr (fresh, none_pending, changed) ↦ subst Inv (sym changed) (record {
    ids = λ id.
        count-insert_unique (PaymentAttempts.has_id id) (PaymentAttempts.has_id a.id)
          (PaymentAttempts.as_row a n) d.payment_attempts fresh (v.ids id)
          (λ h x k. ground (arith, eq_iff a.id id, eq_iff x.id id, eq_iff x.id a.id));
    one_live = λ i.
        insert-one_live a n i d.payment_attempts (none_pending p)
          (ground (arith, v.closed a.invoice_id)) (v.one_live i);
    closed = λ i h. v.closed i (
        ground (
          arith,
          count-insert (is_succeeded_of i) (PaymentAttempts.as_row a n) d.payment_attempts,
        ));
    one_event = v.one_event;
  })
]

-- The other tables do not matter.
pub Inv-frame :
    {d : Db} (d' : Db)
    → d'.payment_attempts ≡ d.payment_attempts
    → d'.invoices ≡ d.invoices
    → d'.outbound_events ≡ d.outbound_events
    → Inv d
    → Inv d'
Inv-frame d' a i o v = record {
  ids = λ id. rw a (v.ids id);
  one_live = λ j. rw a (v.one_live j);
  closed = λ j h. rw i (v.closed j (rw a at h));
  one_event = λ t s. rw o (v.one_event t s);
}
