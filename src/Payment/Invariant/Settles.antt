-- ===== src/Payment/Invariant/Settles.antt =====
-- The invariant when an attempt is settled and when the status of an invoice changes.
use dodo_payment_gateway.Base.{
  ℕ, ◌≤◌, ◌<◌, ◌≡◌, refl, sym, subst, ap, ◌∙◌, String, Bool, true, false, ◌&&◌, Option, none, some,
  List, ◌==◌, find, count, update, arith, eq_iff, inl, inr, Bool-cases, Option-cases,
  count-update_same, count-update_le, count-update_le_add, find-update, count-eq-zero_of_find,
  find_holds,
}
use dodo_payment_gateway.Model.{
  Invoice, InvoiceStatus, is_draft_or_open, paid, PaymentAttempt, PaymentAttemptStatus,
}
use dodo_payment_gateway.Store.{Db}
use dodo_payment_gateway.Repository.Invoices
use dodo_payment_gateway.Repository.PaymentAttempts
use dodo_payment_gateway.Payment.Invariant.{Inv, Knows, IsSameAttempt, is_succeeded_of, is_closed}
use dodo_payment_gateway.Payment.Invariant.Rows.{settle-live, is_closed-update}

-- The attempts after a settlement of the attempt `id`.
abbrev pub settled :
    String
    → PaymentAttemptStatus
    → Option String
    → Option String
    → ℕ
    → List PaymentAttempt
    → List PaymentAttempt
settled id s ref code n =
    update (PaymentAttempts.is_pending_id id) (PaymentAttempts.set_status s ref code n)

module _ (id : String) (s : PaymentAttemptStatus) (ref code : Option String) (n : ℕ) where
  settled-ids :
      (j : String) (xs : List PaymentAttempt)
      → count (PaymentAttempts.has_id j) (settled id s ref code n xs)
        ≡ count (PaymentAttempts.has_id j) xs
  settled-ids j xs = count-update_same (PaymentAttempts.has_id j) _ _ xs (λ x h. refl)

  -- The identity of every attempt stays.
  pub settled-Knows :
      (a : PaymentAttempt) (d : Db)
      → Knows a d
      → Knows a (PaymentAttempts.update_if_pending_query id s ref code n d).1
  unfolding PaymentAttempts.update_if_pending_query
  settled-Knows a d k = ground (
    arith,
    find-update (PaymentAttempts.has_id a.id) (PaymentAttempts.is_pending_id id)
        (PaymentAttempts.set_status s ref code n) d.payment_attempts (λ x. refl),
  )

-- A failure of any attempt.
pub fail-Inv :
    (id : String) (ref code : Option String) (n : ℕ) (d : Db)
    → Inv d
    → Inv (PaymentAttempts.update_if_pending_query id PaymentAttemptStatus.failed ref code n d).1
unfolding PaymentAttempts.update_if_pending_query
fail-Inv id ref code n d v = record {
  ids = λ j. omega (arith, settled-ids id _ ref code n j d.payment_attempts, v.ids j);
  one_live = λ i. omega (arith, settle-live id i _ ref code n d.payment_attempts, v.one_live i);
  closed = λ i h. v.closed i (
      omega (
        arith,
        count-update_le (is_succeeded_of i) (is_succeeded_of i) (PaymentAttempts.is_pending_id id)
            (PaymentAttempts.set_status PaymentAttemptStatus.failed ref code n) d.payment_attempts
            (λ x p q. ground arith) (λ x q. q),
      ));
  one_event = v.one_event;
}

-- Marking invoices paid closes them and opens none.
pub mark_paid-Inv : (id : String) (n : ℕ) (d : Db) → Inv d → Inv (Invoices.mark_paid_query id n d).1
unfolding Invoices.mark_paid_query
mark_paid-Inv id n d v = record {
  ids = v.ids;
  one_live = v.one_live;
  closed = λ i h.
      is_closed-update (λ x. Invoices.has_id id x && is_draft_or_open x.status)
        (Invoices.set_status paid n) i d.invoices (λ x. refl) (λ x p q. refl) (v.closed i h);
  one_event = v.one_event;
}

pub mark_paid-closes :
    (id : String) (n : ℕ) (w : Invoice) (xs : List Invoice)
    → find (Invoices.has_id id) xs ≡ some w
    → is_closed id (
        update
          (λ x. Invoices.has_id id x && is_draft_or_open x.status)
          (Invoices.set_status paid n)
          xs)
      ≡ true
mark_paid-closes id n w xs e = ground (
  arith,
  find-update (Invoices.has_id id) (λ x. Invoices.has_id id x && is_draft_or_open x.status)
      (Invoices.set_status paid n) xs (λ x. refl),
  find_holds (Invoices.has_id id) w xs e,
)

-- A success of an attempt moves a SUCCEEDED row to its own invoice only.
succeed-others :
    (a r : PaymentAttempt) (ref code : Option String) (n : ℕ) (i : String)
    (xs : List PaymentAttempt)
    → count (PaymentAttempts.has_id a.id) xs ≤ 1
    → find (PaymentAttempts.has_id a.id) xs ≡ some r
    → r.invoice_id ≡ a.invoice_id
    → (a.invoice_id == i) ≡ false
    → count (is_succeeded_of i) (settled a.id PaymentAttemptStatus.succeeded ref code n xs)
      ≤ count (is_succeeded_of i) xs
succeed-others a r ref code n i xs unique e same miss = omega (
  arith,
  count-update_le_add (is_succeeded_of i) own (PaymentAttempts.is_pending_id a.id)
      (PaymentAttempts.set_status PaymentAttemptStatus.succeeded ref code n) xs
      (λ x p q. ground arith),
  count-eq-zero_of_find (PaymentAttempts.has_id a.id) own r xs unique e
      (ground (arith, subst (λ (j : String). (j == i) ≡ false) (sym same) miss))
      (λ x q. ground arith),
)
  where
    own : PaymentAttempt → Bool
    own x = PaymentAttempts.has_id a.id x && x.invoice_id == i

-- A success, and the invoice marked paid with it.
pub succeed-Inv :
    (a : PaymentAttempt) (w : Invoice) (ref code : Option String) (n m : ℕ) (d : Db)
    → Knows a d
    → find (Invoices.has_id a.invoice_id) d.invoices ≡ some w
    → Inv d
    → Inv
        (Invoices.mark_paid_query a.invoice_id m
          (PaymentAttempts.update_if_pending_query a.id PaymentAttemptStatus.succeeded ref code n
            d).1).1
unfolding Invoices.mark_paid_query PaymentAttempts.update_if_pending_query
succeed-Inv a w ref code n m d k e v = record {
  ids = λ j. omega (arith, settled-ids a.id _ ref code n j d.payment_attempts, v.ids j);
  one_live = λ i. omega (arith, settle-live a.id i _ ref code n d.payment_attempts, v.one_live i);
  closed = λ i h. elim (Bool-cases (a.invoice_id == i)) [
    | inl hit ↦
        subst
          (λ (j : String).
            is_closed j (
              update (λ x. Invoices.has_id a.invoice_id x && is_draft_or_open x.status)
                (Invoices.set_status paid m) d.invoices)
            ≡ true)
          ((eq_iff a.invoice_id i).0 hit) (mark_paid-closes a.invoice_id m w d.invoices e)
    | inr miss ↦
        is_closed-update (λ x. Invoices.has_id a.invoice_id x && is_draft_or_open x.status)
          (Invoices.set_status paid m) i d.invoices (λ x. refl) (λ x p q. refl)
          (v.closed i (others i miss h))
  ];
  one_event = v.one_event;
}
  where
    others :
        (i : String)
        → (a.invoice_id == i) ≡ false
        → 0
          < count
              (is_succeeded_of i)
              (settled a.id PaymentAttemptStatus.succeeded ref code n d.payment_attempts)
        → 0 < count (is_succeeded_of i) d.payment_attempts
    others i miss h = go (find (PaymentAttempts.has_id a.id) d.payment_attempts) refl k
      where
        go :
            (o : Option PaymentAttempt)
            → find (PaymentAttempts.has_id a.id) d.payment_attempts ≡ o
            → IsSameAttempt a o
            → 0 < count (is_succeeded_of i) d.payment_attempts
        go none found known = absurd known
        go (some r) found known = omega (
          arith,
          succeed-others a r ref code n i d.payment_attempts (v.ids a.id) found known.0 miss,
        )

-- A change of the status of an invoice that is not closed closes and reopens no other.
is_closed-update_ne :
    (id i : String) (s : InvoiceStatus) (n : ℕ) (xs : List Invoice)
    → (id == i) ≡ false
    → is_closed i (update (Invoices.has_id id) (Invoices.set_status s n) xs) ≡ is_closed i xs
is_closed-update_ne id i s n xs miss = elim (Option-cases (find (Invoices.has_id i) xs)) [
  | inl e ↦ ground (
    arith,
    find-update (Invoices.has_id i) (Invoices.has_id id) (Invoices.set_status s n) xs (λ x. refl),
  )
  | inr (v, e) ↦ ground (
    arith,
    find-update (Invoices.has_id i) (Invoices.has_id id) (Invoices.set_status s n) xs (λ x. refl),
    find_holds (Invoices.has_id i) v xs e,
    eq_iff v.id i,
    eq_iff v.id id,
    eq_iff id i,
  )
]

-- An invoice that is given a status in which it can be paid is not closed.
pub is_closed-update_self :
    (id : String) (s : InvoiceStatus) (n : ℕ) (xs : List Invoice)
    → is_draft_or_open s ≡ true
    → is_closed id (update (Invoices.has_id id) (Invoices.set_status s n) xs) ≡ false
is_closed-update_self id s n xs h = elim (Option-cases (find (Invoices.has_id id) xs)) [
  | inl e ↦ ground (
    arith,
    find-update (Invoices.has_id id) (Invoices.has_id id) (Invoices.set_status s n) xs (λ x. refl),
  )
  | inr (v, e) ↦ ground (
    arith,
    find-update (Invoices.has_id id) (Invoices.has_id id) (Invoices.set_status s n) xs (λ x. refl),
    find_holds (Invoices.has_id id) v xs e,
  )
]

pub open-Inv :
    (id : String) (s : InvoiceStatus) (n : ℕ) (d : Db)
    → is_closed id d.invoices ≡ false
    → Inv d
    → Inv (Invoices.update_status_query id s n d).1
unfolding Invoices.update_status_query
open-Inv id s n d o v = record {
  ids = v.ids;
  one_live = v.one_live;
  closed = λ i h. elim (Bool-cases (id == i)) [
    | inl hit ↦
        cc (o, v.closed i h, ap (λ (j : String). is_closed j d.invoices) ((eq_iff id i).0 hit))
    | inr miss ↦ is_closed-update_ne id i s n d.invoices miss ∙ v.closed i h
  ];
  one_event = v.one_event;
}
