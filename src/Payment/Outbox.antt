-- ===== src/Payment/Outbox.antt =====
-- The outbox of internal/service/payment_service.go: the event of a payment and the payment itself.
use Prim.Native.String.{◌++◌}
use dodo_payment_gateway.Base.{
  ℕ, ◌≡◌, refl, sym, subst, ap, ◌∙◌, ◌⊎◌, inl, inr, String, Bool, true, false, none, some, find,
  is_some, arith, eq_iff, eq_refl, find_holds, find-insert-none, Bool-cases,
}
use dodo_payment_gateway.Model.{Invoice, PaymentAttempt, is_succeeded, event_type_payment_succeeded}
use dodo_payment_gateway.Errors.{ok}
use dodo_payment_gateway.Store.{Db, World, pure, new_uuid, time_now}
use dodo_payment_gateway.Store.Laws.{bind-ok, statement-ok, pure-ok, transaction-IsAtomic}
use dodo_payment_gateway.Repository.Invoices
use dodo_payment_gateway.Repository.PaymentAttempts
use dodo_payment_gateway.Repository.OutboundEvents
use dodo_payment_gateway.Payment.Settle.{
  outbound_event, enqueue_outbound_event, as_succeeded, settle_paid, settle_existing,
  settle_updated, success_body, persist_success,
}
use dodo_payment_gateway.Payment.Invariant.{Knows, IsSameAttempt, is_closed}
use dodo_payment_gateway.Payment.Invariant.Settles.{mark_paid-closes}
use dodo_payment_gateway.Payment.Invariant.Settlement.{
  locked-invoice, settled-db, settled-same, marked-db,
}
use dodo_payment_gateway.Payment.Runs.{read_attempt-ok}

-- The outbox has an event of this type about the attempt `id`.
abbrev pub is_announced : String → String → Db → Bool
is_announced id t d =
    is_some (find (OutboundEvents.has_source t (id ++ ":" ++ t)) d.outbound_events)

insert-announced :
    (a : PaymentAttempt) (t id : String) (now n : ℕ) (d d' : Db)
    → OutboundEvents.insert_query (outbound_event a t id now) n d ≡ (ok tt, d')
    → (is_announced a.id t d' ≡ true) × (d'.invoices ≡ d.invoices)
unfolding OutboundEvents.insert_query
insert-announced a t id now n d d' e = ground (
  arith,
  find-insert-none (OutboundEvents.has_source t (a.id ++ ":" ++ t))
      (OutboundEvents.as_row (outbound_event a t id now) n) d.outbound_events,
  eq_refl t,
  eq_refl (a.id ++ ":" ++ t),
)

enqueue-ok :
    (a : PaymentAttempt) (t : String) (w : World) {u : World}
    → enqueue_outbound_event a t w ≡ (ok tt, u)
    → (is_announced a.id t u.db ≡ true) × (u.db.invoices ≡ w.db.invoices)
unfolding enqueue_outbound_event new_uuid time_now OutboundEvents.create
enqueue-ok a t w e =
    let (id, w1, e1, rest1) = bind-ok _ _ w e in
    let (now, w2, e2, rest2) = bind-ok _ _ w1 rest1 in
    let done =
      insert-announced a t id now (w2.env.clock w2.tick) w2.db _ (statement-ok _ w2 rest2).0 in
    (done.0, done.1 ∙ ground (arith, e1, e2))

settle_paid-ok :
    (a : PaymentAttempt) (ref : String) (v : Invoice) (w : World) {r : PaymentAttempt} {u : World}
    → find (Invoices.has_id a.invoice_id) w.db.invoices ≡ some v
    → settle_paid a ref w ≡ (ok r, u)
    → (is_announced a.id event_type_payment_succeeded u.db ≡ true)
      × (is_closed a.invoice_id u.db.invoices ≡ true)
unfolding settle_paid Invoices.mark_paid_query
settle_paid-ok a ref v w row e =
    let (_, w1, marked, rest1) = bind-ok _ _ w e in
    let (_, w2, queued, rest2) = bind-ok _ _ w1 rest1 in
    let (m, changed) = marked-db a.invoice_id w marked in
    let (announced, same) =
      enqueue-ok (as_succeeded a ref) event_type_payment_succeeded w1 queued in
    let last = pure-ok _ w2 rest2 in
    subst
      (λ (x : World).
        (is_announced a.id event_type_payment_succeeded x.db ≡ true)
        × (is_closed a.invoice_id x.db.invoices ≡ true))
      last.1
      (
        announced,
        ap (is_closed a.invoice_id) (same ∙ ap (λ (d : Db). d.invoices) changed)
            ∙ mark_paid-closes a.invoice_id m v w.db.invoices row,
      )

-- What a success leaves: nothing, or the event and a closed invoice.
abbrev pub IsSettled : PaymentAttempt → Db → Db → Type 0
IsSettled a d d' =
    (d' ≡ d)
    ⊎ ((is_announced a.id event_type_payment_succeeded d' ≡ true)
        × (is_closed a.invoice_id d'.invoices ≡ true))

settle_existing-IsSettled :
    (a existing : PaymentAttempt) (ref : String) (v : Invoice) (w : World) {r : PaymentAttempt}
    {u : World}
    → existing.id ≡ a.id
    → existing.invoice_id ≡ a.invoice_id
    → find (Invoices.has_id a.invoice_id) w.db.invoices ≡ some v
    → settle_existing ref existing w ≡ (ok r, u)
    → IsSettled a w.db u.db
unfolding settle_existing pure
settle_existing-IsSettled a existing ref v w {u} same_id same_invoice row e =
    elim (Bool-cases (is_succeeded existing.status)) [
      | inl done ↦
          let (announced, closed) =
            settle_paid-ok existing ref v w
              (ap (λ (i : String). find (Invoices.has_id i) w.db.invoices) same_invoice ∙ row)
              (rw done at e) in
          inr (
            ap (λ (i : String). is_announced i event_type_payment_succeeded u.db) (sym same_id)
                ∙ announced,
            ap (λ (i : String). is_closed i u.db.invoices) (sym same_invoice) ∙ closed,
          )
      | inr failed ↦ inl (ap (λ (x : World). x.db) (sym (pure-ok existing w (rw failed at e)).1))
    ]

settle_updated-IsSettled :
    (a : PaymentAttempt) (ref : String) (b : Bool) (v : Invoice) (d : Db) (w : World)
    {r : PaymentAttempt} {u : World}
    → Knows a d
    → find (Invoices.has_id a.invoice_id) w.db.invoices ≡ some v
    → (b ≡ false → w.db ≡ d)
    → settle_updated a ref b w ≡ (ok r, u)
    → IsSettled a d u.db
unfolding settle_updated
settle_updated-IsSettled a ref true v d w k row idle e = inr (settle_paid-ok a ref v w row e)
settle_updated-IsSettled a ref false v d w {u} k row idle e =
    let (x, w1, e1, rest) = bind-ok _ _ w e in
    let (found, same) = read_attempt-ok a.id w e1 in
    subst (λ (y : Db). IsSettled a y u.db) (same ∙ idle refl)
      (settle_existing-IsSettled a x ref v w1
        ((eq_iff x.id a.id).0 (find_holds (PaymentAttempts.has_id a.id) x _ found))
        (subst (IsSameAttempt a)
          (ap (λ (y : Db). find (PaymentAttempts.has_id a.id) y.payment_attempts) (sym (idle refl))
            ∙ found)
          k).0
        (ap (λ (y : Db). find (Invoices.has_id a.invoice_id) y.invoices) same ∙ row) rest)

success_body-IsSettled :
    (a : PaymentAttempt) (ref : String) (w : World) {r : PaymentAttempt} {u : World}
    → Knows a w.db
    → success_body a ref w ≡ (ok r, u)
    → IsSettled a w.db u.db
unfolding success_body PaymentAttempts.update_if_pending_query
success_body-IsSettled a ref w k e =
    let (v, w1, e1, rest1) = bind-ok _ _ w e in
    let (b, w2, e2, rest2) = bind-ok _ _ w1 rest1 in
    let (row, same) = locked-invoice a.invoice_id w e1 in
    let (n, now, hit) = settled-db a.id _ (some ref) none w1 e2 in
    settle_updated-IsSettled a ref b v w.db w2 k
      (ap (λ (x : Db). find (Invoices.has_id a.invoice_id) x.invoices) now
        ∙ ap (λ (x : Db). find (Invoices.has_id a.invoice_id) x.invoices) same
        ∙ row)
      (λ missed. now ∙ settled-same a.id _ (some ref) none n w1.db (sym hit ∙ missed) ∙ same) rest2

-- Recording a success is all or nothing, whatever fails, also when only the acknowledgement of the
-- commit is lost: for an attempt that the database has, either nothing is changed, or the outbox has
-- the event of that payment and its invoice exists and is no longer DRAFT or OPEN.
pub persist_success-IsSettled :
    (a : PaymentAttempt) (ref : String) (w : World)
    → Knows a w.db
    → IsSettled a w.db (persist_success a ref w).1.db
unfolding persist_success
persist_success-IsSettled a ref w k = elim (transaction-IsAtomic (success_body a ref) w) [
  | inl same ↦ inl same
  | inr (r, u, done, changed) ↦
      subst (IsSettled a w.db) (sym changed) (success_body-IsSettled a ref _ k done)
]
