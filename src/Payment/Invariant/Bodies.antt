-- ===== src/Payment/Invariant/Bodies.antt =====
-- The invariant under createPendingAttempt, persistSuccess and persistFailure.
use dodo_payment_gateway.Base.{
  ℕ, ◌≡◌, refl, sym, subst, ap, ◌∙◌, String, true, false, some, List, find, arith, eq_iff,
  find_holds,
}
use dodo_payment_gateway.Model.{
  Invoice, InvoiceStatus, open_status, is_draft, is_draft_or_open, PaymentAttempt, IdempotencyKey,
}
use dodo_payment_gateway.Errors.{Error, Result, ok, err, is_no_rows}
use dodo_payment_gateway.Store.{Db, World, ◌>>◌, pure, raise, try, statement, or_no_rows}
use dodo_payment_gateway.Store.Laws.{bind-ok}
use dodo_payment_gateway.Store.Keeps.{
  Keeps, OnDb, Keeps-pure, Keeps-raise, Keeps-if, Keeps-try, Keeps-bind, Keeps-new_uuid,
  Keeps-statement_db, Keeps-transaction,
}
use dodo_payment_gateway.Repository.Invoices
use dodo_payment_gateway.Repository.PaymentAttempts
use dodo_payment_gateway.Repository.IdempotencyKeys
use dodo_payment_gateway.Payment.Guards.{payable_invoice, raise_some, raise_if-ok, return_or}
use dodo_payment_gateway.Payment.Create.{
  open_draft, none_pending, insert_pending, create_body, create_pending_attempt, new_attempt,
  new_key, in_progress,
}
use dodo_payment_gateway.Payment.Invariant.{Inv, is_closed}
use dodo_payment_gateway.Payment.Invariant.Rows.{Inv-frame, insert-attempt-Inv}
use dodo_payment_gateway.Payment.Invariant.Settles.{open-Inv, is_closed-update_self}

-- The invariant, and an invoice that can still be paid.
abbrev pub OpenInv : String → Db → Type 0
OpenInv i d = Inv d × (is_closed i d.invoices ≡ false)

insert_key-invoices :
    (k : IdempotencyKey) (n : ℕ) (d : Db)
    → (IdempotencyKeys.insert_query k n d).1.invoices ≡ d.invoices
unfolding IdempotencyKeys.insert_query
insert_key-invoices k n d = ground arith

insert_attempt-invoices :
    (a : PaymentAttempt) (n : ℕ) (d : Db)
    → (PaymentAttempts.insert_query a n d).1.invoices ≡ d.invoices
unfolding PaymentAttempts.insert_query
insert_attempt-invoices a n d = ground arith

-- SELECT changes nothing.
module _ (I : Db → Type 0) where
  pub get_attempt-Keeps : (id : String) → Keeps (OnDb I) (PaymentAttempts.get_by_id id)
  unfolding PaymentAttempts.get_by_id
  get_attempt-Keeps id = Keeps-statement_db I _ (λ n d h. h)

  pub get_pending-Keeps :
      (i : String) → Keeps (OnDb I) (PaymentAttempts.get_pending_by_invoice_id i)
  unfolding PaymentAttempts.get_pending_by_invoice_id
  get_pending-Keeps i = Keeps-statement_db I _ (λ n d h. h)

  pub get_key-Keeps : (b k : String) → Keeps (OnDb I) (IdempotencyKeys.get_by_key b k)
  unfolding IdempotencyKeys.get_by_key
  get_key-Keeps b k = Keeps-statement_db I _ (λ n d h. h)

  pub none_pending-Keeps : (r : Result PaymentAttempt) → Keeps (OnDb I) (none_pending r)
  unfolding none_pending
  none_pending-Keeps (ok a) = Keeps-raise _
  none_pending-Keeps (err e) = Keeps-if (is_no_rows e) (λ _. Keeps-pure tt) (λ _. Keeps-raise e)

  pub return_or-Keeps :
      {A : Type 0} (f : Error → Error) (r : Result A) → Keeps (OnDb I) (return_or f r)
  unfolding return_or
  return_or-Keeps f (ok a) = Keeps-pure a
  return_or-Keeps f (err e) = Keeps-raise (f e)

-- The key's table is not in the invariant.
create_key-OpenInv :
    (i : String) (k : IdempotencyKey) → Keeps (OnDb (OpenInv i)) (IdempotencyKeys.create k)
unfolding IdempotencyKeys.create
create_key-OpenInv i k = Keeps-statement_db (OpenInv i) _ (λ n d h. (
  Inv-frame (IdempotencyKeys.insert_query k n d).1 (ground arith) (ground arith) (ground arith) h.0,
  subst (λ (xs : List Invoice). is_closed i xs ≡ false) (sym (insert_key-invoices k n d)) h.1,
))

create_attempt-OpenInv :
    (v : Invoice) (b id : String)
    → Keeps (OnDb (OpenInv v.id)) (PaymentAttempts.create (new_attempt v b id))
unfolding PaymentAttempts.create
create_attempt-OpenInv v b id = Keeps-statement_db (OpenInv v.id) _ (λ n d h. (
  insert-attempt-Inv (new_attempt v b id) n d refl h.1 h.0,
  subst (λ (xs : List Invoice). is_closed v.id xs ≡ false)
      (sym (insert_attempt-invoices (new_attempt v b id) n d)) h.1,
))

insert_pending-OpenInv :
    (v : Invoice) (b k h : String) → Keeps (OnDb (OpenInv v.id)) (insert_pending v b k h)
unfolding insert_pending
insert_pending-OpenInv v b k h = Keeps-bind (Keeps-new_uuid (λ w n p. p)) λ attempt_id.
    Keeps-bind (Keeps-new_uuid (λ w n p. p)) λ key_id.
      Keeps-bind (create_key-OpenInv v.id (new_key v b k h attempt_id key_id)) λ _.
        Keeps-bind (Keeps-try (get_pending-Keeps (OpenInv v.id) v.id)) λ pending.
          Keeps-bind (none_pending-Keeps (OpenInv v.id) pending) λ _.
            Keeps-bind (Keeps-try (create_attempt-OpenInv v b attempt_id))
              λ created. return_or-Keeps (OpenInv v.id) in_progress created

open_draft-OpenInv : (v : Invoice) → Keeps (OnDb (OpenInv v.id)) (open_draft v)
unfolding open_draft Invoices.update_status
open_draft-OpenInv v =
    Keeps-if (is_draft v.status)
      (λ _. Keeps-statement_db (OpenInv v.id) _ (λ n d h. (
        open-Inv v.id open_status n d h.1 h.0,
        is_closed-update_self v.id open_status n d.invoices refl,
      )))
      (λ _. Keeps-pure tt)

-- What has been checked when createPendingAttempt starts to write.
pub record Admitted (b i k h : String) (w : World) (r : Result PaymentAttempt × World)
    : Type 0 where
  pub invoice : Invoice
  pub start : World
  pub row : find (Invoices.has_id i) w.db.invoices ≡ some invoice
  pub owner : invoice.business_id ≡ b
  pub payable : is_draft_or_open invoice.status ≡ true
  pub unchanged : start.db ≡ w.db
  pub rest : (open_draft invoice >> insert_pending invoice b k h) start ≡ r

read-invoice :
    (i : String) (w : World) {r : Result Invoice} {u : World} {v : Invoice}
    → try (Invoices.get_by_id_for_update i) w ≡ (ok r, u)
    → r ≡ ok v
    → (find (Invoices.has_id i) w.db.invoices ≡ some v) × (u.db ≡ w.db)
unfolding try Invoices.get_by_id_for_update statement or_no_rows
read-invoice i w e h = ground arith

pub return_or-ok :
    {A : Type 0} (f : Error → Error) (r : Result A) (w : World) {a : A} {u : World}
    → return_or f r w ≡ (ok a, u)
    → (r ≡ ok a) × (w ≡ u)
unfolding return_or pure raise
return_or-ok f (ok a) w h = ground arith
return_or-ok f (err e) w h = cc

raise_some-payable :
    (s : InvoiceStatus) (w : World) {u : World}
    → raise_some (payable_invoice s) w ≡ (ok tt, u)
    → (is_draft_or_open s ≡ true) × (w ≡ u)
unfolding raise_some payable_invoice pure raise
raise_some-payable s w h = ground arith

pub create_body-Admitted :
    (b i k h : String) (w : World) {a : PaymentAttempt} {u : World}
    → create_body b i k h w ≡ (ok a, u)
    → Admitted b i k h w (ok a, u)
unfolding create_body
create_body-Admitted b i k h w e =
    let (read, w1, e1, rest1) = bind-ok _ _ w e in
    let (invoice, w2, e2, rest2) = bind-ok _ _ w1 rest1 in
    let (_, w3, e3, rest3) = bind-ok _ _ w2 rest2 in
    let (_, w4, e4, rest4) = bind-ok _ _ w3 rest3 in
    let is_read = return_or-ok _ read w1 e2 in
    let found = read-invoice i w e1 is_read.0 in
    let owned = raise_if-ok _ _ w2 e3 in
    let checked = raise_some-payable _ w3 e4 in
    record {
      invoice = invoice;
      start = w4;
      row = found.0;
      owner = ground (arith, owned.0, eq_iff invoice.business_id b);
      payable = checked.0;
      unchanged =
          ap (λ (x : World). x.db) (sym checked.1)
          ∙ ap (λ (x : World). x.db) (sym owned.1)
          ∙ ap (λ (x : World). x.db) (sym is_read.1)
          ∙ found.1;
      rest = rest4;
    }

create_body-Inv :
    (b i k h : String) (w : World) (a : PaymentAttempt) (u : World)
    → Inv w.db
    → create_body b i k h w ≡ (ok a, u)
    → Inv u.db
create_body-Inv b i k h w a u v e =
    let c = create_body-Admitted b i k h w e in
    let open_start : OpenInv c.invoice.id c.start.db = (
      subst Inv (sym c.unchanged) v,
      rw (c.unchanged, (eq_iff c.invoice.id i).0 (find_holds (Invoices.has_id i) c.invoice _ c.row))
          (rw (c.row, c.payable) refl),
    ) in
    let after =
      (Keeps-bind (open_draft-OpenInv c.invoice) (λ _. insert_pending-OpenInv c.invoice b k h)).at
        c.start open_start in
    ap-Inv c.rest after.0
  where
    ap-Inv : {r r' : Result PaymentAttempt × World} → r ≡ r' → Inv r.1.db → Inv r'.1.db
    ap-Inv e h = subst (λ (x : Result PaymentAttempt × World). Inv x.1.db) e h

-- A new attempt keeps the invariant, however the transaction ends.
pub create_pending_attempt-Inv :
    (b i k h : String) → Keeps (OnDb Inv) (create_pending_attempt b i k h)
unfolding create_pending_attempt
create_pending_attempt-Inv b i k h = Keeps-transaction Inv (create_body-Inv b i k h)
