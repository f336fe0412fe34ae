-- ===== src/Repository/PaymentAttempts.antt =====
-- internal/repository/payment_attempt_repository.go over the table `payment_attempts`.
use dodo_payment_gateway.Base.{
  ℕ, String, Bool, ◌&&◌, ◌||◌, Option, none, ◌==◌, ltb, if◌then◌else◌, find, is_some, count, update,
  insert,
}
use dodo_payment_gateway.Base.Int.{pos, ltb_ℤ}
use dodo_payment_gateway.Model.{Business, Invoice, PaymentAttempt, PaymentAttemptStatus, is_pending}
use dodo_payment_gateway.Errors.{Result, ok, err, unique_violation, constraint_violation}
use dodo_payment_gateway.Store.{Db, M, statement, or_no_rows}

abbrev pub has_id : String → PaymentAttempt → Bool
has_id id a = a.id == id

abbrev pub is_pending_of : String → PaymentAttempt → Bool
is_pending_of invoice_id a = a.invoice_id == invoice_id && is_pending a.status

-- FOREIGN KEY (invoice_id), (business_id) and CHECK (amount > 0).
unfoldable pub is_insertable : PaymentAttempt → Db → Bool
is_insertable a d =
    is_some (find (λ (v : Invoice). v.id == a.invoice_id) d.invoices)
    && is_some (find (λ (b : Business). b.id == a.business_id) d.businesses)
    && ltb_ℤ (pos 0) a.amount

-- The primary key, and idx_one_pending_attempt_per_invoice: one PENDING row for an invoice.
unfoldable pub is_duplicate : PaymentAttempt → Db → Bool
is_duplicate a d =
    is_some (find (has_id a.id) d.payment_attempts)
    || (is_pending a.status && is_some (find (is_pending_of a.invoice_id) d.payment_attempts))

-- The columns that INSERT leaves out are NULL.
abbrev pub as_row : PaymentAttempt → ℕ → PaymentAttempt
as_row a now = record a {
  psp_transaction_id = none;
  failure_code = none;
  created_at = now;
  updated_at = now;
}

unfoldable pub insert_query : PaymentAttempt → ℕ → Db → Result PaymentAttempt × Db
insert_query a now d =
    if is_duplicate a d
    then (err unique_violation, d)
    else if is_insertable a d
    then (
      ok (record a { created_at = now; updated_at = now }),
      record d { payment_attempts = insert (as_row a now) d.payment_attempts },
    )
    else (err constraint_violation, d)

unfoldable pub create : PaymentAttempt → M PaymentAttempt
unfolding insert_query
create a = statement (insert_query a)

abbrev pub set_status :
    PaymentAttemptStatus → Option String → Option String → ℕ → PaymentAttempt → PaymentAttempt
set_status s psp_transaction_id failure_code now a = record a {
  status = s;
  psp_transaction_id = psp_transaction_id;
  failure_code = failure_code;
  updated_at = now;
}

unfoldable pub update_status_query :
    String → PaymentAttemptStatus → Option String → Option String → ℕ → Db → Result (Unit {0}) × Db
update_status_query id s ref code now d = (
  ok tt,
  record d { payment_attempts = update (has_id id) (set_status s ref code now) d.payment_attempts },
)

unfoldable pub update_status :
    String → PaymentAttemptStatus → Option String → Option String → M (Unit {0})
unfolding update_status_query
update_status id s ref code = statement (update_status_query id s ref code)

abbrev pub is_pending_id : String → PaymentAttempt → Bool
is_pending_id id a = has_id id a && is_pending a.status

-- The Boolean is `tag.RowsAffected() > 0`.
unfoldable pub update_if_pending_query :
    String → PaymentAttemptStatus → Option String → Option String → ℕ → Db → Result Bool × Db
update_if_pending_query id s ref code now d = (
  ok (ltb 0 (count (is_pending_id id) d.payment_attempts)),
  record d {
    payment_attempts = update (is_pending_id id) (set_status s ref code now) d.payment_attempts;
  },
)

unfoldable pub update_status_if_pending :
    String → PaymentAttemptStatus → Option String → Option String → M Bool
unfolding update_if_pending_query
update_status_if_pending id s ref code = statement (update_if_pending_query id s ref code)

unfoldable pub select_pending_query : String → ℕ → Db → Result PaymentAttempt × Db
unfolding or_no_rows
select_pending_query invoice_id now d =
    (or_no_rows (find (is_pending_of invoice_id) d.payment_attempts), d)

unfoldable pub get_pending_by_invoice_id : String → M PaymentAttempt
unfolding select_pending_query
get_pending_by_invoice_id invoice_id = statement (select_pending_query invoice_id)

unfoldable pub select_query : String → ℕ → Db → Result PaymentAttempt × Db
unfolding or_no_rows
select_query id now d = (or_no_rows (find (has_id id) d.payment_attempts), d)

unfoldable pub get_by_id : String → M PaymentAttempt
unfolding select_query
get_by_id id = statement (select_query id)
