-- ===== src/Repository/Invoices.antt =====
-- internal/repository/invoice_repository.go over the table `invoices`.
use dodo_payment_gateway.Base.{
  ℕ, String, Bool, ◌&&◌, ◌==◌, if◌then◌else◌, find, is_some, update, insert,
}
use dodo_payment_gateway.Base.Int.{pos, ltb_ℤ}
use dodo_payment_gateway.Model.{Business, Customer, Invoice, InvoiceStatus, is_draft_or_open, paid}
use dodo_payment_gateway.Errors.{Result, ok, err, unique_violation, constraint_violation}
use dodo_payment_gateway.Store.{Db, M, statement, or_no_rows}

abbrev pub has_id : String → Invoice → Bool
has_id id v = v.id == id

-- FOREIGN KEY (business_id), (customer_id) and CHECK (amount > 0).
unfoldable pub is_insertable : Invoice → Db → Bool
is_insertable v d =
    is_some (find (λ (b : Business). b.id == v.business_id) d.businesses)
    && is_some (find (λ (c : Customer). c.id == v.customer_id) d.customers)
    && ltb_ℤ (pos 0) v.amount

unfoldable pub insert_query : Invoice → ℕ → Db → Result Invoice × Db
insert_query v now d =
    let row = record v { created_at = now; updated_at = now } in
    if is_some (find (has_id v.id) d.invoices)
    then (err unique_violation, d)
    else if is_insertable v d
    then (ok row, record d { invoices = insert row d.invoices })
    else (err constraint_violation, d)

unfoldable pub create : Invoice → M Invoice
unfolding insert_query
create v = statement (insert_query v)

unfoldable pub select_query : String → ℕ → Db → Result Invoice × Db
unfolding or_no_rows
select_query id now d = (or_no_rows (find (has_id id) d.invoices), d)

unfoldable pub get_by_id : String → M Invoice
unfolding select_query
get_by_id id = statement (select_query id)

-- SELECT … FOR UPDATE. The row lock lasts to the end of the transaction, which is one step of the
-- model, so that it reads as the plain SELECT does.
unfoldable pub get_by_id_for_update : String → M Invoice
unfolding select_query
get_by_id_for_update id = statement (select_query id)

abbrev pub set_status : InvoiceStatus → ℕ → Invoice → Invoice
set_status s now v = record v { status = s; updated_at = now }

unfoldable pub update_status_query : String → InvoiceStatus → ℕ → Db → Result (Unit {0}) × Db
update_status_query id s now d =
    (ok tt, record d { invoices = update (has_id id) (set_status s now) d.invoices })

unfoldable pub update_status : String → InvoiceStatus → M (Unit {0})
unfolding update_status_query
update_status id s = statement (update_status_query id s)

unfoldable pub mark_paid_query : String → ℕ → Db → Result (Unit {0}) × Db
mark_paid_query id now d = (
  ok tt,
  record d {
    invoices =
        update (λ v. has_id id v && is_draft_or_open v.status) (set_status paid now) d.invoices;
  },
)

unfoldable pub mark_paid_if_open : String → M (Unit {0})
unfolding mark_paid_query
mark_paid_if_open id = statement (mark_paid_query id)
