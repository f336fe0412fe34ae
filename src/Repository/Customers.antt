-- ===== src/Repository/Customers.antt =====
-- internal/repository/customer_repository.go over the table `customers`.
use dodo_payment_gateway.Base.{
  ℕ, String, Bool, ◌&&◌, ◌||◌, ◌==◌, if◌then◌else◌, find, is_some, insert,
}
use dodo_payment_gateway.Model.{Business, Customer}
use dodo_payment_gateway.Errors.{Result, ok, err, unique_violation, constraint_violation}
use dodo_payment_gateway.Store.{Db, M, statement, or_no_rows}

abbrev pub has_id : String → Customer → Bool
has_id id c = c.id == id

abbrev pub has_email : String → String → Customer → Bool
has_email business_id email c = c.business_id == business_id && c.email == email

-- The primary key, UNIQUE (business_id, email), and FOREIGN KEY (business_id).
unfoldable pub insert_query : Customer → ℕ → Db → Result Customer × Db
insert_query c now d =
    let row = record c { created_at = now } in
    if is_some (find (has_id c.id) d.customers)
      || is_some (find (has_email c.business_id c.email) d.customers)
    then (err unique_violation, d)
    else if is_some (find (λ (b : Business). b.id == c.business_id) d.businesses)
    then (ok row, record d { customers = insert row d.customers })
    else (err constraint_violation, d)

unfoldable pub create : Customer → M Customer
unfolding insert_query
create c = statement (insert_query c)

unfoldable pub select_query : String → ℕ → Db → Result Customer × Db
unfolding or_no_rows
select_query id now d = (or_no_rows (find (has_id id) d.customers), d)

unfoldable pub get_by_id : String → M Customer
unfolding select_query
get_by_id id = statement (select_query id)
