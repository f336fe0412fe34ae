-- ===== src/Repository/IdempotencyKeys.antt =====
-- internal/repository/idempotency_repository.go over the table `idempotency_keys`.
use dodo_payment_gateway.Base.{
  ℕ, String, Bool, ◌&&◌, ◌||◌, some, ◌==◌, if◌then◌else◌, find, is_some, update, insert,
}
use dodo_payment_gateway.Model.{Business, Invoice, IdempotencyKey}
use dodo_payment_gateway.Errors.{Result, ok, err, unique_violation, constraint_violation}
use dodo_payment_gateway.Store.{Db, M, statement, or_no_rows}

abbrev pub has_id : String → IdempotencyKey → Bool
has_id id k = k.id == id

abbrev pub has_key : String → String → IdempotencyKey → Bool
has_key business_id idempotency_key k =
    k.business_id == business_id && k.idempotency_key == idempotency_key

-- FOREIGN KEY (business_id), (invoice_id).
unfoldable pub is_insertable : IdempotencyKey → Db → Bool
is_insertable k d =
    is_some (find (λ (b : Business). b.id == k.business_id) d.businesses)
    && is_some (find (λ (v : Invoice). v.id == k.invoice_id) d.invoices)

-- The primary key and UNIQUE (business_id, idempotency_key).
unfoldable pub is_duplicate : IdempotencyKey → Db → Bool
is_duplicate k d =
    is_some (find (has_id k.id) d.idempotency_keys)
    || is_some (find (has_key k.business_id k.idempotency_key) d.idempotency_keys)

unfoldable pub insert_query : IdempotencyKey → ℕ → Db → Result IdempotencyKey × Db
insert_query k now d =
    let row = record k { created_at = now } in
    if is_duplicate k d
    then (err unique_violation, d)
    else if is_insertable k d
    then (ok row, record d { idempotency_keys = insert row d.idempotency_keys })
    else (err constraint_violation, d)

unfoldable pub create : IdempotencyKey → M IdempotencyKey
unfolding insert_query
create k = statement (insert_query k)

unfoldable pub select_query : String → String → ℕ → Db → Result IdempotencyKey × Db
unfolding or_no_rows
select_query business_id idempotency_key now d =
    (or_no_rows (find (has_key business_id idempotency_key) d.idempotency_keys), d)

unfoldable pub get_by_key : String → String → M IdempotencyKey
unfolding select_query
get_by_key business_id idempotency_key = statement (select_query business_id idempotency_key)

unfoldable pub set_attempt_query : String → String → ℕ → Db → Result (Unit {0}) × Db
set_attempt_query id attempt_id now d = (
  ok tt,
  record d {
    idempotency_keys =
        update (has_id id) (λ k. record k { payment_attempt_id = some attempt_id })
          d.idempotency_keys;
  },
)

unfoldable pub set_payment_attempt_id : String → String → M (Unit {0})
unfolding set_attempt_query
set_payment_attempt_id id attempt_id = statement (set_attempt_query id attempt_id)
