-- ===== src/Repository/Businesses.antt =====
-- internal/repository/business_repository.go over the table `businesses`.
use dodo_payment_gateway.Base.{
  ℕ, String, Bool, none, some, ◌==◌, if◌then◌else◌, find, is_some, update, insert,
}
use dodo_payment_gateway.Model.{Business}
use dodo_payment_gateway.Errors.{Result, ok, err, unique_violation}
use dodo_payment_gateway.Store.{Db, M, statement, or_no_rows}

abbrev pub has_id : String → Business → Bool
has_id id b = b.id == id

-- The INSERT leaves out webhook_url, which is then NULL.
unfoldable pub insert_query : Business → ℕ → Db → Result Business × Db
insert_query b now d =
    if is_some (find (has_id b.id) d.businesses) then (err unique_violation, d) else (
      ok (record b { created_at = now }),
      record d {
        businesses = insert (record b { webhook_url = none; created_at = now }) d.businesses;
      },
    )

unfoldable pub create : Business → M Business
unfolding insert_query
create b = statement (insert_query b)

unfoldable pub select_query : String → ℕ → Db → Result Business × Db
unfolding or_no_rows
select_query id now d = (or_no_rows (find (has_id id) d.businesses), d)

unfoldable pub get_by_id : String → M Business
unfolding select_query
get_by_id id = statement (select_query id)

unfoldable pub update_endpoint_query : String → String → String → ℕ → Db → Result (Unit {0}) × Db
update_endpoint_query id url secret now d = (
  ok tt,
  record d {
    businesses =
        update (has_id id) (λ b. record b { webhook_url = some url; webhook_secret = secret })
          d.businesses;
  },
)

unfoldable pub update_webhook_endpoint : String → String → String → M (Unit {0})
unfolding update_endpoint_query
update_webhook_endpoint id url secret = statement (update_endpoint_query id url secret)

unfoldable pub exists_query : String → ℕ → Db → Result Bool × Db
exists_query id now d = (ok (is_some (find (has_id id) d.businesses)), d)

unfoldable pub exists : String → M Bool
unfolding exists_query
exists id = statement (exists_query id)
