-- ===== src/Repository/ApiKeys.antt =====
-- internal/repository/api_key_repository.go over the table `api_keys`.
use dodo_payment_gateway.Base.{
  ℕ, String, Bool, not, ◌&&◌, ◌||◌, none, some, List, ◌==◌, leb, if◌then◌else◌, find, is_some,
  count, update, select, insert, order_by,
}
use dodo_payment_gateway.Model.{Business, ApiKey}
use dodo_payment_gateway.Errors.{Result, ok, err, unique_violation, constraint_violation}
use dodo_payment_gateway.Store.{Db, M, statement, or_no_rows}

abbrev pub has_id : String → ApiKey → Bool
has_id id k = k.id == id

abbrev pub has_hash : String → ApiKey → Bool
has_hash key_hash k = k.key_hash == key_hash

-- `revoked_at IS NULL`
abbrev pub is_active : ApiKey → Bool
is_active k = not (is_some k.revoked_at)

abbrev pub is_active_with : String → ApiKey → Bool
is_active_with key_hash k = has_hash key_hash k && is_active k

abbrev pub is_active_of : String → ApiKey → Bool
is_active_of business_id k = k.business_id == business_id && is_active k

-- last_used_at and revoked_at are left out, so that they are NULL.
abbrev pub as_row : ApiKey → ℕ → ApiKey
as_row k now = record k { created_at = now; last_used_at = none; revoked_at = none }

-- The primary key and UNIQUE (key_hash), and FOREIGN KEY (business_id).
unfoldable pub insert_query : ApiKey → ℕ → Db → Result ApiKey × Db
insert_query k now d =
    if is_some (find (has_id k.id) d.api_keys) || is_some (find (has_hash k.key_hash) d.api_keys)
    then (err unique_violation, d)
    else if is_some (find (λ (b : Business). b.id == k.business_id) d.businesses)
    then (
      ok (record k { created_at = now }),
      record d { api_keys = insert (as_row k now) d.api_keys },
    )
    else (err constraint_violation, d)

unfoldable pub create : ApiKey → M ApiKey
unfolding insert_query
create k = statement (insert_query k)

unfoldable pub select_active_query : String → ℕ → Db → Result ApiKey × Db
unfolding or_no_rows
select_active_query key_hash now d = (or_no_rows (find (is_active_with key_hash) d.api_keys), d)

unfoldable pub get_by_hash : String → M ApiKey
unfolding select_active_query
get_by_hash key_hash = statement (select_active_query key_hash)

unfoldable pub select_query : String → ℕ → Db → Result ApiKey × Db
unfolding or_no_rows
select_query id now d = (or_no_rows (find (has_id id) d.api_keys), d)

unfoldable pub get_by_id : String → M ApiKey
unfolding select_query
get_by_id id = statement (select_query id)

-- ORDER BY created_at DESC
abbrev pub newest_first : ApiKey → ApiKey → Bool
newest_first a b = leb b.created_at a.created_at

unfoldable pub list_query : String → ℕ → Db → Result (List ApiKey) × Db
list_query business_id now d =
    (ok (order_by newest_first (select (λ k. k.business_id == business_id) d.api_keys)), d)

unfoldable pub list_by_business : String → M (List ApiKey)
unfolding list_query
list_by_business business_id = statement (list_query business_id)

unfoldable pub count_active_query : String → ℕ → Db → Result ℕ × Db
count_active_query business_id now d = (ok (count (is_active_of business_id) d.api_keys), d)

unfoldable pub count_active : String → M ℕ
unfolding count_active_query
count_active business_id = statement (count_active_query business_id)

unfoldable pub revoke_query : String → ℕ → ℕ → Db → Result (Unit {0}) × Db
revoke_query id at now d = (
  ok tt,
  record d {
    api_keys =
        update (λ k. has_id id k && is_active k) (λ k. record k { revoked_at = some at })
          d.api_keys;
  },
)

unfoldable pub revoke : String → ℕ → M (Unit {0})
unfolding revoke_query
revoke id at = statement (revoke_query id at)

unfoldable pub touch_query : String → ℕ → ℕ → Db → Result (Unit {0}) × Db
touch_query id at now d = (
  ok tt,
  record d { api_keys = update (has_id id) (λ k. record k { last_used_at = some at }) d.api_keys },
)

unfoldable pub touch_last_used : String → ℕ → M (Unit {0})
unfolding touch_query
touch_last_used id at = statement (touch_query id at)
