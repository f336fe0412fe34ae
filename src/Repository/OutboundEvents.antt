-- ===== src/Repository/OutboundEvents.antt =====
-- internal/repository/outbound_event_repository.go over the table `outbound_events`, the outbox.
use dodo_payment_gateway.Base.{
  ℕ, String, Bool, false, ◌&&◌, ◌||◌, none, some, ◌==◌, leb, if◌then◌else◌, List, [], ◌∷◌, find,
  is_some, update, insert, select, take, order_by,
}
use dodo_payment_gateway.Model.{Business, OutboundEvent, OutboundEventStatus, is_due_status}
use dodo_payment_gateway.Errors.{
  Result, ok, err, unique_violation, constraint_violation, undefined_operator,
}
use dodo_payment_gateway.Store.{Db, M, statement, or_no_rows}

abbrev pub has_id : String → OutboundEvent → Bool
has_id id e = e.id == id

abbrev pub has_source : String → String → OutboundEvent → Bool
has_source event_type source_id e = e.event_type == event_type && e.source_id == source_id

abbrev pub as_row : OutboundEvent → ℕ → OutboundEvent
as_row e now = record e { last_error = none; created_at = now; delivered_at = none }

-- ON CONFLICT (event_type, source_id) DO NOTHING comes back with no row, which is no error here. The
-- primary key and FOREIGN KEY (business_id) are not in the conflict target.
unfoldable pub insert_query : OutboundEvent → ℕ → Db → Result (Unit {0}) × Db
insert_query e now d =
    if is_some (find (has_source e.event_type e.source_id) d.outbound_events)
    then (ok tt, d)
    else if is_some (find (has_id e.id) d.outbound_events)
    then (err unique_violation, d)
    else if is_some (find (λ (b : Business). b.id == e.business_id) d.businesses)
    then (ok tt, record d { outbound_events = insert (as_row e now) d.outbound_events })
    else (err constraint_violation, d)

unfoldable pub create : OutboundEvent → M (Unit {0})
unfolding insert_query
create e = statement (insert_query e)

unfoldable pub select_query : String → ℕ → Db → Result OutboundEvent × Db
unfolding or_no_rows
select_query id now d = (or_no_rows (find (has_id id) d.outbound_events), d)

unfoldable pub get_by_id : String → M OutboundEvent
unfolding select_query
get_by_id id = statement (select_query id)

-- UPDATE … WHERE id = $n
unfoldable pub change_query :
    String → (OutboundEvent → OutboundEvent) → ℕ → Db → Result (Unit {0}) × Db
change_query id f now d =
    (ok tt, record d { outbound_events = update (has_id id) f d.outbound_events })

abbrev pub as_delivered : ℕ → OutboundEvent → OutboundEvent
as_delivered at e = record e {
  status = OutboundEventStatus.delivered;
  delivered_at = some at;
  last_error = none;
}

unfoldable pub mark_delivered : String → ℕ → M (Unit {0})
unfolding change_query
mark_delivered id at = statement (change_query id (as_delivered at))

abbrev pub as_retry : ℕ → ℕ → String → OutboundEvent → OutboundEvent
as_retry attempt_count next_retry_at last_error e = record e {
  status = OutboundEventStatus.pending;
  attempt_count = attempt_count;
  next_retry_at = next_retry_at;
  last_error = some last_error;
}

unfoldable pub mark_retry : String → ℕ → ℕ → String → M (Unit {0})
unfolding change_query
mark_retry id attempt_count next_retry_at last_error =
    statement (change_query id (as_retry attempt_count next_retry_at last_error))

abbrev pub as_failed : ℕ → String → OutboundEvent → OutboundEvent
as_failed attempt_count last_error e = record e {
  status = OutboundEventStatus.failed;
  attempt_count = attempt_count;
  last_error = some last_error;
}

unfoldable pub mark_failed : String → ℕ → String → M (Unit {0})
unfolding change_query
mark_failed id attempt_count last_error =
    statement (change_query id (as_failed attempt_count last_error))

abbrev pub as_reset : ℕ → OutboundEvent → OutboundEvent
as_reset now e = record e {
  status = OutboundEventStatus.pending;
  attempt_count = 0;
  next_retry_at = now;
  last_error = none;
  delivered_at = none;
}

unfoldable pub reset_for_redelivery : String → ℕ → M (Unit {0})
unfolding change_query
reset_for_redelivery id now = statement (change_query id (as_reset now))

-- `status = 'PENDING' AND next_retry_at <= $1`
abbrev pub is_due : ℕ → OutboundEvent → Bool
is_due at e = is_due_status e.status && leb e.next_retry_at at

-- ORDER BY next_retry_at
abbrev pub due_first : OutboundEvent → OutboundEvent → Bool
due_first a b = leb a.next_retry_at b.next_retry_at

unfoldable pub is_one_of : List OutboundEvent → OutboundEvent → Bool
is_one_of [] e = false
is_one_of (x ∷ xs) e = x.id == e.id || is_one_of xs e

abbrev pub as_delivering : OutboundEvent → OutboundEvent
as_delivering e = record e { status = OutboundEventStatus.delivering }

-- RETURNING gives the changed rows; here they come in the order of the table.
unfoldable pub claim_query : ℕ → ℕ → ℕ → Db → Result (List OutboundEvent) × Db
unfolding is_one_of
claim_query limit at now d =
    let due = take limit (order_by due_first (select (is_due at) d.outbound_events)) in
    let rows = update (is_one_of due) as_delivering d.outbound_events in
    (ok (select (is_one_of due) rows), record d { outbound_events = rows })

unfoldable pub claim_due : ℕ → ℕ → M (List OutboundEvent)
unfolding claim_query
claim_due limit at = statement (claim_query limit at)

-- `$2 = ''` makes the parameter a text, and `id = $2` then compares the UUID of `id` with a text, for
-- which there is no operator: PostgreSQL refuses to prepare the statement, whatever the rows are.
unfoldable pub list_query : String → String → ℕ → ℕ → Db → Result (List OutboundEvent) × Db
list_query business_id after_id limit now d = (err undefined_operator, d)

unfoldable pub list_by_business : String → String → ℕ → M (List OutboundEvent)
unfolding list_query
list_by_business business_id after_id limit = statement (list_query business_id after_id limit)
