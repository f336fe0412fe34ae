-- ===== src/Repository/WebhookEvents.antt =====
-- internal/repository/webhook_event_repository.go over the table `webhook_events`. The unused
-- `GetPending` orders by created_at, which is the order of insertion.
use dodo_payment_gateway.Base.{
  ℕ, String, Bool, ◌||◌, some, List, ◌==◌, if◌then◌else◌, find, is_some, update, insert, select,
  take,
}
use dodo_payment_gateway.Model.{WebhookEvent, WebhookEventStatus, is_unprocessed}
use dodo_payment_gateway.Errors.{Result, ok, err, unique_violation}
use dodo_payment_gateway.Store.{Db, M, statement, or_no_rows, time_now, ◌>>=◌}

abbrev pub has_id : String → WebhookEvent → Bool
has_id id e = e.id == id

abbrev pub has_event_id : String → WebhookEvent → Bool
has_event_id event_id e = e.event_id == event_id

-- The primary key and UNIQUE (event_id).
unfoldable pub insert_query : WebhookEvent → ℕ → Db → Result WebhookEvent × Db
insert_query e now d =
    let row = record e { created_at = now } in
    if is_some (find (has_id e.id) d.webhook_events)
      || is_some (find (has_event_id e.event_id) d.webhook_events)
    then (err unique_violation, d)
    else (ok row, record d { webhook_events = insert row d.webhook_events })

unfoldable pub create : WebhookEvent → M WebhookEvent
unfolding insert_query
create e = statement (insert_query e)

unfoldable pub select_query : String → ℕ → Db → Result WebhookEvent × Db
unfolding or_no_rows
select_query event_id now d = (or_no_rows (find (has_event_id event_id) d.webhook_events), d)

unfoldable pub get_by_event_id : String → M WebhookEvent
unfolding select_query
get_by_event_id event_id = statement (select_query event_id)

unfoldable pub select_pending_query : ℕ → ℕ → Db → Result (List WebhookEvent) × Db
select_pending_query limit now d =
    (ok (take limit (select (λ e. is_unprocessed e.status) d.webhook_events)), d)

unfoldable pub get_pending : ℕ → M (List WebhookEvent)
unfolding select_pending_query
get_pending limit = statement (select_pending_query limit)

unfoldable pub mark_processed_query : String → ℕ → ℕ → Db → Result (Unit {0}) × Db
mark_processed_query id at now d = (
  ok tt,
  record d {
    webhook_events =
        update (has_id id)
          (λ e. record e { status = WebhookEventStatus.processed; processed_at = some at })
          d.webhook_events;
  },
)

unfoldable pub mark_processed : String → M (Unit {0})
unfolding mark_processed_query
mark_processed id = do at ← time_now; statement (mark_processed_query id at)

unfoldable pub mark_failed_query : String → ℕ → Db → Result (Unit {0}) × Db
mark_failed_query id now d = (
  ok tt,
  record d {
    webhook_events =
        update (has_id id) (λ e. record e { status = WebhookEventStatus.failed }) d.webhook_events;
  },
)

unfoldable pub mark_failed : String → M (Unit {0})
unfolding mark_failed_query
mark_failed id = statement (mark_failed_query id)
