-- ===== src/Payment/Webhooks/Done.antt =====
-- What ProcessPSPWebhook of internal/service/payment_service.go leaves of the event of a webhook that it
-- answers with success.
use dodo_payment_gateway.Base.{
  ℕ, ◌≡◌, ◌∙◌, refl, ap, subst, String, Bool, true, false, some, List, ◌==◌, find, eq_refl,
  find-update, find-insert-none, if◌then◌else◌, arith,
}
use dodo_payment_gateway.Model.{WebhookEvent, WebhookEventStatus, OutboundEvent, is_processed}
use dodo_payment_gateway.Errors.{
  Error, Result, ok, err, is_unique_violation, event_id_required, event_type_required,
}
use dodo_payment_gateway.Store.{
  Db, World, ◌>>=◌, pure, raise, try, or_no_rows, time_now, new_uuid, PspWebhookPayload,
}
use dodo_payment_gateway.Store.Laws.{
  bind_elim, pure-ok, try-ok, raise-ne_ok, statement-ok, time_now-ok,
}
use dodo_payment_gateway.Store.Keeps.{OnDb, Keeps-statement_db, Keeps-transaction}
use dodo_payment_gateway.Repository.Invoices
use dodo_payment_gateway.Repository.WebhookEvents
use dodo_payment_gateway.Repository.OutboundEvents
use dodo_payment_gateway.Repository.PaymentAttempts
use dodo_payment_gateway.Payment.Guards.{raise_if, raise_if-ok}
use dodo_payment_gateway.Payment.Frame.{Settling, apply_webhook-Keeps}
use dodo_payment_gateway.Payment.PspWebhook.{
  apply_webhook, apply_and_mark, mark_applied, process_body, apply_recorded, apply_existing,
  new_event,
}

-- The events of the processor are `c`.
abbrev Holds : List WebhookEvent → Db → Type 0
Holds c d = d.webhook_events ≡ c

insert_event-Holds :
    (c : List WebhookEvent) (e : OutboundEvent) (n : ℕ) (d : Db)
    → Holds c d
    → Holds c (OutboundEvents.insert_query e n d).1
unfolding OutboundEvents.insert_query
insert_event-Holds c e n d h = ground (arith, h)

-- Settling an attempt does not touch them.
holding : (c : List WebhookEvent) → Settling (OnDb (Holds c))
unfolding Invoices.get_by_id_for_update Invoices.select_query Invoices.mark_paid_if_open
    Invoices.mark_paid_query PaymentAttempts.get_by_id PaymentAttempts.select_query
    PaymentAttempts.update_status_if_pending PaymentAttempts.update_if_pending_query
    OutboundEvents.create
holding c = record {
  timeless = λ w n h. h;
  transact = λ {A} m k.
      Keeps-transaction (Holds c)
        (λ w a u h e. subst (λ (r : Result A × World). Holds c r.1.db) e (k.at w h));
  lock = λ i. Keeps-statement_db (Holds c) _ (λ n d h. h);
  mark_paid = λ i. Keeps-statement_db (Holds c) _ (λ n d h. h);
  read = λ i. Keeps-statement_db (Holds c) _ (λ n d h. h);
  update = λ i s ref code. Keeps-statement_db (Holds c) _ (λ n d h. h);
  enqueue = λ e. Keeps-statement_db (Holds c) _ (insert_event-Holds c e);
}

-- The event with this id is there, and PROCESSED.
abbrev pub Done : String → Db → Type 0
Done event_id d =
    (event : WebhookEvent) × (find (WebhookEvents.has_event_id event_id) d.webhook_events
      ≡ some event)
    × (is_processed event.status ≡ true)

marked_row :
    (event_id : String) (event : WebhookEvent) (at n : ℕ) (d : Db)
    → find (WebhookEvents.has_event_id event_id) d.webhook_events ≡ some event
    → Done event_id (WebhookEvents.mark_processed_query event.id at n d).1
unfolding WebhookEvents.mark_processed_query
marked_row event_id event at n d row = (
  record event { status = WebhookEventStatus.processed; processed_at = some at },
  find-update (WebhookEvents.has_event_id event_id) (WebhookEvents.has_id event.id) _
        d.webhook_events (λ x. refl)
      ∙ rw (row, eq_refl event.id) refl,
  refl,
)

mark_processed-Done :
    (event_id : String) (event : WebhookEvent) (w : World) {u : World}
    → find (WebhookEvents.has_event_id event_id) w.db.webhook_events ≡ some event
    → WebhookEvents.mark_processed event.id w ≡ (ok tt, u)
    → Done event_id u.db
unfolding WebhookEvents.mark_processed
mark_processed-Done event_id event w {u} row h = bind_elim time_now _ w h λ at v timed marked.
    subst (λ (r : Result (Unit {0}) × Db). Done event_id r.1)
      (statement-ok (WebhookEvents.mark_processed_query event.id at) v marked).0
      (marked_row event_id event at (v.env.clock v.tick) v.db (
        ap (λ (d : Db). find (WebhookEvents.has_event_id event_id) d.webhook_events)
          (time_now-ok w timed).1
        ∙ row))

mark_applied-Done :
    (event_id : String) (event : WebhookEvent) (applied : Result (Unit {0})) (w : World) {u : World}
    → find (WebhookEvents.has_event_id event_id) w.db.webhook_events ≡ some event
    → mark_applied event.id applied w ≡ (ok tt, u)
    → Done event_id u.db
unfolding mark_applied
mark_applied-Done event_id event (ok _) w row h = mark_processed-Done event_id event w row h
mark_applied-Done event_id event (err e) w row h =
    bind_elim (try (WebhookEvents.mark_failed event.id)) _ w h
      λ marked v got raised. absurd (raise-ne_ok e v raised)

apply_and_mark-Done :
    (body : PspWebhookPayload) (event : WebhookEvent) (w : World) {u : World}
    → find (WebhookEvents.has_event_id body.event_id) w.db.webhook_events ≡ some event
    → apply_and_mark body event.id w ≡ (ok tt, u)
    → Done body.event_id u.db
unfolding apply_and_mark try
apply_and_mark-Done body event w row h =
    bind_elim (try (apply_webhook body)) _ w h λ applied v got marked.
      let kept : v.db.webhook_events ≡ w.db.webhook_events =
        subst (λ (r : Result (Unit {0}) × World). Holds w.db.webhook_events r.1.db)
          (try-ok (apply_webhook body) w got)
          ((apply_webhook-Keeps (holding w.db.webhook_events) body).at w refl) in
      mark_applied-Done body.event_id event applied v
        (ap (find (WebhookEvents.has_event_id body.event_id)) kept ∙ row) marked

-- What an INSERT that returns has added is found.
created_row :
    (e : WebhookEvent) (n : ℕ) (d d' : Db) {row : WebhookEvent}
    → WebhookEvents.insert_query e n d ≡ (ok row, d')
    → find (WebhookEvents.has_event_id e.event_id) d'.webhook_events
      ≡ some (record e { created_at = n })
unfolding WebhookEvents.insert_query
created_row e n d d' h = ground (
  arith,
  h,
  eq_refl e.event_id,
  find-insert-none (WebhookEvents.has_event_id e.event_id) (record e { created_at = n })
      d.webhook_events,
)

found_row :
    (id : String) (n : ℕ) (d d' : Db) {row : WebhookEvent}
    → WebhookEvents.select_query id n d ≡ (ok row, d')
    → find (WebhookEvents.has_event_id id) d'.webhook_events ≡ some row
unfolding WebhookEvents.select_query or_no_rows
found_row id n d d' h = ground (arith, h)

module _ (body : PspWebhookPayload) (event : WebhookEvent) (w : World)
    (row : find (WebhookEvents.has_event_id body.event_id) w.db.webhook_events ≡ some event) where
  unless_processed-Done :
      (b : Bool) {u : World}
      → is_processed event.status ≡ b
      → (if b then pure tt else apply_and_mark body event.id) w ≡ (ok tt, u)
      → Done body.event_id u.db
  unless_processed-Done true done h =
      subst (λ (v : World). Done body.event_id v.db) (pure-ok tt w h).1 (event, row, done)
  unless_processed-Done false undone h = apply_and_mark-Done body event w row h

  apply_existing-Done :
      {u : World} → apply_existing body event w ≡ (ok tt, u) → Done body.event_id u.db
  unfolding apply_existing
  apply_existing-Done h = unless_processed-Done (is_processed event.status) refl h

look_up-Done :
    (body : PspWebhookPayload) (b : Bool) (e : Error) (w : World) {u : World}
    → (if b then WebhookEvents.get_by_event_id body.event_id >>= apply_existing body else raise e) w
      ≡ (ok tt, u)
    → Done body.event_id u.db
unfolding WebhookEvents.get_by_event_id
look_up-Done body true e w h =
    bind_elim (WebhookEvents.get_by_event_id body.event_id) _ w h λ event v got applied.
      apply_existing-Done body event v
        (found_row body.event_id (w.env.clock w.tick) w.db v.db
          (statement-ok (WebhookEvents.select_query body.event_id) w got).0)
        applied
look_up-Done body false e w h = absurd (raise-ne_ok e w h)

apply_recorded-Done :
    (body : PspWebhookPayload) (payload id : String) (r : Result WebhookEvent) (w v : World)
    {u : World}
    → WebhookEvents.create (new_event body payload id) w ≡ (r, v)
    → apply_recorded body id r v ≡ (ok tt, u)
    → Done body.event_id u.db
unfolding apply_recorded WebhookEvents.create WebhookEvents.get_by_event_id
apply_recorded-Done body payload id (ok event) w v got h =
    apply_and_mark-Done body
      (record (new_event body payload id) { created_at = w.env.clock w.tick }) v
      (created_row (new_event body payload id) (w.env.clock w.tick) w.db v.db
        (statement-ok (WebhookEvents.insert_query (new_event body payload id)) w got).0)
      h
apply_recorded-Done body payload id (err e) w v got h =
    look_up-Done body (is_unique_violation e) e v h

pub process_body-Done :
    (body : PspWebhookPayload) (payload : String) (w : World) {u : World}
    → process_body body payload w ≡ (ok tt, u)
    → ((body.event_id == "") ≡ false) × ((body.event_type == "") ≡ false) × Done body.event_id u.db
unfolding process_body
process_body-Done body payload w h =
    bind_elim (raise_if (body.event_id == "") event_id_required) _ w h λ _ w1 named h1.
      bind_elim (raise_if (body.event_type == "") event_type_required) _ w1 h1 λ _ w2 typed h2.
        bind_elim new_uuid _ w2 h2 λ id w3 drawn h3.
          bind_elim (try (WebhookEvents.create (new_event body payload id))) _ w3 h3
            λ created w4 got h4. (
              (raise_if-ok _ _ w named).0,
              (raise_if-ok _ _ w1 typed).0,
              apply_recorded-Done body payload id created w3 w4
                  (try-ok (WebhookEvents.create (new_event body payload id)) w3 got) h4,
            )
