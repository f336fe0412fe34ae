-- ===== src/Endpoints/Redelivery.antt =====
-- What Redeliver does when it returns.
use dodo_payment_gateway.Base.{
  ℕ, suc, none, ◌≡◌, ◌∙◌, refl, sym, ap, String, List, some, find, update, arith, eq_iff,
  find-update,
}
use dodo_payment_gateway.Model.{OutboundEvent, OutboundEventStatus}
use dodo_payment_gateway.Errors.{ok}
use dodo_payment_gateway.Store.{
  Env, Db, World, ◌>>=◌, pure, raise, try, time_now, statement, or_no_rows,
}
use dodo_payment_gateway.Store.Laws.{time_now-ok, bind_elim}
use dodo_payment_gateway.Repository.OutboundEvents
use dodo_payment_gateway.Payment.Guards.{return_or}
use dodo_payment_gateway.Endpoints.{redeliver, get_event, check_event_owner}

get_event-ok :
    (business_id event_id : String) (w : World) {e : OutboundEvent} {u : World}
    → get_event business_id event_id w ≡ (ok e, u)
    → (find (OutboundEvents.has_id event_id) w.db.outbound_events ≡ some e)
      × (e.business_id ≡ business_id)
      × (u.db ≡ w.db)
      × (u.env ≡ w.env)
      × (u.tick ≡ suc w.tick)
unfolding get_event check_event_owner return_or OutboundEvents.get_by_id statement or_no_rows ◌>>=◌
    raise pure try
get_event-ok business_id event_id w {e} h = (
  ground arith,
  ground (arith, eq_iff e.business_id business_id),
  ground arith,
  ground arith,
  ground arith,
)

reset-ok :
    (id : String) (now : ℕ) (w : World) {u : World}
    → OutboundEvents.reset_for_redelivery id now w ≡ (ok tt, u)
    → u.db.outbound_events
      ≡ update (OutboundEvents.has_id id) (OutboundEvents.as_reset now) w.db.outbound_events
unfolding OutboundEvents.reset_for_redelivery OutboundEvents.change_query statement
reset-ok id now w h = ground arith

some_path : {a b : OutboundEvent} → some a ≡ some b → a ≡ b
some_path h = cc h

reset_row :
    (id : String) (now : ℕ) (rows : List OutboundEvent) {before : OutboundEvent}
    → find (OutboundEvents.has_id id) rows ≡ some before
    → find
        (OutboundEvents.has_id id)
        (update (OutboundEvents.has_id before.id) (OutboundEvents.as_reset now) rows)
      ≡ some (OutboundEvents.as_reset now before)
reset_row id now rows {before} found =
    find-update (OutboundEvents.has_id id) (OutboundEvents.has_id before.id)
      (OutboundEvents.as_reset now) rows (λ x. refl)
    ∙ ground (arith, found, eq_iff before.id before.id)

-- The event of the business as it was, and as it is returned and stored.
pub record Redelivered (business_id event_id : String) (w : World) (e : OutboundEvent) (w' : World)
    : Type 0 where
  pub before : OutboundEvent
  pub found : find (OutboundEvents.has_id event_id) w.db.outbound_events ≡ some before
  pub owner : before.business_id ≡ business_id
  pub stored : find (OutboundEvents.has_id event_id) w'.db.outbound_events ≡ some e
  pub status : e.status ≡ OutboundEventStatus.pending
  pub no_failure : e.attempt_count ≡ 0
  pub due : e.next_retry_at ≡ w.env.clock (suc w.tick)
  pub no_error : e.last_error ≡ none
  pub undelivered : e.delivered_at ≡ none
  pub same :
      (e.id ≡ before.id)
      × (e.business_id ≡ before.business_id)
      × (e.source_id ≡ before.source_id)
      × (e.event_type ≡ before.event_type)
      × (e.payload ≡ before.payload)
      × (e.created_at ≡ before.created_at)

-- Redeliver returns an event only to the business that owns it: the row of that id, which is now
-- PENDING, due at the time that the clock gave when the event had been read, with no failure, no error
-- and no delivery counted, whatever its status and its failures were, and otherwise as it was.
pub redeliver-ok :
    (business_id event_id : String) (w : World) {e : OutboundEvent} {w' : World}
    → redeliver business_id event_id w ≡ (ok e, w')
    → Redelivered business_id event_id w e w'
unfolding redeliver
redeliver-ok business_id event_id w {e} {w'} h =
    bind_elim (get_event business_id event_id) _ w h λ before u1 read h1.
      bind_elim time_now _ u1 h1 λ now u2 timed h2.
        bind_elim (OutboundEvents.reset_for_redelivery before.id now) _ u2 h2 λ _ u3 reset again.
          let (found, owner, same, env, tick) = get_event-ok business_id event_id w read in
          let (found', _, same', _, _) = get_event-ok business_id event_id u3 again in
          let (clock, passed) = time_now-ok u1 timed in
          let rows = reset-ok before.id now u2 reset in
          let stored =
            ap (find (OutboundEvents.has_id event_id)) (
              rows
              ∙ ap
                  (λ (d : Db).
                    update (OutboundEvents.has_id before.id) (OutboundEvents.as_reset now)
                      d.outbound_events)
                  (passed ∙ same))
            ∙ reset_row event_id now w.db.outbound_events found in
          let shape = some_path (sym found' ∙ stored) in
          let at = clock ∙ ap (λ (e : Env). e.clock u1.tick) env ∙ ap w.env.clock tick in
          record {
            before = before;
            found = found;
            owner = owner;
            stored =
                ap (λ (d : Db). find (OutboundEvents.has_id event_id) d.outbound_events) same'
                ∙ found';
            status = ap (λ (x : OutboundEvent). x.status) shape;
            no_failure = ap (λ (x : OutboundEvent). x.attempt_count) shape;
            due = ap (λ (x : OutboundEvent). x.next_retry_at) shape ∙ at;
            no_error = ap (λ (x : OutboundEvent). x.last_error) shape;
            undelivered = ap (λ (x : OutboundEvent). x.delivered_at) shape;
            same = (
              ap (λ (x : OutboundEvent). x.id) shape,
              ap (λ (x : OutboundEvent). x.business_id) shape,
              ap (λ (x : OutboundEvent). x.source_id) shape,
              ap (λ (x : OutboundEvent). x.event_type) shape,
              ap (λ (x : OutboundEvent). x.payload) shape,
              ap (λ (x : OutboundEvent). x.created_at) shape,
            );
          }
