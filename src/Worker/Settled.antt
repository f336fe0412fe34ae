-- ===== src/Worker/Settled.antt =====
-- DeliverDue as a whole.
use dodo_payment_gateway.Base.{
  ℕ, suc, ◌+◌, ◌≤◌, ◌≡◌, refl, inl, inr, String, Bool, true, false, ◌&&◌, Option, none, some, List,
  [], ◌∷◌, ◌==◌, if◌then◌else◌, count, update, select, Bool-cases, arith, eq_iff,
}
use dodo_payment_gateway.Model.{Business, OutboundEvent, OutboundEventStatus}
use dodo_payment_gateway.Errors.{Result, ok, err}
use dodo_payment_gateway.Store.{
  World, Outcome, DeliveryReply, ◌>>=◌, pure, try, asks, time_now, statement,
}
use dodo_payment_gateway.Store.Laws.{then_lem}
use dodo_payment_gateway.Store.Keeps.{Keeps-statement_blind}
use dodo_payment_gateway.Repository.Businesses
use dodo_payment_gateway.Repository.OutboundEvents
use dodo_payment_gateway.Repository.OutboundEvents.{
  is_one_of, as_delivering, as_delivered, as_retry, as_failed,
}
use dodo_payment_gateway.Webhook.Retry.{claim_batch_size}
use dodo_payment_gateway.Worker.{
  signed_delivery, log_delivery, deliver_to, deliver_at, post_event, record_reply, record_failure,
  save_delivered, deliver_one, deliver_all, deliver_due, post,
}
use dodo_payment_gateway.Worker.Claims.{chosen, claimed, is_one_of-id}
use dodo_payment_gateway.Worker.Posts.{recording, deliver_one-Keeps}
use dodo_payment_gateway.Worker.Resolution.{Resolution, deliver_one-Resolution}

abbrev pub is_delivering : OutboundEventStatus → Bool
is_delivering OutboundEventStatus.delivering = true
is_delivering _ = false

-- A row with this id that is DELIVERING.
abbrev pub is_under_way : String → OutboundEvent → Bool
is_under_way id e = e.id == id && is_delivering e.status

-- A change of the rows of `e` to another status leaves none of them DELIVERING.
settled-count :
    (id : String) (e : OutboundEvent) (f : OutboundEvent → OutboundEvent)
    (rows : List OutboundEvent)
    → ((x : OutboundEvent) → is_delivering (f x).status ≡ false)
    → count (is_under_way id) (update (OutboundEvents.has_id e.id) f rows)
      ≤ (if e.id == id then 0 else count (is_under_way id) rows)
unfolding count update
settled-count id e f [] h = ground arith
settled-count id e f (x ∷ rows) h =
    ground
      (arith, h x, eq_iff e.id id, eq_iff x.id e.id, eq_iff x.id id, settled-count id e f rows h)

resolved-count :
    (id : String) (e : OutboundEvent) (w w' : World)
    → Resolution e w w'
    → count (is_under_way id) w'.db.outbound_events
      ≤ (if e.id == id then 0 else count (is_under_way id) w.db.outbound_events)
resolved-count id e w w' (Resolution.delivered t request code last posted accepted sent now) =
    rw now (settled-count id e (as_delivered (w.env.clock t)) w.db.outbound_events (λ x. refl))
resolved-count id e w w' (Resolution.retried t next reason last why more now) = rw now (
    settled-count id e (as_retry (suc e.attempt_count) next reason) w.db.outbound_events
      (λ x. refl))
resolved-count id e w w' (Resolution.failed t reason last why over now) =
    rw now
      (settled-count id e (as_failed (suc e.attempt_count) reason) w.db.outbound_events (λ x. refl))

-- The database works, from this world on.
abbrev pub AllWork : World → Type 0
AllWork w = (n : ℕ) → w.env.outcome n ≡ Outcome.works

deliver_one-AllWork : (e : OutboundEvent) (w : World) → AllWork w → AllWork (deliver_one e w).1
unfolding post Businesses.get_by_id
deliver_one-AllWork e w o =
    (deliver_one-Keeps (recording {P = AllWork} (λ u d n h. h) e)
        (λ request. record { at = λ u h. h }) (Keeps-statement_blind _ (λ u d n h. h))).at
      w o

-- Delivering reports no error: those of the marks are logged.
record_reply-ok :
    (e : OutboundEvent) (reply : DeliveryReply) (w : World) → (record_reply e reply w).0 ≡ ok tt
unfolding record_reply record_failure save_delivered ◌>>=◌ time_now try pure
record_reply-ok e (DeliveryReply.not_built text) w = refl
record_reply-ok e (DeliveryReply.failed text) w = refl
record_reply-ok e (DeliveryReply.answered code) w = ground arith

deliver_at-ok :
    (e : OutboundEvent) (b : Business) (url : Option String) (w : World)
    → (deliver_at e b url w).0 ≡ ok tt
unfolding deliver_at post_event post record_failure ◌>>=◌ time_now try pure asks
deliver_at-ok e b none w = refl
deliver_at-ok e b (some url) w = elim (Bool-cases (url == "")) [
  | inl empty ↦ rw empty refl
  | inr named ↦
      let request = signed_delivery w.env e b url (w.env.clock w.tick) in
      let reply = w.env.deliver (suc w.tick) request in
      rw named (
        record_reply-ok e reply (record w {
          tick = suc (suc w.tick);
          deliveries = log_delivery reply request w.deliveries;
        }))
]

deliver_to-ok : (e : OutboundEvent) (r : Result Business) (w : World) → (deliver_to e r w).0 ≡ ok tt
unfolding deliver_to record_failure ◌>>=◌ time_now try pure
deliver_to-ok e (err x) w = refl
deliver_to-ok e (ok b) w = deliver_at-ok e b b.webhook_url w

deliver_one-ok : (e : OutboundEvent) (w : World) → (deliver_one e w).0 ≡ ok tt
unfolding deliver_one ◌>>=◌ try
deliver_one-ok e w =
    deliver_to-ok e (Businesses.get_by_id e.business_id w).0
      (Businesses.get_by_id e.business_id w).1

deliver_all-count :
    (id : String) (es : List OutboundEvent) (w : World)
    → AllWork w
    → (count (λ e. e.id == id) es ≡ 0 → count (is_under_way id) w.db.outbound_events ≡ 0)
    → count (is_under_way id) (deliver_all es w).1.db.outbound_events ≡ 0
unfolding deliver_all count pure
deliver_all-count id [] w o h = h refl
deliver_all-count id (e ∷ es) w o h =
    rw (then_lem (deliver_one e) (λ _. deliver_all es) w (deliver_one-ok e w)) (
      deliver_all-count id es (deliver_one e w).1 (deliver_one-AllWork e w o) (λ none_left. ground (
        arith,
        h,
        none_left,
        resolved-count id e w (deliver_one e w).1 (deliver_one-Resolution e w o),
      )))

-- What a claim makes DELIVERING it returns.
claimed-count :
    (id : String) (p : OutboundEvent → Bool) (rows : List OutboundEvent)
    → ((x : OutboundEvent) → p (as_delivering x) ≡ p x)
    → count (is_under_way id) (update p as_delivering rows)
      ≤ count (is_under_way id) rows
        + count (λ e. e.id == id) (select p (update p as_delivering rows))
unfolding count update select
claimed-count id p [] h = omega arith
claimed-count id p (x ∷ rows) h = ground (arith, h x, claimed-count id p rows h)

claim_works :
    (limit at : ℕ) (w : World)
    → AllWork w
    → OutboundEvents.claim_due limit at w ≡ (
      ok (claimed limit at w.db),
      record w { db = (OutboundEvents.claim_query limit at 0 w.db).1; tick = suc w.tick },
    )
unfolding OutboundEvents.claim_due OutboundEvents.claim_query statement
claim_works limit at w o = rw (o w.tick) refl

-- While the database works, DeliverDue leaves no event DELIVERING that was not so before: what it
-- claims it settles, whatever the endpoints answer.
pub deliver_due_settles :
    (id : String) (w : World)
    → ((n : ℕ) → w.env.outcome n ≡ Outcome.works)
    → count (is_under_way id) w.db.outbound_events ≡ 0
    → count (is_under_way id) (deliver_due w).1.db.outbound_events ≡ 0
unfolding deliver_due time_now ◌>>=◌ OutboundEvents.claim_query
deliver_due_settles id w o idle =
    rw (claim_works claim_batch_size (w.env.clock w.tick) (record w { tick = suc w.tick }) o) (
      deliver_all-count id (claimed claim_batch_size (w.env.clock w.tick) w.db) _ o (λ missed.
        omega (
          arith,
          idle,
          missed,
          claimed-count id
              (is_one_of (chosen claim_batch_size (w.env.clock w.tick) w.db.outbound_events))
              w.db.outbound_events
              (λ x.
                is_one_of-id (chosen claim_batch_size (w.env.clock w.tick) w.db.outbound_events)
                  (as_delivering x) x refl),
        )))
