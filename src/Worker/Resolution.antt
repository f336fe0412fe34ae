-- ===== src/Worker/Resolution.antt =====
-- What becomes of an event that is delivered, while the database works.
use Prim.Native.String.{◌++◌}
use dodo_payment_gateway.Base.{
  ℕ, suc, ◌≡◌, ◌⊎◌, refl, inl, inr, String, true, false, Option, none, some, List, ◌&&◌, ◌==◌, leb,
  ltb, insert, update, find, Bool-cases, Option-cases, eq_iff, arith,
}
use dodo_payment_gateway.Base.Decimal.{decimal}
use dodo_payment_gateway.Model.{Business, OutboundEvent, OutboundEventStatus}
use dodo_payment_gateway.Store.{
  Db, World, Outcome, Delivery, DeliveryReply, ◌>>=◌, pure, try, asks, time_now, statement,
  or_no_rows,
}
use dodo_payment_gateway.Repository.Businesses
use dodo_payment_gateway.Repository.OutboundEvents
use dodo_payment_gateway.Webhook.Retry.{next_retry_at}
use dodo_payment_gateway.Worker.{
  deliver_one, deliver_to, deliver_at, post_event, post, record_reply, record_failure, save_failure,
  save_delivered, is_2xx, log_delivery, signed_delivery,
}
use dodo_payment_gateway.Worker.Signed.{IsSignedFor, signed_delivery-IsSigned}

-- The database with the rows of the event changed.
abbrev pub changed : OutboundEvent → (OutboundEvent → OutboundEvent) → Db → Db
changed e f d = record d { outbound_events = update (λ x. x.id == e.id) f d.outbound_events }

-- The event was posted: to the URL of its business, signed for it at the time read after the look-up,
-- and `reply` is what the wire says.
pub record Posted (e : OutboundEvent) (w : World) (request : Delivery) (reply : DeliveryReply)
    : Type 0 where
  pub business : Business
  pub url : String
  pub found : find (λ b. b.id == e.business_id) w.db.businesses ≡ some business
  pub configured : business.webhook_url ≡ some url
  pub signed : IsSignedFor w.env e business url (w.env.clock (suc w.tick)) request
  pub replied : w.env.deliver (suc (suc w.tick)) request ≡ reply

abbrev pub Log : Type 0
Log = List (Delivery × DeliveryReply)

-- Why the event is not delivered, with the text that is kept, and what has been sent after: its
-- business is not known or has no URL; or the request could not be built, failed, or was answered with
-- a status that is not 2xx.
pub data Undelivered (e : OutboundEvent) (w : World) : Log → String → Type 0 where
  no_business :
      find (λ (b : Business). b.id == e.business_id) w.db.businesses ≡ none
      → Undelivered e w w.deliveries "business not found"
  no_url :
      (business : Business)
      → find (λ (b : Business). b.id == e.business_id) w.db.businesses ≡ some business
      → (business.webhook_url ≡ none) ⊎ (business.webhook_url ≡ some "")
      → Undelivered e w w.deliveries "webhook url not configured"
  not_built :
      (request : Delivery) (text : String)
      → Posted e w request (DeliveryReply.not_built text)
      → Undelivered e w w.deliveries text
  lost :
      (request : Delivery) (text : String)
      → Posted e w request (DeliveryReply.failed text)
      → Undelivered e w (insert (request, DeliveryReply.failed text) w.deliveries) text
  refused :
      (request : Delivery) (code : ℕ)
      → Posted e w request (DeliveryReply.answered code)
      → leb 200 code && ltb code 300 ≡ false
      → Undelivered e w
          (insert (request, DeliveryReply.answered code) w.deliveries)
          ("http " ++ decimal code)

-- DELIVERED, exactly after a reply with a status 2xx; PENDING again, to be tried at `next`; or FAILED,
-- after the last attempt of the budget. The time is read before the last statement, at tick `t`.
pub data Resolution (e : OutboundEvent) (w w' : World) : Type 0 where
  delivered :
      (t : ℕ) (request : Delivery) (code : ℕ)
      → w'.tick ≡ suc (suc t)
      → Posted e w request (DeliveryReply.answered code)
      → leb 200 code && ltb code 300 ≡ true
      → w'.deliveries ≡ insert (request, DeliveryReply.answered code) w.deliveries
      → w'.db
        ≡ changed e
            (λ x. record x {
              status = OutboundEventStatus.delivered;
              delivered_at = some (w.env.clock t);
              last_error = none;
            })
            w.db
      → Resolution e w w'
  retried :
      (t next : ℕ) (reason : String)
      → w'.tick ≡ suc (suc t)
      → Undelivered e w w'.deliveries reason
      → next_retry_at (suc e.attempt_count) (w.env.clock t) ≡ some next
      → w'.db
        ≡ changed e
            (λ x. record x {
              status = OutboundEventStatus.pending;
              attempt_count = suc e.attempt_count;
              next_retry_at = next;
              last_error = some reason;
            })
            w.db
      → Resolution e w w'
  failed :
      (t : ℕ) (reason : String)
      → w'.tick ≡ suc (suc t)
      → Undelivered e w w'.deliveries reason
      → next_retry_at (suc e.attempt_count) (w.env.clock t) ≡ none
      → w'.db
        ≡ changed e
            (λ x. record x {
              status = OutboundEventStatus.failed;
              attempt_count = suc e.attempt_count;
              last_error = some reason;
            })
            w.db
      → Resolution e w w'

-- From tick `n` on, with `sent` posted so far.
abbrev later : World → ℕ → Log → World
later w n sent = record w { tick = n; deliveries = sent }

module _ (e : OutboundEvent) (w : World) (o : (n : ℕ) → w.env.outcome n ≡ Outcome.works) where
  record_failure-Resolution :
      (reason : String) (n : ℕ) (sent : Log)
      → Undelivered e w sent reason
      → Resolution e w (record_failure e reason (later w n sent)).1
  unfolding record_failure save_failure OutboundEvents.mark_failed OutboundEvents.mark_retry
      OutboundEvents.change_query statement time_now try pure ◌>>=◌
  record_failure-Resolution reason n sent why =
      elim (Option-cases (next_retry_at (suc e.attempt_count) (w.env.clock n))) [
        | inl over ↦ rw (over, o (suc n)) (Resolution.failed n reason refl why over refl)
        | inr (next, more) ↦
            rw (more, o (suc n)) (Resolution.retried n next reason refl why more refl)
      ]

  save_delivered-Resolution :
      (request : Delivery) (code n : ℕ)
      → Posted e w request (DeliveryReply.answered code)
      → is_2xx code ≡ true
      → Resolution e w
          (save_delivered e
            (later w n (insert (request, DeliveryReply.answered code) w.deliveries))).1
  unfolding save_delivered OutboundEvents.mark_delivered OutboundEvents.change_query statement
      time_now try pure ◌>>=◌
  save_delivered-Resolution request code n posted accepted =
      rw (o (suc n)) (Resolution.delivered n request code refl posted accepted refl refl)

  record_reply-Resolution :
      (request : Delivery) (reply : DeliveryReply) (n : ℕ)
      → Posted e w request reply
      → Resolution e w
          (record_reply e reply (later w n (log_delivery reply request w.deliveries))).1
  unfolding record_reply log_delivery
  record_reply-Resolution request (DeliveryReply.not_built text) n posted =
      record_failure-Resolution text n w.deliveries (Undelivered.not_built request text posted)
  record_reply-Resolution request (DeliveryReply.failed text) n posted =
      record_failure-Resolution text n _ (Undelivered.lost request text posted)
  record_reply-Resolution request (DeliveryReply.answered code) n posted =
      elim (Bool-cases (is_2xx code)) [
        | inl accepted ↦ rw accepted (save_delivered-Resolution request code n posted accepted)
        | inr other ↦ rw other (
            record_failure-Resolution ("http " ++ decimal code) n _
              (Undelivered.refused request code posted other))
      ]

  module _ (b : Business)
      (found : find (λ (x : Business). x.id == e.business_id) w.db.businesses ≡ some b) where
    post_event-Resolution :
        (url : String)
        → b.webhook_url ≡ some url
        → Resolution e w (post_event e b url (later w (suc w.tick) w.deliveries)).1
    unfolding post_event post ◌>>=◌ asks time_now
    post_event-Resolution url configured =
        record_reply-Resolution request (w.env.deliver (suc (suc w.tick)) request)
          (suc (suc (suc w.tick)))
          (record {
            business = b;
            url = url;
            found = found;
            configured = configured;
            signed = signed_delivery-IsSigned w.env e b url (w.env.clock (suc w.tick));
            replied = refl;
          })
      where
        request : Delivery
        request = signed_delivery w.env e b url (w.env.clock (suc w.tick))

    deliver_at-Resolution :
        (url : Option String)
        → b.webhook_url ≡ url
        → Resolution e w (deliver_at e b url (later w (suc w.tick) w.deliveries)).1
    unfolding deliver_at
    deliver_at-Resolution none none_given =
        record_failure-Resolution _ _ _ (Undelivered.no_url b found (inl none_given))
    deliver_at-Resolution (some url) given = elim (Bool-cases (url == "")) [
      | inl empty ↦ rw empty (
          record_failure-Resolution _ _ _
            (Undelivered.no_url b found (inr (ground (arith, given, eq_iff url "", empty)))))
      | inr named ↦ rw named (post_event-Resolution url given)
    ]

  deliver_to-Resolution :
      (row : Option Business)
      → find (λ (x : Business). x.id == e.business_id) w.db.businesses ≡ row
      → Resolution e w (deliver_to e (or_no_rows row) (later w (suc w.tick) w.deliveries)).1
  unfolding deliver_to or_no_rows
  deliver_to-Resolution none found = record_failure-Resolution _ _ _ (Undelivered.no_business found)
  deliver_to-Resolution (some b) found = deliver_at-Resolution b found b.webhook_url refl

pub reads_business :
    (id : String) (w : World)
    → w.env.outcome w.tick ≡ Outcome.works
    → Businesses.get_by_id id w
      ≡ (or_no_rows (find (Businesses.has_id id) w.db.businesses), record w { tick = suc w.tick })
unfolding Businesses.get_by_id statement
reads_business id w o = rw o refl

-- While the database works, delivering an event settles it, whatever the business has configured and
-- its endpoint answers. Its rows are DELIVERED if the request that was posted to the URL of the
-- business, signed for it, has been answered with a status 2xx. Otherwise they keep why, that is that
-- the business is not known or has no URL, or that the request could not be built, failed or was
-- answered with another status, and one more failed attempt: they are PENDING, to be tried when the
-- schedule says from the time that is read last, or FAILED, once the schedule has no further attempt.
-- Nothing else in the database is changed, and nothing else is posted.
pub deliver_one-Resolution :
    (e : OutboundEvent) (w : World)
    → ((n : ℕ) → w.env.outcome n ≡ Outcome.works)
    → Resolution e w (deliver_one e w).1
unfolding deliver_one ◌>>=◌ try
deliver_one-Resolution e w o =
    rw (reads_business e.business_id w (o w.tick))
      (deliver_to-Resolution e w o (find (Businesses.has_id e.business_id) w.db.businesses) refl)
