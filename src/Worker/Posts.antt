-- ===== src/Worker/Posts.antt =====
-- What the dispatcher sends.
use dodo_payment_gateway.Base.{
  ℕ, suc, ◌≡◌, ◌∙◌, ◌⊎◌, refl, subst, inl, inr, String, Option, none, some, List, ◌==◌, insert,
  find, Bool-cases, arith,
}
use dodo_payment_gateway.Model.{Business, OutboundEvent}
use dodo_payment_gateway.Errors.{Result, ok, err}
use dodo_payment_gateway.Store.{
  Env, World, Delivery, DeliveryReply, ◌>>=◌, try, asks, time_now, statement, or_no_rows,
}
use dodo_payment_gateway.Worker.Signed.{IsSignedFor, signed_delivery-IsSigned}
use dodo_payment_gateway.Store.Laws.{statement_steps}
use dodo_payment_gateway.Store.Keeps.{
  Keeps, IsBlind, IsTimeless, Keeps-pure, Keeps-try, Keeps-if, Keeps-bind, Keeps-asks,
  Keeps-time_now, Keeps-statement_blind,
}
use dodo_payment_gateway.Repository.Businesses
use dodo_payment_gateway.Repository.OutboundEvents
use dodo_payment_gateway.Worker.{
  deliver_one, deliver_to, deliver_at, post_event, post, record_reply, record_failure, save_failure,
  save_delivered, is_2xx, log_delivery, signed_delivery,
}

-- Recording the outcome touches the database and the clock only.
module _ {P : World → Type 0} (b : IsBlind P) where
  save_failure-Keeps :
      (e : OutboundEvent) (reason : String) (o : Option ℕ) → Keeps P (save_failure e reason o)
  unfolding save_failure OutboundEvents.mark_failed OutboundEvents.mark_retry
  save_failure-Keeps e reason none = Keeps-statement_blind _ b
  save_failure-Keeps e reason (some next) = Keeps-statement_blind _ b

  pub record_failure-Keeps :
      (e : OutboundEvent) (reason : String) → Keeps P (record_failure e reason)
  unfolding record_failure
  record_failure-Keeps e reason =
      Keeps-bind (Keeps-time_now (λ w n h. b w w.db n h))
        λ now. Keeps-bind (Keeps-try (save_failure-Keeps e reason _)) λ _. Keeps-pure tt

  save_delivered-Keeps : (e : OutboundEvent) → Keeps P (save_delivered e)
  unfolding save_delivered OutboundEvents.mark_delivered
  save_delivered-Keeps e =
      Keeps-bind (Keeps-time_now (λ w n h. b w w.db n h))
        λ now. Keeps-bind (Keeps-try (Keeps-statement_blind _ b)) λ _. Keeps-pure tt

-- A property of the world that recording the outcome of an event keeps.
pub record Recording (P : World → Type 0) (e : OutboundEvent) : Type 0 where
  pub timeless : IsTimeless P
  pub failure : (reason : String) → Keeps P (record_failure e reason)
  pub success : Keeps P (save_delivered e)

module _ {P : World → Type 0} {e : OutboundEvent} (f : Recording P e) where
  pub record_reply-Keeps : (reply : DeliveryReply) → Keeps P (record_reply e reply)
  unfolding record_reply
  record_reply-Keeps (DeliveryReply.not_built text) = f.failure text
  record_reply-Keeps (DeliveryReply.failed text) = f.failure text
  record_reply-Keeps (DeliveryReply.answered code) =
      Keeps-if (is_2xx code) (λ _. f.success) (λ _. f.failure _)

module _ {P : World → Type 0} {e : OutboundEvent} (f : Recording P e)
    (post-Keeps : (request : Delivery) → Keeps P (post request))
    (read-Keeps : Keeps P (Businesses.get_by_id e.business_id)) where
  deliver_at-Keeps :
      (business : Business) (url : Option String) → Keeps P (deliver_at e business url)
  unfolding deliver_at post_event
  deliver_at-Keeps business none = f.failure _
  deliver_at-Keeps business (some url) =
      Keeps-if (url == "") (λ _. f.failure _)
        (λ _. Keeps-bind (Keeps-time_now f.timeless) λ now.
          Keeps-bind (Keeps-asks _)
            λ request. Keeps-bind (post-Keeps request) (record_reply-Keeps f))

  deliver_to-Keeps : (r : Result Business) → Keeps P (deliver_to e r)
  unfolding deliver_to
  deliver_to-Keeps (err x) = f.failure _
  deliver_to-Keeps (ok business) = deliver_at-Keeps business business.webhook_url

  -- The whole of deliverOne.
  pub deliver_one-Keeps : Keeps P (deliver_one e)
  unfolding deliver_one
  deliver_one-Keeps = Keeps-bind (Keeps-try read-Keeps) deliver_to-Keeps

pub recording : {P : World → Type 0} → IsBlind P → (e : OutboundEvent) → Recording P e
recording b e = record {
  timeless = λ w n h. b w w.db n h;
  failure = record_failure-Keeps b e;
  success = save_delivered-Keeps b e;
}

-- The requests of `w` and at most one more: the event, for the URL that its business has, signed for
-- the time read after the look-up of the business, and answered by the wire.
abbrev pub PostsOne : OutboundEvent → World → World → Type 0
PostsOne e w w' =
    (w'.deliveries ≡ w.deliveries)
    ⊎ ((business : Business) × (url : String) × (request : Delivery) × (find
            (Businesses.has_id e.business_id) w.db.businesses
          ≡ some business)
        × (business.webhook_url ≡ some url)
        × IsSignedFor w.env e business url (w.env.clock (suc w.tick)) request
        × (w'.deliveries ≡ insert (request, w.env.deliver (suc (suc w.tick)) request) w.deliveries))

-- What has been sent is `c`.
abbrev Quiet : List (Delivery × DeliveryReply) → World → Type 0
Quiet c w = w.deliveries ≡ c

log_delivery_cases :
    (r : DeliveryReply) (request : Delivery) (c : List (Delivery × DeliveryReply))
    → (log_delivery r request c ≡ c) ⊎ (log_delivery r request c ≡ insert (request, r) c)
unfolding log_delivery
log_delivery_cases (DeliveryReply.not_built text) request c = inl refl
log_delivery_cases (DeliveryReply.failed text) request c = inr refl
log_delivery_cases (DeliveryReply.answered code) request c = inr refl

quiet_reply :
    (c : List (Delivery × DeliveryReply)) (e : OutboundEvent) (reply : DeliveryReply) (v : World)
    → v.deliveries ≡ c
    → (record_reply e reply v).1.deliveries ≡ c
quiet_reply c e reply v h =
    (record_reply-Keeps (recording {P = Quiet c} (λ u d n k. k) e) reply).at v h

quiet_failure :
    (c : List (Delivery × DeliveryReply)) (e : OutboundEvent) (reason : String) (v : World)
    → v.deliveries ≡ c
    → (record_failure e reason v).1.deliveries ≡ c
quiet_failure c e reason v h = (record_failure-Keeps {P = Quiet c} (λ u d n k. k) e reason).at v h

-- The world after its first step, but for the database.
abbrev pub Beside : World → World → Type 0
Beside w v = (v.env ≡ w.env) × (v.tick ≡ suc w.tick) × (v.deliveries ≡ w.deliveries)

module _ (e : OutboundEvent) (w : World) (business : Business) where
  post_event-PostsOne :
      (url : String) (v : World)
      → find (Businesses.has_id e.business_id) w.db.businesses ≡ some business
      → business.webhook_url ≡ some url
      → Beside w v
      → PostsOne e w (post_event e business url v).1
  unfolding post_event post ◌>>=◌ asks time_now
  post_event-PostsOne url v row given (same, stepped, quiet) =
      elim (log_delivery_cases reply request v.deliveries) [
        | inl idle ↦ inl (quiet_reply _ e reply posted (idle ∙ quiet))
        | inr went ↦ inr (
          business,
          url,
          request,
          row,
          given,
          subst (λ (env : Env). IsSignedFor env e business url (env.clock (suc w.tick)) request)
              same
              (subst (λ n. IsSignedFor v.env e business url (v.env.clock n) request) stepped
                (signed_delivery-IsSigned v.env e business url (v.env.clock v.tick))),
          quiet_reply _ e reply posted (went ∙ logged),
        )
      ]
    where
      request : Delivery
      request = signed_delivery v.env e business url (v.env.clock v.tick)

      reply : DeliveryReply
      reply = v.env.deliver (suc v.tick) request

      posted : World
      posted = record v {
        tick = suc (suc v.tick);
        deliveries = log_delivery reply request v.deliveries;
      }

      logged :
          insert (request, reply) v.deliveries
          ≡ insert (request, w.env.deliver (suc (suc w.tick)) request) w.deliveries
      logged = cc (same, stepped, quiet)

  deliver_at-PostsOne :
      (url : Option String) (v : World)
      → find (Businesses.has_id e.business_id) w.db.businesses ≡ some business
      → business.webhook_url ≡ url
      → Beside w v
      → PostsOne e w (deliver_at e business url v).1
  unfolding deliver_at
  deliver_at-PostsOne none v row given near = inl (quiet_failure _ e _ v near.2)
  deliver_at-PostsOne (some url) v row given near = elim (Bool-cases (url == "")) [
    | inl empty ↦ rw empty (inl (quiet_failure _ e _ v near.2))
    | inr named ↦ rw named (post_event-PostsOne url v row given near)
  ]

business-ok :
    (id : String) (w : World) {b : Business} {u : World}
    → Businesses.get_by_id id w ≡ (ok b, u)
    → find (Businesses.has_id id) w.db.businesses ≡ some b
unfolding Businesses.get_by_id statement or_no_rows
business-ok id w e = ground arith

deliver_to-PostsOne :
    (e : OutboundEvent) (w v : World) (r : Result Business)
    → Businesses.get_by_id e.business_id w ≡ (r, v)
    → Beside w v
    → PostsOne e w (deliver_to e r v).1
unfolding deliver_to
deliver_to-PostsOne e w v (err x) got near = inl (quiet_failure _ e _ v near.2)
deliver_to-PostsOne e w v (ok b) got near =
    deliver_at-PostsOne e w b b.webhook_url v (business-ok e.business_id w got) refl near

get_by_id-Beside : (id : String) (w : World) → Beside w (Businesses.get_by_id id w).1
unfolding Businesses.get_by_id
get_by_id-Beside id w = statement_steps _ w

-- Whatever fails, delivering an event posts it at most once: to the URL that its business has, with
-- the event's id and encoded payload and the timestamp of the clock, signed with the secret of that
-- business.
pub deliver_one-PostsOne : (e : OutboundEvent) (w : World) → PostsOne e w (deliver_one e w).1
unfolding deliver_one ◌>>=◌ try
deliver_one-PostsOne e w =
    deliver_to-PostsOne e w (Businesses.get_by_id e.business_id w).1
      (Businesses.get_by_id e.business_id w).0 refl (get_by_id-Beside e.business_id w)
