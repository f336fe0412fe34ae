-- ===== src/Worker/Stuck.antt =====
-- What becomes of an event whose delivery is not recorded.
use dodo_payment_gateway.Base.{
  ℕ, zero, suc, ◌≡◌, ◌∙◌, refl, sym, subst, ap, String, Bool, true, false, not, ◌&&◌, Option, none,
  some, List, [], ◌∷◌, ◌==◌, count, update, Bool-cases, arith, count-select, count-insert,
  count-eq-zero, count_mono, count-update_same, eq_iff, inl, inr,
}
use dodo_payment_gateway.Model.{OutboundEvent}
use dodo_payment_gateway.Errors.{Result, ok, err}
use dodo_payment_gateway.Store.{Db, World, Delivery, DeliveryReply}
use dodo_payment_gateway.Store.Laws.{statement-db, statement-ok, statement_steps}
use dodo_payment_gateway.Store.Keeps.{
  Keeps, OnDb, Keeps-pure, Keeps-try, Keeps-bind, Keeps-time_now, Keeps-statement_db, bind_keeps_ok,
}
use dodo_payment_gateway.Repository.Businesses
use dodo_payment_gateway.Repository.OutboundEvents
use dodo_payment_gateway.Repository.OutboundEvents.{is_one_of, is_due, as_delivering}
use dodo_payment_gateway.Webhook.Retry.{claim_batch_size}
use dodo_payment_gateway.Worker.{
  deliver_one, deliver_all, deliver_due, run, post, record_failure, save_failure, save_delivered,
}
use dodo_payment_gateway.Worker.Claims.{chosen, marked, claimed, chosen-due}
use dodo_payment_gateway.Worker.Posts.{Recording, deliver_one-Keeps, deliver_one-PostsOne}
use dodo_payment_gateway.Worker.Settled.{is_delivering, is_under_way}

module _ (id : String) where
  -- A row with the id that is not DELIVERING, and a request that posts the event.
  abbrev pub is_elsewhere : OutboundEvent → Bool
  is_elsewhere e = e.id == id && not (is_delivering e.status)

  abbrev pub is_post : Delivery × DeliveryReply → Bool
  is_post x = x.0.id == id

  -- All rows with the id are DELIVERING, and there are `n`.
  abbrev IsStuck : ℕ → Db → Type 0
  IsStuck n d =
      (count is_elsewhere d.outbound_events ≡ 0) × (count (is_under_way id) d.outbound_events ≡ n)

  waiting :
      (at : ℕ) (x e : OutboundEvent)
      → is_due at x && x.id == e.id ≡ true
      → e.id ≡ id
      → is_elsewhere x ≡ true
  waiting at x e h same = ground (arith, eq_iff x.id e.id, eq_iff x.id id)

  module _ (limit at : ℕ) (d : Db) (all : count is_elsewhere d.outbound_events ≡ 0) where
    missed :
        (e : OutboundEvent)
        → (is_one_of (chosen limit at d.outbound_events) e && e.id == id) ≡ false
    missed e = elim (Bool-cases (e.id == id)) [
      | inl hit ↦
          let same : e.id ≡ id = (eq_iff e.id id).0 hit in
          ground (
            arith,
            chosen-due limit at d.outbound_events e,
            count_mono (λ x. is_due at x && x.id == e.id) is_elsewhere d.outbound_events
                (λ x h. waiting at x e h same),
          )
      | inr other ↦ ground (arith, other)
    ]

    claimed-apart : count (λ e. e.id == id) (claimed limit at d) ≡ 0
    unfolding OutboundEvents.claim_query
    claimed-apart =
        count-select (λ (e : OutboundEvent). e.id == id)
          (is_one_of (chosen limit at d.outbound_events)) (marked limit at d.outbound_events)
        ∙ count-eq-zero (λ e. is_one_of (chosen limit at d.outbound_events) e && e.id == id)
            (marked limit at d.outbound_events) missed

  module _ (n : ℕ) where
    -- A change of rows with other ids.
    change-IsStuck :
        (p : OutboundEvent → Bool) (f : OutboundEvent → OutboundEvent) (d : Db)
        → ((x : OutboundEvent) → p x ≡ true → (x.id == id) ≡ false)
        → ((x : OutboundEvent) → (f x).id ≡ x.id)
        → IsStuck n d
        → IsStuck n (record d { outbound_events = update p f d.outbound_events })
    change-IsStuck p f d other same (none_left, held) = (
      count-update_same is_elsewhere p f d.outbound_events
            (λ x h. ground (arith, other x h, same x))
          ∙ none_left,
      count-update_same (is_under_way id) p f d.outbound_events
            (λ x h. ground (arith, other x h, same x))
          ∙ held,
    )

    claim-IsStuck :
        (limit at now : ℕ) (d : Db)
        → IsStuck n d
        → IsStuck n (OutboundEvents.claim_query limit at now d).1
    unfolding OutboundEvents.claim_query
    claim-IsStuck limit at now d stuck =
        change-IsStuck _ as_delivering d (λ x h. ground (arith, h, missed limit at d stuck.0 x))
          (λ x. refl) stuck

    module _ (e : OutboundEvent) (apart : (e.id == id) ≡ false) where
      elsewhere : (x : OutboundEvent) → OutboundEvents.has_id e.id x ≡ true → (x.id == id) ≡ false
      elsewhere x h = ground (arith, apart, eq_iff x.id e.id)

      save_failure-IsStuck :
          (reason : String) (o : Option ℕ) → Keeps (OnDb (IsStuck n)) (save_failure e reason o)
      unfolding save_failure OutboundEvents.mark_failed OutboundEvents.mark_retry
          OutboundEvents.change_query
      save_failure-IsStuck reason none =
          Keeps-statement_db (IsStuck n) _ (λ m d. change-IsStuck _ _ d elsewhere (λ x. refl))
      save_failure-IsStuck reason (some next) =
          Keeps-statement_db (IsStuck n) _ (λ m d. change-IsStuck _ _ d elsewhere (λ x. refl))

      Recording-IsStuck : Recording (OnDb (IsStuck n)) e
      unfolding record_failure save_delivered OutboundEvents.mark_delivered
          OutboundEvents.change_query
      Recording-IsStuck = record {
        timeless = λ w m h. h;
        failure = λ reason.
            Keeps-bind (Keeps-time_now (λ w m h. h))
              λ now. Keeps-bind (Keeps-try (save_failure-IsStuck reason _)) λ _. Keeps-pure tt;
        success = Keeps-bind (Keeps-time_now (λ w m h. h)) λ now.
            Keeps-bind
              (Keeps-try (
                Keeps-statement_db (IsStuck n) _
                  (λ m d. change-IsStuck _ _ d elsewhere (λ x. refl))))
              λ _. Keeps-pure tt;
      }

      deliver_one-IsStuck : Keeps (OnDb (IsStuck n)) (deliver_one e)
      unfolding post Businesses.get_by_id Businesses.select_query
      deliver_one-IsStuck =
          deliver_one-Keeps Recording-IsStuck (λ request. record { at = λ w h. h })
            (Keeps-statement_db (IsStuck n) _ (λ m d h. h))

      deliver_one-posts :
          (w : World) → count is_post (deliver_one e w).1.deliveries ≡ count is_post w.deliveries
      deliver_one-posts w = elim (deliver_one-PostsOne e w) [
        | inl quiet ↦ ap (count is_post) quiet
        | inr (business, url, request, row, given, signed, went) ↦
            ap (count is_post) went
            ∙ count-insert is_post (request, w.env.deliver (suc (suc w.tick)) request) w.deliveries
            ∙ ground (arith, apart, signed.id_is)
      ]

  module _ (n c : ℕ) where
    -- That, and `c` requests have posted the event.
    abbrev Left : World → Type 0
    Left w = IsStuck n w.db × (count is_post w.deliveries ≡ c)

    deliver_all-Left :
        (events : List OutboundEvent)
        → count (λ e. e.id == id) events ≡ 0
        → Keeps Left (deliver_all events)
    unfolding deliver_all count
    deliver_all-Left [] h = Keeps-pure tt
    deliver_all-Left (e ∷ events) h =
        let apart : (e.id == id) ≡ false = ground (arith, h) in
        Keeps-bind
          (record {
            at = λ w (stuck, posts).
                ((deliver_one-IsStuck n e apart).at w stuck, deliver_one-posts n e apart w ∙ posts);
          })
          (λ _. deliver_all-Left events (ground (arith, h)))

    claim_due-Left :
        (limit at : ℕ) (w : World) → Left w → Left (OutboundEvents.claim_due limit at w).1
    unfolding OutboundEvents.claim_due
    claim_due-Left limit at w (stuck, posts) = (
      elim (statement-db (OutboundEvents.claim_query limit at) w) [
        | inl same ↦ subst (IsStuck n) (sym same) stuck
        | inr ran ↦
            subst (IsStuck n) (sym ran) (claim-IsStuck n limit at (w.env.clock w.tick) w.db stuck)
      ],
      ap (count is_post) (statement_steps (OutboundEvents.claim_query limit at) w).2 ∙ posts,
    )

    abbrev HasOthers : Result (List OutboundEvent) → Type 0
    HasOthers (ok events) = count (λ e. e.id == id) events ≡ 0
    HasOthers (err e) = Unit

    claim_due-others :
        (limit at : ℕ) (w : World) {events : List OutboundEvent} {u : World}
        → Left w
        → OutboundEvents.claim_due limit at w ≡ (ok events, u)
        → count (λ e. e.id == id) events ≡ 0
    unfolding OutboundEvents.claim_due OutboundEvents.claim_query
    claim_due-others limit at w left h =
        subst (λ (r : Result (List OutboundEvent) × Db). HasOthers r.0)
          (statement-ok (OutboundEvents.claim_query limit at) w h).0
          (claimed-apart limit at w.db left.0.0)

    deliver_due-Left : Keeps Left deliver_due
    unfolding deliver_due
    deliver_due-Left = Keeps-bind (Keeps-time_now (λ w m h. h)) λ now. record {
      at = λ w left.
          bind_keeps_ok Left (OutboundEvents.claim_due claim_batch_size now) _ w
            (claim_due-Left claim_batch_size now w left)
            λ events u got.
              (deliver_all-Left events (claim_due-others claim_batch_size now w left got)).at u (
                subst (λ (r : Result (List OutboundEvent) × World). Left r.1) got
                  (claim_due-Left claim_batch_size now w left));
    }

    run-Left : (ticks : ℕ) → Keeps Left (run ticks)
    unfolding run
    run-Left zero = Keeps-pure tt
    run-Left (suc ticks) = Keeps-bind (Keeps-try deliver_due-Left) (λ _. run-Left ticks)

-- Once all rows with an id are DELIVERING, the dispatcher leaves that event alone: however long it
-- runs, and whatever the endpoints answer and whatever statement fails, those rows are all still
-- DELIVERING, and no request has posted the event that had not before.
pub run_leaves_stuck :
    (id : String) (ticks : ℕ) (w : World)
    → count (λ e. e.id == id && not (is_delivering e.status)) w.db.outbound_events ≡ 0
    → let u = (run ticks w).1 in
      (count (λ e. e.id == id && not (is_delivering e.status)) u.db.outbound_events ≡ 0)
      × (count (λ e. e.id == id && is_delivering e.status) u.db.outbound_events
          ≡ count (λ e. e.id == id && is_delivering e.status) w.db.outbound_events)
      × (count (λ x. x.0.id == id) u.deliveries ≡ count (λ x. x.0.id == id) w.deliveries)
run_leaves_stuck id ticks w all =
    let ((none_left, held), posts) = (run-Left id _ _ ticks).at w ((all, refl), refl) in
    (none_left, held, posts)
