-- ===== src/Tests/Deliveries.antt =====
-- The dispatcher on concrete data.
use dodo_payment_gateway.Base.{
  nat_eq, ◌≡◌, ◌≤◌, refl, String, true, none, some, [], ◌∷◌, ◌==◌, ◌&&◌, count, Bool-cases, inl,
  inr, subst, eq_iff, arith, not,
}
use dodo_payment_gateway.Model.{OutboundEvent, OutboundEventStatus}
use dodo_payment_gateway.Errors.{ok}
use dodo_payment_gateway.Store.{Db, World}
use dodo_payment_gateway.Repository.OutboundEvents
use dodo_payment_gateway.Repository.OutboundEvents.{is_due, is_one_of}
use dodo_payment_gateway.Webhook.Signature.{verify}
use dodo_payment_gateway.Worker.{run, deliver_one, deliver_due, signed_delivery}
use dodo_payment_gateway.Worker.Claims.{claimed, claim_query_disjoint}
use dodo_payment_gateway.Worker.Budget.{HasIds, InBudget}
use dodo_payment_gateway.Worker.Ticks.{run-InBudget}
use dodo_payment_gateway.Worker.Resolution.{Resolution, deliver_one-Resolution}
use dodo_payment_gateway.Worker.Posts.{PostsOne, deliver_one-PostsOne}
use dodo_payment_gateway.Worker.Verified.{verify-signed_delivery}
use dodo_payment_gateway.Worker.Settled.{is_delivering, is_under_way, deliver_due_settles}
use dodo_payment_gateway.Worker.Stuck.{run_leaves_stuck}
use dodo_payment_gateway.Tests.{env, before, business, failed_event}

-- Two events, of which one is due, and the business's endpoint.
abbrev due_event : OutboundEvent
due_event = record failed_event { status = OutboundEventStatus.pending; attempt_count = 1 }

abbrev queued : World
queued = record before {
  db = record before.db {
    businesses = record business { webhook_url = some "https://acme.test" } ∷ [];
    outbound_events = due_event ∷ record failed_event { id = "other" } ∷ [];
  };
}

different_ids : (id : String) → count (OutboundEvents.has_id id) queued.db.outbound_events ≤ 1
unfolding count
different_ids id = elim (Bool-cases ("event" == id)) [
  | inl hit ↦
      subst (λ i. count (OutboundEvents.has_id i) queued.db.outbound_events ≤ 1)
        ((eq_iff "event" id).0 hit) (omega arith)
  | inr miss ↦ ground (arith, miss)
]

claim_query_disjoint_example :
    let d' = (OutboundEvents.claim_query 20 0 0 queued.db).1 in
    ((OutboundEvents.claim_query 20 0 0 queued.db).0 ≡ ok (claimed 20 0 queued.db))
    × ((OutboundEvents.claim_query 20 9 9 d').0 ≡ ok (claimed 20 9 d'))
    × (count (is_one_of (claimed 20 0 queued.db)) (claimed 20 9 d') ≡ 0)
    × (count (λ (e : OutboundEvent). true) (claimed 20 0 queued.db) ≤ 20)
    × (count
          (λ (e : OutboundEvent).
            nat_eq
              (count (λ (x : OutboundEvent). is_due 0 x && x.id == e.id) queued.db.outbound_events)
              0)
          (claimed 20 0 queued.db)
        ≡ 0)
claim_query_disjoint_example = claim_query_disjoint 20 0 0 20 9 9 queued.db different_ids

run-InBudget_example : HasIds (run 3 queued).1.db × InBudget (run 3 queued).1.db
unfolding count
run-InBudget_example = run-InBudget 3 queued different_ids refl

deliver_one-Resolution_example : Resolution due_event queued (deliver_one due_event queued).1
deliver_one-Resolution_example = deliver_one-Resolution due_event queued (λ n. refl)

deliver_one-PostsOne_example : PostsOne due_event queued (deliver_one due_event queued).1
deliver_one-PostsOne_example = deliver_one-PostsOne due_event queued

verify-signed_delivery_example :
    let d = signed_delivery env due_event business "https://acme.test" 5000000000 in
    verify env "whsec" d.id d.timestamp d.signature d.body 6000000000 ≡ none
verify-signed_delivery_example =
    verify-signed_delivery env due_event business "https://acme.test" 5000000000 6000000000
      (omega arith) (omega arith) (omega arith) (omega arith)

deliver_due_settles_example :
    count (is_under_way "event") (deliver_due queued).1.db.outbound_events ≡ 0
unfolding count
deliver_due_settles_example = deliver_due_settles "event" queued (λ n. refl) refl

abbrev stuck : Db
stuck = record queued.db {
  outbound_events = record due_event { status = OutboundEventStatus.delivering } ∷ [];
}

abbrev left_behind : World
left_behind = record queued { db = stuck }

run_leaves_stuck_example :
    let u = (run 3 left_behind).1 in
    (count (λ e. e.id == "event" && not (is_delivering e.status)) u.db.outbound_events ≡ 0)
    × (count (λ e. e.id == "event" && is_delivering e.status) u.db.outbound_events ≡ 1)
    × (count (λ x. x.0.id == "event") u.deliveries ≡ 0)
unfolding count
run_leaves_stuck_example = run_leaves_stuck "event" 3 left_behind refl
