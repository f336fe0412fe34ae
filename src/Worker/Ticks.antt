-- ===== src/Worker/Ticks.antt =====
-- The loop of the dispatcher.
use dodo_payment_gateway.Base.{
  ℕ, zero, suc, ◌≡◌, refl, String, none, some, List, [], ◌∷◌, Option, Bool, update, arith,
  count-update_same,
}
use dodo_payment_gateway.Model.{OutboundEvent}
use dodo_payment_gateway.Store.{Db, World}
use dodo_payment_gateway.Store.Keeps.{
  Keeps, OnDb, Keeps-pure, Keeps-try, Keeps-bind, Keeps-time_now, Keeps-statement_db,
}
use dodo_payment_gateway.Repository.Businesses
use dodo_payment_gateway.Repository.OutboundEvents
use dodo_payment_gateway.Worker.{
  deliver_all, deliver_due, post, record_failure, save_failure, save_delivered, run,
}
use dodo_payment_gateway.Worker.Posts.{Recording, deliver_one-Keeps}
use dodo_payment_gateway.Worker.Budget.{HasIds, InBudget, deliver_due-InBudget}

-- No statement of the dispatcher changes an id.
change-HasIds :
    (p : OutboundEvent → Bool) (f : OutboundEvent → OutboundEvent) (d : Db)
    → ((e : OutboundEvent) (id : String)
        → OutboundEvents.has_id id (f e) ≡ OutboundEvents.has_id id e)
    → HasIds d
    → HasIds (record d { outbound_events = update p f d.outbound_events })
change-HasIds p f d same k id = omega (
  arith,
  k id,
  count-update_same (OutboundEvents.has_id id) p f d.outbound_events (λ e _. same e id),
)

save_failure-HasIds :
    (e : OutboundEvent) (reason : String) (o : Option ℕ)
    → Keeps (OnDb HasIds) (save_failure e reason o)
unfolding save_failure OutboundEvents.mark_failed OutboundEvents.mark_retry
    OutboundEvents.change_query
save_failure-HasIds e reason none =
    Keeps-statement_db HasIds _ (λ n d k. change-HasIds _ _ d (λ x id. refl) k)
save_failure-HasIds e reason (some next) =
    Keeps-statement_db HasIds _ (λ n d k. change-HasIds _ _ d (λ x id. refl) k)

Recording-HasIds : (e : OutboundEvent) → Recording (OnDb HasIds) e
unfolding record_failure save_delivered OutboundEvents.mark_delivered OutboundEvents.change_query
Recording-HasIds e = record {
  timeless = λ w n h. h;
  failure = λ reason.
      Keeps-bind (Keeps-time_now (λ w n h. h))
        λ now. Keeps-bind (Keeps-try (save_failure-HasIds e reason _)) λ _. Keeps-pure tt;
  success = Keeps-bind (Keeps-time_now (λ w n h. h)) λ now.
      Keeps-bind
        (Keeps-try (Keeps-statement_db HasIds _ (λ n d k. change-HasIds _ _ d (λ x id. refl) k)))
        λ _. Keeps-pure tt;
}

deliver_all-HasIds : (events : List OutboundEvent) → Keeps (OnDb HasIds) (deliver_all events)
unfolding deliver_all post Businesses.get_by_id Businesses.select_query
deliver_all-HasIds [] = Keeps-pure tt
deliver_all-HasIds (e ∷ events) =
    Keeps-bind
      (deliver_one-Keeps (Recording-HasIds e) (λ request. record { at = λ w h. h })
        (Keeps-statement_db HasIds _ (λ n d h. h)))
      (λ _. deliver_all-HasIds events)

deliver_due-HasIds : Keeps (OnDb HasIds) deliver_due
unfolding deliver_due OutboundEvents.claim_due OutboundEvents.claim_query
deliver_due-HasIds = Keeps-bind (Keeps-time_now (λ w n h. h)) λ now.
    Keeps-bind (Keeps-statement_db HasIds _ (λ n d k. change-HasIds _ _ d (λ x id. refl) k))
      deliver_all-HasIds

run-Limited : (ticks : ℕ) → Keeps (λ w. HasIds w.db × InBudget w.db) (run ticks)
unfolding run
run-Limited zero = Keeps-pure tt
run-Limited (suc ticks) =
    Keeps-bind
      (Keeps-try (record {
        at = λ w (unique, k). (deliver_due-HasIds.at w unique, deliver_due-InBudget w unique k);
      }))
      (λ _. run-Limited ticks)

-- However long the dispatcher runs, and whatever the endpoints answer and whatever statement fails, it
-- keeps every event within the retry budget: no event ever has more than eight failures, and one that
-- has eight is not tried again; if each id of an event stands in one row at first, it does so still.
pub run-InBudget :
    (ticks : ℕ) (w : World)
    → HasIds w.db
    → InBudget w.db
    → HasIds (run ticks w).1.db × InBudget (run ticks w).1.db
run-InBudget ticks w unique k = (run-Limited ticks).at w (unique, k)
