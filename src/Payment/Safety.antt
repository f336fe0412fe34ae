-- ===== src/Payment/Safety.antt =====
-- What holds after any sequence of steps of any number of calls (`Steps`).
pub mod Replay
use dodo_payment_gateway.Base.{
  ◌⊎◌, zero, suc, refl, inl, inr, ℕ, ◌≤◌, ◌<◌, ◌+◌, ◌≡◌, refl, sym, subst, ap, ◌∙◌, inl, inr,
  String, Bool, true, false, Option, none, some, List, [], ◌∷◌, ◌==◌, find, count, arith, ◌&&◌,
  ◌||◌,
}
use dodo_payment_gateway.Model.{
  PaymentAttempt, is_pending, is_succeeded, PaymentAttemptStatus, WebhookEvent,
}
use dodo_payment_gateway.Store.{Db, World}
use dodo_payment_gateway.Store.Laws.{transaction-IsAtomic}
use dodo_payment_gateway.Store.Keeps.{Keeps, OnDb, Keeps-statement_db, Keeps-bind, Keeps-time_now}
use dodo_payment_gateway.Repository.PaymentAttempts
use dodo_payment_gateway.Repository.OutboundEvents
use dodo_payment_gateway.Repository.WebhookEvents
use dodo_payment_gateway.Psp.{send}
use dodo_payment_gateway.Payment.Settle.{persist_success, success_body}
use dodo_payment_gateway.Payment.Frame.{persist_success-Keeps}
use dodo_payment_gateway.Payment.History.{Evolves, AttemptEvolves}
use dodo_payment_gateway.Payment.History.Rows.{Evolves-refl, Evolves-trans}
use dodo_payment_gateway.Payment.History.Service.{settling, receiving, create_pending_attempt-P}
use dodo_payment_gateway.Payment.Invariant.{
  Inv, Knows, IsSameAttempt, is_succeeded_of, is_live_of, is_closed,
}
use dodo_payment_gateway.Payment.Invariant.Rows.{Inv-frame, insert-event-Inv}
use dodo_payment_gateway.Payment.Invariant.Settles.{fail-Inv}
use dodo_payment_gateway.Payment.Invariant.Bodies.{create_pending_attempt-Inv}
use dodo_payment_gateway.Payment.Invariant.Settlement.{success_body-Inv}
use dodo_payment_gateway.Payment.Steps.{
  Steps, starts, waits, sends, creates, settles, fails, enqueues, records, marks, rejects,
}

-- After any steps of any calls of the payment service, whatever fails: every invoice, attempt and
-- idempotency key is still there, a settled attempt and a key have not changed, an attempt and an
-- invoice keep what was fixed when they were created, and an invoice has moved only along DRAFT,
-- OPEN, PAID.
pub Steps-Evolves : (w v : World) → Steps w v → Evolves w.db v.db
unfolding send
Steps-Evolves w _ (starts _) = Evolves-refl w.db
Steps-Evolves w _ (waits s n) = Steps-Evolves w _ s
Steps-Evolves w _ (sends s req) = Steps-Evolves w _ s
Steps-Evolves w _ (creates {v} s b i k h) =
    (create_pending_attempt-P w.db b i k h).at v (Steps-Evolves w v s)
Steps-Evolves w _ (settles {u} {v} s t a k ref) =
    Evolves-trans (Steps-Evolves w u s)
      ((persist_success-Keeps (settling u.db) a ref).at v (Steps-Evolves u v t))
Steps-Evolves w _ (fails {v} s id code) =
    ((settling w.db).update id PaymentAttemptStatus.failed none (some code)).at v
      (Steps-Evolves w v s)
Steps-Evolves w _ (enqueues {v} s e) = ((settling w.db).enqueue e).at v (Steps-Evolves w v s)
Steps-Evolves w _ (records {v} s e) = ((receiving w.db).record_event e).at v (Steps-Evolves w v s)
Steps-Evolves w _ (marks {v} s id) = ((receiving w.db).mark_processed id).at v (Steps-Evolves w v s)
Steps-Evolves w _ (rejects {v} s id) = ((receiving w.db).mark_failed id).at v (Steps-Evolves w v s)

-- What a thread knows of an attempt stays true while others go on.
same-evolves :
    (a : PaymentAttempt) (o p : Option PaymentAttempt)
    → AttemptEvolves o p
    → IsSameAttempt a o
    → IsSameAttempt a p
same-evolves a none p h k = absurd k
same-evolves a (some r) none h k = absurd h
same-evolves a (some r) (some r') h k = (h.0 ∙ k.0, h.1 ∙ k.1, h.2 ∙ k.2, h.3 ∙ k.3)

Knows-Steps : (a : PaymentAttempt) (u v : World) → Steps u v → Knows a u.db → Knows a v.db
Knows-Steps a u v s k = same-evolves a _ _ ((Steps-Evolves u v s).attempts a.id) k

persist_success-Inv :
    (a : PaymentAttempt) (ref : String) (w : World)
    → Inv w.db
    → Knows a w.db
    → Inv (persist_success a ref w).1.db
unfolding persist_success
persist_success-Inv a ref w v k = elim (transaction-IsAtomic (success_body a ref) w) [
  | inl same ↦ subst Inv (sym same) v
  | inr (r, u, done, changed) ↦ subst Inv (sym changed) (success_body-Inv a ref _ v k done)
]

record_event-Inv : (e : WebhookEvent) → Keeps (OnDb Inv) (WebhookEvents.create e)
unfolding WebhookEvents.create WebhookEvents.insert_query
record_event-Inv e = Keeps-statement_db Inv _ (λ n d h.
    Inv-frame (WebhookEvents.insert_query e n d).1 (ground arith) (ground arith) (ground arith) h)

mark_processed-Inv : (id : String) → Keeps (OnDb Inv) (WebhookEvents.mark_processed id)
unfolding WebhookEvents.mark_processed
mark_processed-Inv id =
    Keeps-bind (Keeps-time_now (λ w n p. p))
      λ at. Keeps-statement_db Inv _ (λ n d h. Inv-frame _ refl refl refl h)

mark_failed-Inv : (id : String) → Keeps (OnDb Inv) (WebhookEvents.mark_failed id)
unfolding WebhookEvents.mark_failed
mark_failed-Inv id = Keeps-statement_db Inv _ (λ n d h. Inv-frame _ refl refl refl h)

pub Steps-Inv : (w v : World) → Inv w.db → Steps w v → Inv v.db
unfolding send PaymentAttempts.update_status_if_pending OutboundEvents.create
Steps-Inv w _ i (starts _) = i
Steps-Inv w _ i (waits s n) = Steps-Inv w _ i s
Steps-Inv w _ i (sends s req) = Steps-Inv w _ i s
Steps-Inv w _ i (creates {v} s b j k h) =
    (create_pending_attempt-Inv b j k h).at v (Steps-Inv w v i s)
Steps-Inv w _ i (settles {u} {v} s t a k ref) =
    persist_success-Inv a ref v (Steps-Inv u v (Steps-Inv w u i s) t) (Knows-Steps a u v t k)
Steps-Inv w _ i (fails {v} s id code) =
    (Keeps-statement_db Inv _ (λ n d h. fail-Inv id none (some code) n d h)).at v
      (Steps-Inv w v i s)
Steps-Inv w _ i (enqueues {v} s e) =
    (Keeps-statement_db Inv _ (λ n d h. insert-event-Inv e n d h)).at v (Steps-Inv w v i s)
Steps-Inv w _ i (records {v} s e) = (record_event-Inv e).at v (Steps-Inv w v i s)
Steps-Inv w _ i (marks {v} s id) = (mark_processed-Inv id).at v (Steps-Inv w v i s)
Steps-Inv w _ i (rejects {v} s id) = (mark_failed-Inv id).at v (Steps-Inv w v i s)

apart : (s : PaymentAttemptStatus) → is_succeeded s ≡ true → is_pending s ≡ false
apart PaymentAttemptStatus.pending h = cc
apart PaymentAttemptStatus.succeeded h = refl
apart PaymentAttemptStatus.failed h = refl

live_apart :
    (i : String) (rows : List PaymentAttempt)
    → count (is_succeeded_of i) rows + count (PaymentAttempts.is_pending_of i) rows
      ≤ count (is_live_of i) rows
unfolding count
live_apart i [] = omega arith
live_apart i (a ∷ rows) = ground (arith, apart a.status, live_apart i rows)

zero_or_pos : (n : ℕ) → (n ≡ 0) ⊎ (0 < n)
zero_or_pos zero = inl refl
zero_or_pos (suc n) = inr (omega arith)

-- From a database that meets the invariant, after any steps of any calls of the payment service
-- and whatever fails, the attempts of an invoice that are SUCCEEDED and those that are PENDING are
-- together one at most.
one_settlement :
    (w v : World) (i : String)
    → Inv w.db
    → Steps w v
    → count (is_succeeded_of i) v.db.payment_attempts
        + count (PaymentAttempts.is_pending_of i) v.db.payment_attempts
      ≤ 1
one_settlement w v i start s =
    omega (arith, (Steps-Inv w v start s).one_live i, live_apart i v.db.payment_attempts)

-- From a database that meets the invariant, after any steps of any calls of the payment service:
-- an invoice of which an attempt has SUCCEEDED exists and is neither DRAFT nor OPEN.
succeeded_closes :
    (w v : World) (i : String)
    → Inv w.db
    → Steps w v
    → 0 < count (is_succeeded_of i) v.db.payment_attempts
    → is_closed i v.db.invoices ≡ true
succeeded_closes w v i start s = (Steps-Inv w v start s).closed i

-- From a database that meets the invariant, after any steps of any calls of the payment service,
-- the outbox has at most one event of a given type and source.
pub one_event :
    (w v : World) (event_type source_id : String)
    → Inv w.db
    → Steps w v
    → count (OutboundEvents.has_source event_type source_id) v.db.outbound_events ≤ 1
one_event w v t id start s = (Steps-Inv w v start s).one_event t id

-- From a database that meets the invariant, after any steps of any calls of the payment service and
-- whatever fails: the attempts of an invoice that are SUCCEEDED and those that are PENDING are together
-- one at most; if one has SUCCEEDED, the invoice exists and is neither DRAFT nor OPEN; and the outbox
-- has at most one event of a given type and source.
pub settlement_sound :
    (w v : World) (i event_type source_id : String)
    → Inv w.db
    → Steps w v
    → (count (is_succeeded_of i) v.db.payment_attempts
          + count (PaymentAttempts.is_pending_of i) v.db.payment_attempts
        ≤ 1)
      × ((count (is_succeeded_of i) v.db.payment_attempts ≡ 0) ⊎ (is_closed i v.db.invoices ≡ true))
      × (count (OutboundEvents.has_source event_type source_id) v.db.outbound_events ≤ 1)
settlement_sound w v i event_type source_id start s = (
  one_settlement w v i start s,
  elim (zero_or_pos (count (is_succeeded_of i) v.db.payment_attempts)) [
    | inl none_paid ↦ inl none_paid
    | inr some_paid ↦ inr (succeeded_closes w v i start s some_paid)
  ],
  one_event w v event_type source_id start s,
)
