-- ===== src/Payment/Charges.antt =====
-- What is sent to the card processor.
use dodo_payment_gateway.Base.{
  ◌≡◌, refl, sym, subst, ◌∙◌, ◌⊎◌, inl, inr, String, Option, none, some, List, find, insert,
}
use dodo_payment_gateway.Model.{Invoice, is_draft, PaymentAttempt}
use dodo_payment_gateway.Errors.{Error, Result, ok, err, is_no_rows}
use dodo_payment_gateway.Store.{Db, World, try, HttpReply, ChargeRequest, ChargeResponse}
use dodo_payment_gateway.Store.Keeps.{
  Keeps, Keeps-pure, Keeps-raise, Keeps-if, Keeps-new_uuid, Keeps-time_now, Keeps-try, Keeps-bind,
  bind_keeps, bind_keeps_ok, Keeps-statement_blind, Keeps-transaction_blind,
}
use dodo_payment_gateway.Repository.Invoices
use dodo_payment_gateway.Repository.PaymentAttempts
use dodo_payment_gateway.Repository.IdempotencyKeys
use dodo_payment_gateway.Repository.OutboundEvents
use dodo_payment_gateway.Psp.{charge, send, log_charge}
use dodo_payment_gateway.Payment.Settle.{charge_and_settle, settle}
use dodo_payment_gateway.Payment.Create.{
  create_pending_attempt, create_body, open_draft, insert_pending, none_pending, in_progress,
}
use dodo_payment_gateway.Payment.Guards.{return_or}
use dodo_payment_gateway.Payment.PspWebhook.{process_psp_webhook}
use dodo_payment_gateway.Repository.WebhookEvents
use dodo_payment_gateway.Payment.Pay.{pay_invoice}
use dodo_payment_gateway.Payment.Frame.{
  Settling, Receiving, read_reply-Keeps, settle-Keeps, apply_webhook-Keeps,
  process_psp_webhook-Keeps, raise_if-Keeps, raise_some-Keeps,
}
use dodo_payment_gateway.Payment.History.{Evolves, AttemptEvolves}
use dodo_payment_gateway.Payment.History.Rows.{Evolves-refl}
use dodo_payment_gateway.Payment.History.Service.{settling}
use dodo_payment_gateway.Payment.Invariant.{Knows, IsSameAttempt}
use dodo_payment_gateway.Payment.Runs.{Run, pay_invoice-Ends}

-- The request is for a committed attempt: its idempotency key is the id of a row with its amount
-- and currency.
abbrev pub IsBackedBy : ChargeRequest → Option PaymentAttempt → Type 0
IsBackedBy req none = ⊥
IsBackedBy req (some r) = (r.amount ≡ req.amount) × (r.currency ≡ req.currency)

abbrev pub IsBacked : ChargeRequest → Db → Type 0
IsBacked req d =
    IsBackedBy req (find (PaymentAttempts.has_id req.idempotency_key) d.payment_attempts)

backed-evolves :
    (req : ChargeRequest) (o p : Option PaymentAttempt)
    → AttemptEvolves o p
    → IsBackedBy req o
    → IsBackedBy req p
backed-evolves req none p h k = absurd k
backed-evolves req (some r) none h k = absurd h
backed-evolves req (some r) (some r') h k = (h.2 ∙ k.0, h.3 ∙ k.1)

-- What has been sent is `c`.
abbrev pub Silent : List ChargeRequest → World → Type 0
Silent c w = w.charges ≡ c

silent : (c : List ChargeRequest) → Settling (Silent c)
unfolding Invoices.get_by_id_for_update Invoices.mark_paid_if_open PaymentAttempts.get_by_id
    PaymentAttempts.update_status_if_pending OutboundEvents.create
silent c = record {
  timeless = λ w n h. h;
  transact = λ m k. Keeps-transaction_blind (λ w d n h. h) k;
  lock = λ i. Keeps-statement_blind _ (λ w d n h. h);
  mark_paid = λ i. Keeps-statement_blind _ (λ w d n h. h);
  read = λ i. Keeps-statement_blind _ (λ w d n h. h);
  update = λ i s ref code. Keeps-statement_blind _ (λ w d n h. h);
  enqueue = λ e. Keeps-statement_blind _ (λ w d n h. h);
}

-- Nothing was sent after `c`, or one request that its attempt backs.
abbrev pub SendsOne : List ChargeRequest → World → Type 0
SendsOne c w =
    (w.charges ≡ c) ⊎ ((req : ChargeRequest) × (w.charges ≡ insert req c) × IsBacked req w.db)

-- After the request, when the wire has taken it or not.
abbrev Sent : List ChargeRequest → ChargeRequest → Db → World → Type 0
Sent c req d w = ((w.charges ≡ c) ⊎ (w.charges ≡ insert req c)) × (w.db ≡ d)

log_charge_cases :
    (r : HttpReply) (req : ChargeRequest) (c : List ChargeRequest)
    → (log_charge r req c ≡ c) ⊎ (log_charge r req c ≡ insert req c)
unfolding log_charge
log_charge_cases (HttpReply.not_built text) req c = inl refl
log_charge_cases HttpReply.timed_out req c = inr refl
log_charge_cases HttpReply.disconnected req c = inr refl
log_charge_cases (HttpReply.answered code body) req c = inr refl

charge-Sent : (req : ChargeRequest) (w : World) → Sent w.charges req w.db (try (charge req) w).1
unfolding charge send try
charge-Sent req w =
    bind_keeps {P = Sent w.charges req w.db} (send req) _ w
      (log_charge_cases (w.env.transport w.tick req) req w.charges, refl) read_reply-Keeps

settle-Sent :
    (c : List ChargeRequest) (req : ChargeRequest) (d : Db) (a : PaymentAttempt)
    (r : Result ChargeResponse) (u : World)
    → Sent c req d u
    → IsBacked req d
    → SendsOne c (settle a r u).1
settle-Sent c req d a r u (inl idle, same) b = inl ((settle-Keeps (silent c) a r).at u idle)
settle-Sent c req d a r u (inr went, same) b = inr (
  req,
  (settle-Keeps (silent (insert req c)) a r).at u went,
  backed-evolves req _ _ (kept.attempts req.idempotency_key) b,
)
  where
    kept : Evolves d (settle a r u).1.db
    kept = (settle-Keeps (settling d) a r).at u (subst (Evolves d) (sym same) (Evolves-refl d))

Sent-SendsOne :
    {c : List ChargeRequest} (req : ChargeRequest) {d : Db} (u : World)
    → Sent c req d u
    → IsBacked req d
    → SendsOne c u
Sent-SendsOne req u (inl idle, same) b = inl idle
Sent-SendsOne req u (inr went, same) b = inr (req, went, subst (IsBacked req) (sym same) b)

known-IsBacked :
    (req : ChargeRequest) (a : PaymentAttempt) (o : Option PaymentAttempt)
    → IsSameAttempt a o
    → req.amount ≡ a.amount
    → req.currency ≡ a.currency
    → IsBackedBy req o
known-IsBacked req a none k m n = absurd k
known-IsBacked req a (some r) k m n = (k.2 ∙ sym m, k.3 ∙ sym n)

charge_and_settle-SendsOne :
    (c : List ChargeRequest) (a : PaymentAttempt) (token : String) (w : World)
    → Silent c w
    → Knows a w.db
    → SendsOne c (charge_and_settle a token w).1
unfolding charge_and_settle
charge_and_settle-SendsOne c a token w idle k =
    bind_keeps_ok (SendsOne c) _ _ w (Sent-SendsOne request (try (charge request) w).1 sent backed)
      λ r u e.
        settle-Sent c request w.db a r u
          (subst (λ (x : Result _ × World). Sent c request w.db x.1) e sent) backed
  where
    request : ChargeRequest
    request = record {
      amount = a.amount;
      currency = a.currency;
      card_token = token;
      idempotency_key = a.id;
    }

    backed : IsBacked request w.db
    backed = known-IsBacked request a _ k refl refl

    sent : Sent c request w.db (try (charge request) w).1
    sent =
        subst (λ (x : List ChargeRequest). Sent x request w.db (try (charge request) w).1) idle
          (charge-Sent request w)

module _ (c : List ChargeRequest) where
  return_or-Silent :
      {A : Type 0} (f : Error → Error) (r : Result A) → Keeps (Silent c) (return_or f r)
  unfolding return_or
  return_or-Silent f (ok a) = Keeps-pure a
  return_or-Silent f (err e) = Keeps-raise (f e)

  none_pending-Silent : (r : Result PaymentAttempt) → Keeps (Silent c) (none_pending r)
  unfolding none_pending
  none_pending-Silent (ok a) = Keeps-raise _
  none_pending-Silent (err e) = Keeps-if (is_no_rows e) (λ _. Keeps-pure tt) (λ _. Keeps-raise e)

  insert_pending-Silent : (v : Invoice) (b k h : String) → Keeps (Silent c) (insert_pending v b k h)
  unfolding insert_pending IdempotencyKeys.create PaymentAttempts.get_pending_by_invoice_id
      PaymentAttempts.create
  insert_pending-Silent v b k h = Keeps-bind (Keeps-new_uuid (λ w n p. p)) λ attempt_id.
      Keeps-bind (Keeps-new_uuid (λ w n p. p)) λ key_id.
        Keeps-bind (Keeps-statement_blind _ (λ w d n p. p)) λ _.
          Keeps-bind (Keeps-try (Keeps-statement_blind _ (λ w d n p. p))) λ pending.
            Keeps-bind (none_pending-Silent pending) λ _.
              Keeps-bind (Keeps-try (Keeps-statement_blind _ (λ w d n p. p)))
                λ created. return_or-Silent in_progress created

  open_draft-Silent : (v : Invoice) → Keeps (Silent c) (open_draft v)
  unfolding open_draft Invoices.update_status
  open_draft-Silent v =
      Keeps-if (is_draft v.status) (λ _. Keeps-statement_blind _ (λ w d n p. p))
        (λ _. Keeps-pure tt)

  -- Nothing is sent while the attempt is set up.
  create_pending_attempt-Silent :
      (b i k h : String) → Keeps (Silent c) (create_pending_attempt b i k h)
  unfolding create_pending_attempt create_body
  create_pending_attempt-Silent b i k h =
      Keeps-transaction_blind (λ w d n p. p)
        (Keeps-bind (Keeps-try ((silent c).lock i)) λ read.
          Keeps-bind (return_or-Silent _ read) λ v. Keeps-bind (raise_if-Keeps _ _) λ _.
            Keeps-bind (raise_some-Keeps _)
              λ _. Keeps-bind (open_draft-Silent v) λ _. insert_pending-Silent v b k h)

  paying : Run (Silent c) (SendsOne c)
  unfolding IdempotencyKeys.get_by_key
  paying = record {
    weaken = λ w p. inl p;
    look_up = λ b k. Keeps-statement_blind _ (λ w d n p. p);
    read = (silent c).read;
    begin_attempt = create_pending_attempt-Silent;
    charge = charge_and_settle-SendsOne c;
  }

  receiving : Receiving (Silent c)
  unfolding WebhookEvents.create WebhookEvents.get_by_event_id WebhookEvents.mark_processed
      WebhookEvents.mark_failed
  receiving = record {
    timeless = λ w n h. h;
    apply = apply_webhook-Keeps (silent c);
    record_event = λ e. Keeps-statement_blind _ (λ w d n p. p);
    find_event = λ i. Keeps-statement_blind _ (λ w d n p. p);
    mark_processed = λ i.
        Keeps-bind (Keeps-time_now (λ w n p. p)) (λ at. Keeps-statement_blind _ (λ w d n p. p));
    mark_failed = λ i. Keeps-statement_blind _ (λ w d n p. p);
  }

-- A call of PayInvoice sends at most one request to the card processor, and when it sends one, the
-- attempt whose id is the request's idempotency key is in the database with that amount and currency.
pub pay_invoice-SendsOne :
    (b i k token : String) (w : World) → SendsOne w.charges (pay_invoice b i k token w).1
pay_invoice-SendsOne b i k token w = pay_invoice-Ends (paying w.charges) b i k token w refl

-- A webhook of the card processor sends it nothing.
pub process_psp_webhook-charges :
    (secret payload event_id timestamp signature : String) (w : World)
    → (process_psp_webhook secret payload event_id timestamp signature w).1.charges ≡ w.charges
process_psp_webhook-charges secret payload event_id timestamp signature w =
    (process_psp_webhook-Keeps (receiving w.charges) secret payload event_id timestamp signature).at
      w refl
