-- ===== src/Payment/History/Service.antt =====
-- The effects of the payment service respect the history.
use dodo_payment_gateway.Base.{
  ◌≡◌, refl, sym, subst, ap, String, Bool, true, false, some, find, inl, inr, eq_iff, find_holds,
  if◌then◌else◌,
}
use dodo_payment_gateway.Model.{Invoice, open_status, is_draft, PaymentAttempt, IdempotencyKey}
use dodo_payment_gateway.Errors.{Result, ok}
use dodo_payment_gateway.Store.{Db, World, pure}
use dodo_payment_gateway.Store.Laws.{statement-db}
use dodo_payment_gateway.Store.Keeps.{
  Keeps, OnDb, Keeps-try, Keeps-bind, bind_keeps, Keeps-new_uuid, Keeps-time_now,
  Keeps-statement_db, Keeps-transaction,
}
use dodo_payment_gateway.Repository.Invoices
use dodo_payment_gateway.Repository.PaymentAttempts
use dodo_payment_gateway.Repository.IdempotencyKeys
use dodo_payment_gateway.Repository.OutboundEvents
use dodo_payment_gateway.Repository.WebhookEvents
use dodo_payment_gateway.Payment.Create.{
  open_draft, insert_pending, create_body, create_pending_attempt, new_attempt, new_key,
  in_progress,
}
use dodo_payment_gateway.Payment.Frame.{Settling, Receiving, apply_webhook-Keeps}
use dodo_payment_gateway.Payment.Invariant.Bodies.{
  get_pending-Keeps, none_pending-Keeps, return_or-Keeps, create_body-Admitted,
}
use dodo_payment_gateway.Payment.History.{Evolves}
use dodo_payment_gateway.Payment.History.Rows.{
  Evolves-trans, Evolves-frame, settle-Evolves, mark_paid-Evolves, open-Evolves,
  insert_attempt-Evolves, insert_key-Evolves, insert_event-Evolves, insert_webhook-Evolves,
}

module _ (d0 : Db) where
  abbrev pub P : World → Type 0
  P = OnDb (Evolves d0)

  pub settling : Settling P
  unfolding Invoices.get_by_id_for_update Invoices.mark_paid_if_open PaymentAttempts.get_by_id
      PaymentAttempts.update_status_if_pending OutboundEvents.create
  settling = record {
    timeless = λ w n h. h;
    transact = λ m k.
        Keeps-transaction (Evolves d0)
          (λ w a u h e. subst P (ap (λ (r : Result _ × World). r.1) e) (k.at w h));
    lock = λ i. Keeps-statement_db (Evolves d0) _ (λ n d h. h);
    mark_paid =
        λ i. Keeps-statement_db (Evolves d0) _ (λ n d h. Evolves-trans h (mark_paid-Evolves i n d));
    read = λ i. Keeps-statement_db (Evolves d0) _ (λ n d h. h);
    update = λ i s ref code.
        Keeps-statement_db (Evolves d0) _
          (λ n d h. Evolves-trans h (settle-Evolves i s ref code n d));
    enqueue = λ e.
        Keeps-statement_db (Evolves d0) _ (λ n d h. Evolves-trans h (insert_event-Evolves e n d));
  }

  create_key-P : (k : IdempotencyKey) → Keeps P (IdempotencyKeys.create k)
  unfolding IdempotencyKeys.create
  create_key-P k =
      Keeps-statement_db (Evolves d0) _ (λ n d h. Evolves-trans h (insert_key-Evolves k n d))

  create_attempt-P : (a : PaymentAttempt) → Keeps P (PaymentAttempts.create a)
  unfolding PaymentAttempts.create
  create_attempt-P a =
      Keeps-statement_db (Evolves d0) _ (λ n d h. Evolves-trans h (insert_attempt-Evolves a n d))

  insert_pending-P : (v : Invoice) (b k h : String) → Keeps P (insert_pending v b k h)
  unfolding insert_pending
  insert_pending-P v b k h = Keeps-bind (Keeps-new_uuid (λ w n p. p)) λ attempt_id.
      Keeps-bind (Keeps-new_uuid (λ w n p. p)) λ key_id.
        Keeps-bind (create_key-P (new_key v b k h attempt_id key_id)) λ _.
          Keeps-bind (Keeps-try (get_pending-Keeps (Evolves d0) v.id)) λ pending.
            Keeps-bind (none_pending-Keeps (Evolves d0) pending) λ _.
              Keeps-bind (Keeps-try (create_attempt-P (new_attempt v b attempt_id)))
                λ created. return_or-Keeps (Evolves d0) in_progress created

  open_draft-at :
      (v : Invoice) (w : World)
      → find (Invoices.has_id v.id) w.db.invoices ≡ some v
      → P w
      → (b : Bool) → is_draft v.status ≡ b
      → P ((if b then Invoices.update_status v.id open_status else pure tt) w).1
  unfolding Invoices.update_status pure
  open_draft-at v w row h true drafted = elim (statement-db _ w) [
    | inl same ↦ subst (Evolves d0) (sym same) h
    | inr changed ↦
        subst (Evolves d0) (sym changed) (Evolves-trans h (open-Evolves v.id v _ w.db row drafted))
  ]
  open_draft-at v w row h false open_already = h

  create_body-P :
      (b i k h : String) (w : World) (a : PaymentAttempt) (u : World)
      → P w
      → create_body b i k h w ≡ (ok a, u)
      → P u
  unfolding open_draft
  create_body-P b i k h w a u p e =
      let c = create_body-Admitted b i k h w e in
      let id : c.invoice.id ≡ i =
        (eq_iff c.invoice.id i).0 (find_holds (Invoices.has_id i) c.invoice _ c.row) in
      let row : find (Invoices.has_id c.invoice.id) c.start.db.invoices ≡ some c.invoice =
        rw (id, c.unchanged) c.row in
      subst (λ (r : Result PaymentAttempt × World). P r.1) c.rest
        (bind_keeps _ _ c.start
          (open_draft-at c.invoice c.start row (subst (Evolves d0) (sym c.unchanged) p) _ refl)
          (λ _. insert_pending-P c.invoice b k h))

  pub create_pending_attempt-P : (b i k h : String) → Keeps P (create_pending_attempt b i k h)
  unfolding create_pending_attempt
  create_pending_attempt-P b i k h = Keeps-transaction (Evolves d0) (create_body-P b i k h)

  pub receiving : Receiving P
  unfolding WebhookEvents.create WebhookEvents.get_by_event_id WebhookEvents.mark_processed
      WebhookEvents.mark_failed
  receiving = record {
    timeless = λ w n h. h;
    apply = λ body. apply_webhook-Keeps settling body;
    record_event = λ e.
        Keeps-statement_db (Evolves d0) _ (λ n d h. Evolves-trans h (insert_webhook-Evolves e n d));
    find_event = λ i. Keeps-statement_db (Evolves d0) _ (λ n d h. h);
    mark_processed = λ i. Keeps-bind (Keeps-time_now (λ w n p. p)) λ at.
        Keeps-statement_db (Evolves d0) _
          (λ n d h. Evolves-trans h (Evolves-frame _ refl refl refl));
    mark_failed = λ i.
        Keeps-statement_db (Evolves d0) _
          (λ n d h. Evolves-trans h (Evolves-frame _ refl refl refl));
  }
