-- ===== src/Payment/History/Rows.antt =====
-- The history of the rows under each statement.
use dodo_payment_gateway.Base.{
  ℕ, ◌≡◌, refl, sym, subst, ap, ◌∙◌, ◌⊎◌, String, Bool, true, false, ◌&&◌, Option, none, some, List,
  find, update, insert, arith, inl, inr, find-insert-some, find-update, find_holds, eq_iff,
  if◌then◌else◌,
}
use dodo_payment_gateway.Model.{
  Invoice, InvoiceStatus, draft, open_status, paid, void, uncollectible, is_draft, is_draft_or_open,
  PaymentAttempt, PaymentAttemptStatus, is_pending, IdempotencyKey, OutboundEvent, WebhookEvent,
}
use dodo_payment_gateway.Store.{Db}
use dodo_payment_gateway.Repository.Invoices
use dodo_payment_gateway.Repository.PaymentAttempts
use dodo_payment_gateway.Repository.IdempotencyKeys
use dodo_payment_gateway.Repository.OutboundEvents
use dodo_payment_gateway.Repository.WebhookEvents
use dodo_payment_gateway.Payment.Invariant.Rows.{insert-attempt_cases}
use dodo_payment_gateway.Payment.History.{
  Follows, InvoiceEvolves, AttemptEvolves, KeyEvolves, Evolves,
}

Follows-refl : (s : InvoiceStatus) → Follows s s
Follows-refl draft = inl refl
Follows-refl open_status = inl refl
Follows-refl paid = refl
Follows-refl void = refl
Follows-refl uncollectible = refl
Follows-refl (InvoiceStatus.other t) = refl

Follows-trans : (r s t : InvoiceStatus) → Follows r s → Follows s t → Follows r t
Follows-trans r s t h k = ground arith

InvoiceEvolves-refl : (o : Option Invoice) → InvoiceEvolves o o
InvoiceEvolves-refl none = tt
InvoiceEvolves-refl (some v) = (refl, refl, refl, refl, Follows-refl v.status)

AttemptEvolves-refl : (o : Option PaymentAttempt) → AttemptEvolves o o
AttemptEvolves-refl none = tt
AttemptEvolves-refl (some a) = (refl, refl, refl, refl, λ h. refl)

KeyEvolves-refl : (o : Option IdempotencyKey) → KeyEvolves o o
KeyEvolves-refl none = tt
KeyEvolves-refl (some k) = refl

pub Evolves-refl : (d : Db) → Evolves d d
Evolves-refl d = record {
  invoices = λ id. InvoiceEvolves-refl _;
  attempts = λ id. AttemptEvolves-refl _;
  keys = λ b k. KeyEvolves-refl _;
}

InvoiceEvolves-trans :
    (o p q : Option Invoice) → InvoiceEvolves o p → InvoiceEvolves p q → InvoiceEvolves o q
InvoiceEvolves-trans none p q h k = tt
InvoiceEvolves-trans (some v) none q h k = absurd h
InvoiceEvolves-trans (some v) (some w) none h k = absurd k
InvoiceEvolves-trans (some v) (some w) (some x) (a, b, c, e, f) (a', b', c', e', f') =
    (a' ∙ a, b' ∙ b, c' ∙ c, e' ∙ e, Follows-trans v.status w.status x.status f f')

AttemptEvolves-trans :
    (o p q : Option PaymentAttempt) → AttemptEvolves o p → AttemptEvolves p q → AttemptEvolves o q
AttemptEvolves-trans none p q h k = tt
AttemptEvolves-trans (some v) none q h k = absurd h
AttemptEvolves-trans (some v) (some w) none h k = absurd k
AttemptEvolves-trans (some v) (some w) (some x) (a, b, c, e, f) (a', b', c', e', f') = (
  a' ∙ a,
  b' ∙ b,
  c' ∙ c,
  e' ∙ e,
  λ h. f' (ap (λ (y : PaymentAttempt). is_pending y.status) (f h) ∙ h) ∙ f h,
)

KeyEvolves-trans :
    (o p q : Option IdempotencyKey) → KeyEvolves o p → KeyEvolves p q → KeyEvolves o q
KeyEvolves-trans none p q h k = tt
KeyEvolves-trans (some v) none q h k = cc
KeyEvolves-trans (some v) (some w) q h k = k ∙ h

pub Evolves-trans : {c d e : Db} → Evolves c d → Evolves d e → Evolves c e
Evolves-trans h k = record {
  invoices = λ id. InvoiceEvolves-trans _ _ _ (h.invoices id) (k.invoices id);
  attempts = λ id. AttemptEvolves-trans _ _ _ (h.attempts id) (k.attempts id);
  keys = λ b j. KeyEvolves-trans _ _ _ (h.keys b j) (k.keys b j);
}

-- Changes to the other tables.
pub Evolves-frame :
    {d : Db} (d' : Db)
    → d'.invoices ≡ d.invoices
    → d'.payment_attempts ≡ d.payment_attempts
    → d'.idempotency_keys ≡ d.idempotency_keys
    → Evolves d d'
Evolves-frame {d} d' i a k = record {
  invoices = λ id. rw i (InvoiceEvolves-refl _);
  attempts = λ id. rw a (AttemptEvolves-refl _);
  keys = λ b j. rw k (KeyEvolves-refl _);
}

settled-AttemptEvolves :
    (i id : String) (s : PaymentAttemptStatus) (ref code : Option String) (n : ℕ)
    (xs : List PaymentAttempt)
    → AttemptEvolves (find (PaymentAttempts.has_id i) xs) (
        find
          (PaymentAttempts.has_id i)
          (update (PaymentAttempts.is_pending_id id) (PaymentAttempts.set_status s ref code n) xs))
settled-AttemptEvolves i id s ref code n xs =
    rw
      (find-update (PaymentAttempts.has_id i) (PaymentAttempts.is_pending_id id)
        (PaymentAttempts.set_status s ref code n) xs (λ x. refl))
      (go (find (PaymentAttempts.has_id i) xs))
  where
    go :
        (o : Option PaymentAttempt)
        → AttemptEvolves o (elim o [
          | none ↦ none
          | some x ↦ some (
              if PaymentAttempts.is_pending_id id x
              then PaymentAttempts.set_status s ref code n x
              else x)
        ])
    go none = tt
    go (some x) = ground arith

-- UPDATE … WHERE id = … AND status = 'PENDING'
pub settle-Evolves :
    (id : String) (s : PaymentAttemptStatus) (ref code : Option String) (n : ℕ) (d : Db)
    → Evolves d (PaymentAttempts.update_if_pending_query id s ref code n d).1
unfolding PaymentAttempts.update_if_pending_query
settle-Evolves id s ref code n d = record {
  invoices = λ i. InvoiceEvolves-refl _;
  attempts = λ i. settled-AttemptEvolves i id s ref code n d.payment_attempts;
  keys = λ b k. KeyEvolves-refl _;
}

restatus-InvoiceEvolves :
    (i : String) (p : Invoice → Bool) (s : InvoiceStatus) (n : ℕ) (xs : List Invoice)
    → ((v : Invoice) → find (Invoices.has_id i) xs ≡ some v → p v ≡ true → Follows v.status s)
    → InvoiceEvolves
        (find (Invoices.has_id i) xs)
        (find (Invoices.has_id i) (update p (Invoices.set_status s n) xs))
restatus-InvoiceEvolves i p s n xs h =
    rw (find-update (Invoices.has_id i) p (Invoices.set_status s n) xs (λ x. refl))
      (go (find (Invoices.has_id i) xs) h)
  where
    chosen :
        (v : Invoice) (b : Bool)
        → (b ≡ true → Follows v.status s)
        → InvoiceEvolves (some v) (some (if b then Invoices.set_status s n v else v))
    chosen v true k = (refl, refl, refl, refl, k refl)
    chosen v false k = (refl, refl, refl, refl, Follows-refl v.status)

    go :
        (o : Option Invoice)
        → ((v : Invoice) → o ≡ some v → p v ≡ true → Follows v.status s)
        → InvoiceEvolves o
            (elim o [ none ↦ none | some x ↦ some (if p x then Invoices.set_status s n x else x) ])
    go none k = tt
    go (some v) k = chosen v (p v) (k v refl)

Follows-paid : (v : Invoice) → is_draft_or_open v.status ≡ true → Follows v.status paid
Follows-paid v h = ground arith

Follows-open : (v : Invoice) → is_draft v.status ≡ true → Follows v.status open_status
Follows-open v h = ground arith

pub mark_paid-Evolves :
    (id : String) (n : ℕ) (d : Db) → Evolves d (Invoices.mark_paid_query id n d).1
unfolding Invoices.mark_paid_query
mark_paid-Evolves id n d = record {
  invoices = λ i.
      restatus-InvoiceEvolves i (λ v. Invoices.has_id id v && is_draft_or_open v.status) paid n
        d.invoices (λ v e h. Follows-paid v (ground arith));
  attempts = λ i. AttemptEvolves-refl _;
  keys = λ b k. KeyEvolves-refl _;
}

-- The unguarded UPDATE that opens an invoice, where the row that the id finds is a draft.
pub open-Evolves :
    (id : String) (w : Invoice) (n : ℕ) (d : Db)
    → find (Invoices.has_id id) d.invoices ≡ some w
    → is_draft w.status ≡ true
    → Evolves d (Invoices.update_status_query id open_status n d).1
unfolding Invoices.update_status_query
open-Evolves id w n d row drafted = record {
  invoices = λ i.
      restatus-InvoiceEvolves i (Invoices.has_id id) open_status n d.invoices
        (λ v e h. Follows-open v (same_row i v e h));
  attempts = λ i. AttemptEvolves-refl _;
  keys = λ b k. KeyEvolves-refl _;
}
  where
    same_row :
        (i : String) (v : Invoice)
        → find (Invoices.has_id i) d.invoices ≡ some v
        → Invoices.has_id id v ≡ true
        → is_draft v.status ≡ true
    same_row i v e h =
        let same : i ≡ id =
          sym ((eq_iff v.id i).0 (find_holds (Invoices.has_id i) v d.invoices e))
          ∙ (eq_iff v.id id).0 h in
        let found : some v ≡ some w =
          sym e ∙ ap (λ (j : String). find (Invoices.has_id j) d.invoices) same ∙ row in
        ground arith

insert-AttemptEvolves :
    (i : String) (a : PaymentAttempt) (xs : List PaymentAttempt) (o : Option PaymentAttempt)
    → find (PaymentAttempts.has_id i) xs ≡ o
    → AttemptEvolves o (find (PaymentAttempts.has_id i) (insert a xs))
insert-AttemptEvolves i a xs none e = tt
insert-AttemptEvolves i a xs (some x) e =
    rw (find-insert-some (PaymentAttempts.has_id i) a x xs e) (AttemptEvolves-refl (some x))

insert-KeyEvolves :
    (b k : String) (a : IdempotencyKey) (xs : List IdempotencyKey) (o : Option IdempotencyKey)
    → find (IdempotencyKeys.has_key b k) xs ≡ o
    → KeyEvolves o (find (IdempotencyKeys.has_key b k) (insert a xs))
insert-KeyEvolves b k a xs none e = tt
insert-KeyEvolves b k a xs (some x) e = find-insert-some (IdempotencyKeys.has_key b k) a x xs e

insert-InvoiceEvolves :
    (i : String) (a : Invoice) (xs : List Invoice) (o : Option Invoice)
    → find (Invoices.has_id i) xs ≡ o
    → InvoiceEvolves o (find (Invoices.has_id i) (insert a xs))
insert-InvoiceEvolves i a xs none e = tt
insert-InvoiceEvolves i a xs (some x) e =
    rw (find-insert-some (Invoices.has_id i) a x xs e) (InvoiceEvolves-refl (some x))

pub insert_attempt-Evolves :
    (a : PaymentAttempt) (n : ℕ) (d : Db) → Evolves d (PaymentAttempts.insert_query a n d).1
insert_attempt-Evolves a n d = elim (insert-attempt_cases a n d) [
  | inl same ↦ subst (Evolves d) (sym same) (Evolves-refl d)
  | inr (_, _, changed) ↦ subst (Evolves d) (sym changed) (record {
    invoices = λ i. InvoiceEvolves-refl _;
    attempts = λ i. insert-AttemptEvolves i (PaymentAttempts.as_row a n) d.payment_attempts _ refl;
    keys = λ b k. KeyEvolves-refl _;
  })
]

insert-key_cases :
    (k : IdempotencyKey) (n : ℕ) (d : Db)
    → ((IdempotencyKeys.insert_query k n d).1 ≡ d)
      ⊎ ((IdempotencyKeys.insert_query k n d).1
          ≡ record d { idempotency_keys = insert (record k { created_at = n }) d.idempotency_keys })
unfolding IdempotencyKeys.insert_query
insert-key_cases k n d = ground arith

pub insert_key-Evolves :
    (k : IdempotencyKey) (n : ℕ) (d : Db) → Evolves d (IdempotencyKeys.insert_query k n d).1
insert_key-Evolves k n d = elim (insert-key_cases k n d) [
  | inl same ↦ subst (Evolves d) (sym same) (Evolves-refl d)
  | inr changed ↦ subst (Evolves d) (sym changed) (record {
    invoices = λ i. InvoiceEvolves-refl _;
    attempts = λ i. AttemptEvolves-refl _;
    keys = λ b j. insert-KeyEvolves b j (record k { created_at = n }) d.idempotency_keys _ refl;
  })
]

pub insert_event-Evolves :
    (e : OutboundEvent) (n : ℕ) (d : Db) → Evolves d (OutboundEvents.insert_query e n d).1
unfolding OutboundEvents.insert_query
insert_event-Evolves e n d =
    Evolves-frame (OutboundEvents.insert_query e n d).1 (ground arith) (ground arith) (ground arith)

pub insert_webhook-Evolves :
    (e : WebhookEvent) (n : ℕ) (d : Db) → Evolves d (WebhookEvents.insert_query e n d).1
unfolding WebhookEvents.insert_query
insert_webhook-Evolves e n d =
    Evolves-frame (WebhookEvents.insert_query e n d).1 (ground arith) (ground arith) (ground arith)
