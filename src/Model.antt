-- ===== src/Model.antt =====
-- internal/model: the rows of the database as the Go structs that are scanned from them.
--
-- A field `*string` or `*time.Time` is an Option. A text enumeration is a data type; `other` holds
-- any text that is none of the named constants. Times are nanoseconds since 1970. A JSON payload
-- that the program builds is kept as the map that is marshalled.
use dodo_payment_gateway.Base.{ℕ, String, Bool, true, false, Option}
use dodo_payment_gateway.Base.Int.{ℤ}

pub record Business : Type 0 where
  pub id : String
  pub name : String
  pub webhook_url : Option String
  pub webhook_secret : String
  pub created_at : ℕ

pub record Customer : Type 0 where
  pub id : String
  pub business_id : String
  pub name : String
  pub email : String
  pub created_at : ℕ

pub data InvoiceStatus : Type 0 where
  draft open_status paid void uncollectible : InvoiceStatus
  other : String → InvoiceStatus

pub record Invoice : Type 0 where
  pub id : String
  pub business_id : String
  pub customer_id : String
  pub currency : String
  pub amount : ℤ
  pub status : InvoiceStatus
  pub created_at : ℕ
  pub updated_at : ℕ

abbrev pub is_draft : InvoiceStatus → Bool
is_draft draft = true
is_draft _ = false

-- `status IN ('DRAFT', 'OPEN')`
abbrev pub is_draft_or_open : InvoiceStatus → Bool
is_draft_or_open draft = true
is_draft_or_open open_status = true
is_draft_or_open _ = false

pub data PaymentAttemptStatus : Type 0 where
  pending succeeded failed : PaymentAttemptStatus

abbrev pub is_pending : PaymentAttemptStatus → Bool
is_pending pending = true
is_pending _ = false

abbrev pub is_succeeded : PaymentAttemptStatus → Bool
is_succeeded succeeded = true
is_succeeded _ = false

pub record PaymentAttempt : Type 0 where
  pub id : String
  pub invoice_id : String
  pub business_id : String
  pub amount : ℤ
  pub currency : String
  pub status : PaymentAttemptStatus
  pub psp_transaction_id : Option String
  pub failure_code : Option String
  pub created_at : ℕ
  pub updated_at : ℕ

pub record IdempotencyKey : Type 0 where
  pub id : String
  pub business_id : String
  pub idempotency_key : String
  pub invoice_id : String
  pub request_hash : String
  pub payment_attempt_id : Option String
  pub created_at : ℕ

pub data WebhookEventStatus : Type 0 where
  pending processed failed : WebhookEventStatus

abbrev pub is_processed : WebhookEventStatus → Bool
is_processed WebhookEventStatus.processed = true
is_processed _ = false

abbrev pub is_unprocessed : WebhookEventStatus → Bool
is_unprocessed WebhookEventStatus.pending = true
is_unprocessed _ = false

pub record WebhookEvent : Type 0 where
  pub id : String
  pub event_id : String
  pub event_type : String
  pub payload : String
  pub status : WebhookEventStatus
  pub created_at : ℕ
  pub processed_at : Option ℕ

pub data OutboundEventStatus : Type 0 where
  pending delivering delivered failed : OutboundEventStatus

abbrev pub is_due_status : OutboundEventStatus → Bool
is_due_status OutboundEventStatus.pending = true
is_due_status _ = false

abbrev pub event_type_payment_succeeded : String
event_type_payment_succeeded = "payment.succeeded"

abbrev pub event_type_payment_failed : String
event_type_payment_failed = "payment.failed"

-- The map that `enqueueOutboundEvent` marshals: "id", "type", and the eight entries of "data".
pub record EventPayload : Type 0 where
  pub id : String
  pub type : String
  pub payment_attempt_id : String
  pub invoice_id : String
  pub business_id : String
  pub amount : ℤ
  pub currency : String
  pub status : PaymentAttemptStatus
  pub psp_transaction_id : Option String
  pub failure_code : Option String

pub record OutboundEvent : Type 0 where
  pub id : String
  pub business_id : String
  pub source_id : String
  pub event_type : String
  pub payload : EventPayload
  pub status : OutboundEventStatus
  pub attempt_count : ℕ
  pub next_retry_at : ℕ
  pub last_error : Option String
  pub created_at : ℕ
  pub delivered_at : Option ℕ

pub record ApiKey : Type 0 where
  pub id : String
  pub business_id : String
  pub name : Option String
  pub key_prefix : String
  pub key_hash : String
  pub created_at : ℕ
  pub last_used_at : Option ℕ
  pub revoked_at : Option ℕ
