-- ===== src/Tests.antt =====
-- Concrete data, and below it the runs and the theorems at it.
mod Payments
mod Signatures
mod Keys
mod Accounts
mod Deliveries
mod Routes
mod Processor
mod Migrations
use Prim.Native.Char.{code}
use dodo_payment_gateway.Base.{
  ℕ, zero, suc, ◌+◌, ◌*◌, ◌≤◌, ◌<◌, ◌≡◌, ◌≢◌, ◌↔◌, refl, true, false, none, some, [], ◌∷◌, count,
  find, update, arith, nat_eq,
}
use dodo_payment_gateway.Base.Int.{pos}
use dodo_payment_gateway.Base.Decimal.{decimal_ℤ, parse_int}
use dodo_payment_gateway.Model.{
  Business, Customer, Invoice, open_status, paid, PaymentAttempt, PaymentAttemptStatus,
  IdempotencyKey, WebhookEvent, WebhookEventStatus, OutboundEvent, OutboundEventStatus,
}
use dodo_payment_gateway.Errors.{ok, err, idempotency_conflict, invalid_signature}
use dodo_payment_gateway.Store.{
  Env, Outcome, HttpReply, DeliveryReply, ChargeRequest, ChargeResponse, PspWebhookPayload, Db,
  World, ◌>>=◌,
}
use dodo_payment_gateway.Repository.PaymentAttempts
use dodo_payment_gateway.Repository.OutboundEvents
use dodo_payment_gateway.Repository.Invoices
use dodo_payment_gateway.Repository.IdempotencyKeys
use dodo_payment_gateway.Store
use dodo_payment_gateway.Payment.Guards
use dodo_payment_gateway.Payment.Create
use dodo_payment_gateway.Payment.Create.{create_pending_attempt}
use dodo_payment_gateway.Payment.Creation.{Created, create_pending_attempt-Created}
use dodo_payment_gateway.Payment.Settle.{persist_success, persist_failure}
use dodo_payment_gateway.Repository.WebhookEvents
use dodo_payment_gateway.Payment.Reads.{get_payment_attempt-ok_iff}
use dodo_payment_gateway.Payment.PspWebhook.{apply_and_mark, process_psp_webhook}
use dodo_payment_gateway.Payment.History.{Evolves}
use dodo_payment_gateway.Payment.Charges.{SendsOne, pay_invoice-SendsOne}
use dodo_payment_gateway.Payment.Safety.Replay.{pay_invoice-replays, conflict-pay_invoice}
use dodo_payment_gateway.Payment.Outbox.{IsSettled, persist_success-IsSettled}
use dodo_payment_gateway.Payment.LostEvent.{persist_failure_loses_event}
use dodo_payment_gateway.Webhook.Retry.{second, max_attempts, hour, next_retry_at}
use dodo_payment_gateway.Webhook.Retry.Schedule.{due_after, retry_budget}
use dodo_payment_gateway.Webhook.Signature.{verify, sign, replay_window}
use dodo_payment_gateway.Webhook.Signature.Window.{verify-none_iff, verify_far_future}
use dodo_payment_gateway.Payment.Pay.{get_payment_attempt, pay_invoice}
use dodo_payment_gateway.Payment.Invariant.{Inv, is_succeeded_of, is_closed}
use dodo_payment_gateway.Payment.Steps.{Steps, starts}
use dodo_payment_gateway.Payment.Steps.Service.{pay_invoice-Steps, pay_and_receive-Steps}
use dodo_payment_gateway.Payment.Safety.{Steps-Evolves, settlement_sound}

abbrev pub event_body : PspWebhookPayload
event_body = record {
  event_id = "event-1";
  event_type = "charge.succeeded";
  psp_ref = "psp-1";
  idempotency_key = "a";
  status = "succeeded";
  code = "";
}

-- Every statement works, and the provider accepts every charge.
abbrev pub env : Env
env = record {
  uuid = λ n. "a";
  clock = λ n. 0;
  outcome = λ n. Outcome.works;
  transport = λ n req. HttpReply.answered 200 "{}";
  sha256_hex = λ text. text;
  hmac_sha256_hex = λ secret text. text;
  driver_text = λ e. "driver error";
  encode_event = λ payload. payload.id;
  deliver = λ n request. DeliveryReply.answered 200;
  random_hex = λ n. "0123456789abcdef";
  to_upper = λ c. c;
  is_space = λ c. nat_eq (code c) b' ';
  decode_charge = λ text. some (record { status = "succeeded"; psp_ref = "psp-1"; code = "" });
  decode_webhook = λ text. some event_body;
  encode_webhook = λ payload. payload.idempotency_key;
}

abbrev pub business : Business
business = record {
  id = "b";
  name = "Acme";
  webhook_url = none;
  webhook_secret = "whsec";
  created_at = 0;
}

abbrev pub customer : Customer
customer = record {
  id = "c";
  business_id = "b";
  name = "Ann";
  email = "ann@acme.test";
  created_at = 0;
}

abbrev pub open_invoice : Invoice
open_invoice = record {
  id = "i";
  business_id = "b";
  customer_id = "c";
  amount = pos 100;
  currency = "USD";
  status = open_status;
  created_at = 0;
  updated_at = 0;
}

abbrev pub one_invoice : Db
one_invoice = record {
  businesses = business ∷ [];
  customers = customer ∷ [];
  invoices = open_invoice ∷ [];
  payment_attempts = [];
  idempotency_keys = [];
  webhook_events = [];
  outbound_events = [];
  api_keys = [];
}

abbrev pub before : World
before = record { env = env; tick = 0; db = one_invoice; charges = []; deliveries = [] }

abbrev pub paid_once : World
paid_once = (pay_invoice "b" "i" "key-1" "card" before).1

-- An attempt under way, and the same when it has succeeded.
abbrev pub attempt : PaymentAttempt
attempt = record {
  id = "a";
  invoice_id = "i";
  business_id = "b";
  amount = pos 100;
  currency = "USD";
  status = PaymentAttemptStatus.pending;
  psp_transaction_id = none;
  failure_code = none;
  created_at = 0;
  updated_at = 0;
}

abbrev pub settled_attempt : PaymentAttempt
settled_attempt = record attempt {
  status = PaymentAttemptStatus.succeeded;
  psp_transaction_id = some "psp-1";
}

abbrev pub key : IdempotencyKey
key = record {
  id = "k";
  business_id = "b";
  idempotency_key = "key-1";
  invoice_id = "i";
  request_hash = "i\ncard";
  payment_attempt_id = some "a";
  created_at = 0;
}

abbrev pub processed : WebhookEvent
processed = record {
  id = "e";
  event_id = "event-1";
  event_type = "charge.succeeded";
  payload = "{}";
  status = WebhookEventStatus.processed;
  created_at = 0;
  processed_at = some 0;
}

abbrev pub under_way : World
under_way = record before {
  db = record one_invoice { payment_attempts = attempt ∷ []; idempotency_keys = key ∷ [] };
}

abbrev pub settled : World
settled = record before {
  db = record one_invoice {
    invoices = record open_invoice { status = paid } ∷ [];
    payment_attempts = settled_attempt ∷ [];
    idempotency_keys = key ∷ [];
    webhook_events = processed ∷ [];
  };
}

-- The first statement works and the fourth fails.
abbrev pub fourth_fails : ℕ → Outcome
fourth_fails (suc (suc (suc zero))) = Outcome.fails
fourth_fails n = Outcome.works

abbrev pub failing : World
failing = record under_way { env = record env { outcome = fourth_fails } }

-- The first statement fails and the others work.
abbrev pub first_fails : ℕ → Outcome
first_fails zero = Outcome.fails
first_fails n = Outcome.works

abbrev pub losing : World
losing = record under_way { env = record env { outcome = first_fails } }

abbrev pub failed_event : OutboundEvent
failed_event = record {
  id = "event";
  business_id = "b";
  event_type = "payment.failed";
  source_id = "a:payment.failed";
  payload = record {
    id = "event";
    type = "payment.failed";
    payment_attempt_id = "a";
    invoice_id = "i";
    business_id = "b";
    amount = pos 100;
    currency = "USD";
    status = PaymentAttemptStatus.failed;
    psp_transaction_id = none;
    failure_code = some "card_declined";
  };
  status = OutboundEventStatus.failed;
  attempt_count = 8;
  next_retry_at = 0;
  last_error = some "http 500";
  created_at = 0;
  delivered_at = none;
}
