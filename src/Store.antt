-- ===== src/Store.antt =====
-- The world that the services act on: the database behind pgx, the clock, uuid.New, the wire to
-- the payment provider, and the calls made on it.
--
-- `Env` holds what is not the program's: it is a parameter of every run, read at a tick that each
-- effect advances. The n-th statement sent to the database may fail, or may take effect and lose
-- its acknowledgement. A transaction keeps its changes only if its body returns and its commit
-- takes effect.
pub mod Laws
pub mod Keeps
use Prim.Native.Char.{Char}
use dodo_payment_gateway.Base.{
  ℕ, suc, String, Bool, true, false, Option, none, some, List, [], ◌∷◌, ◌++◌,
}
use dodo_payment_gateway.Base.Int.{ℤ}
use dodo_payment_gateway.Model.{
  Business, Customer, Invoice, PaymentAttempt, IdempotencyKey, WebhookEvent, EventPayload,
  OutboundEvent, ApiKey,
}
use dodo_payment_gateway.Errors.{Error, connection_lost, no_rows, Result, ok, err}

pub record Db : Type 0 where
  pub businesses : List Business
  pub customers : List Customer
  pub invoices : List Invoice
  pub payment_attempts : List PaymentAttempt
  pub idempotency_keys : List IdempotencyKey
  pub webhook_events : List WebhookEvent
  pub outbound_events : List OutboundEvent
  pub api_keys : List ApiKey

-- What becomes of one statement.
pub data Outcome : Type 0 where
  works fails unacknowledged : Outcome

pub record ChargeRequest : Type 0 where
  pub amount : ℤ
  pub currency : String
  pub card_token : String
  pub idempotency_key : String

-- `http.Client.Do` and the body that it reads: the request could not be built, no answer in time,
-- no connection, or a status and a body.
pub data HttpReply : Type 0 where
  not_built : String → HttpReply
  timed_out disconnected : HttpReply
  answered : ℕ → String → HttpReply

pub record ChargeResponse : Type 0 where
  pub status : String
  pub psp_ref : String
  pub code : String

pub record PspWebhookPayload : Type 0 where
  pub event_id : String
  pub event_type : String
  pub psp_ref : String
  pub idempotency_key : String
  pub status : String
  pub code : String

-- A POST to a business's endpoint: what the headers Webhook-Id, Webhook-Timestamp and
-- Webhook-Signature say, and the body.
pub record Delivery : Type 0 where
  pub url : String
  pub id : String
  pub timestamp : String
  pub signature : String
  pub body : String

-- The request could not be built, `Do` failed, each with the text of the error, or a status.
pub data DeliveryReply : Type 0 where
  not_built failed : String → DeliveryReply
  answered : ℕ → DeliveryReply

pub record Env : Type 0 where
  pub uuid : ℕ → String
  pub clock : ℕ → ℕ
  pub outcome : ℕ → Outcome
  pub transport : ℕ → ChargeRequest → HttpReply
  pub sha256_hex : String → String
  pub hmac_sha256_hex : String → String → String
  -- the text of an error that pgx or the connection made
  pub driver_text : Error → String
  -- the bytes of a JSON column
  pub encode_event : EventPayload → String
  pub deliver : ℕ → Delivery → DeliveryReply
  -- 32 bytes of crypto/rand in hex; reading them cannot fail
  pub random_hex : ℕ → String
  -- unicode.ToUpper and unicode.IsSpace
  pub to_upper : Char → Char
  pub is_space : Char → Bool
  pub decode_charge : String → Option ChargeResponse
  pub decode_webhook : String → Option PspWebhookPayload
  -- the processor's json.Marshal of a map of texts, which cannot fail
  pub encode_webhook : PspWebhookPayload → String

pub record World : Type 0 where
  pub env : Env
  pub tick : ℕ
  pub db : Db
  -- the requests sent to the provider, oldest first
  pub charges : List ChargeRequest
  -- the requests sent to businesses with their replies, oldest first
  pub deliveries : List (Delivery × DeliveryReply)

abbrev pub M : Type 0 → Type 0
M A = World → Result A × World

module _ {A : Type 0} where
  unfoldable pub pure : A → M A
  pure a w = (ok a, w)

  unfoldable pub raise : Error → M A
  raise e w = (err e, w)

  -- Hand an error over as a value, as a call that inspects `err` does.
  unfoldable pub try : M A → M (Result A)
  try m w = let (r, w') = m w in (ok r, w')

  unfoldable pub or_no_rows : Option A → Result A
  or_no_rows none = err no_rows
  or_no_rows (some a) = ok a

  after_statement : Outcome → World → Result A × Db → Result A × World
  after_statement Outcome.works w (r, d) = (r, record w { db = d; tick = suc w.tick })
  after_statement Outcome.fails w _ = (err connection_lost, record w { tick = suc w.tick })
  after_statement Outcome.unacknowledged w (_, d) =
      (err connection_lost, record w { db = d; tick = suc w.tick })

  -- One statement outside or inside a transaction. It is given NOW().
  unfoldable pub statement : (ℕ → Db → Result A × Db) → M A
  unfolding after_statement
  statement q w = after_statement (w.env.outcome w.tick) w (q (w.env.clock w.tick) w.db)

  -- Rollback after an error; else COMMIT, whose outcome is given.
  commit : Outcome → Db → Result A × World → Result A × World
  commit _ before (err e, w) = (err e, record w { db = before })
  commit Outcome.works before (ok a, w) = (ok a, record w { tick = suc w.tick })
  commit Outcome.fails before (ok a, w) =
      (err connection_lost, record w { db = before; tick = suc w.tick })
  commit Outcome.unacknowledged before (ok a, w) =
      (err connection_lost, record w { tick = suc w.tick })

  begin : Outcome → World → M A → Result A × World
  unfolding commit
  begin Outcome.works w body =
      let (r, w') = body (record w { tick = suc w.tick }) in
      commit (w'.env.outcome w'.tick) w.db (r, w')
  begin _ w body = (err connection_lost, record w { tick = suc w.tick })

  -- `db.Begin`, the body on the transaction's repositories, and `tx.Commit`, with the deferred
  -- `tx.Rollback`.
  unfoldable pub transaction : M A → M A
  unfolding begin
  transaction body w = begin (w.env.outcome w.tick) w body

abbrev pub continue : {A B : Type 0} → (A → M B) → Result A × World → Result B × World
continue f (ok a, w) = f a w
continue f (err e, w) = (err e, w)

infixl 5 ◌>>=◌ ◌>>◌
-- opening this opens the other ways to build an action too
unfoldable pub ◌>>=◌ : {A B : Type 0} → M A → (A → M B) → M B
unfolding pure raise try
◌>>=◌ m f w = continue f (m w)

abbrev pub ◌>>◌ : {A B : Type 0} → M A → M B → M B
m >> k = m >>= λ _. k

-- `uuid.New().String()`
unfoldable pub new_uuid : M String
new_uuid w = (ok (w.env.uuid w.tick), record w { tick = suc w.tick })

-- 32 random bytes in hex.
unfoldable pub new_random : M String
new_random w = (ok (w.env.random_hex w.tick), record w { tick = suc w.tick })

-- `time.Now()`
unfoldable pub time_now : M ℕ
time_now w = (ok (w.env.clock w.tick), record w { tick = suc w.tick })

-- A pure function of the environment: a hash or a decoder.
unfoldable pub asks : {A : Type 0} → (Env → A) → M A
asks f w = (ok (f w.env), w)
