-- ===== src/Lib.antt =====
-- Payment gateway: businesses issue invoices, pay them through a card processor, and are told of
-- the outcome by webhooks (DESIGN.md).
--
-- Model.antt has the records and statuses of internal/model. Store.antt has the world that the
-- services act on: the tables of migrations/ as lists of rows in the order of insertion, the
-- requests sent to the processor and to businesses, and what is not the program's, as the parameter
-- `Env`: the clock, uuid.New, crypto/rand, SHA-256 and HMAC in hex, JSON, unicode.IsSpace and
-- unicode.ToUpper, the texts of driver errors, their answers, and the fate of each statement (it
-- works, it fails, or it takes effect and its acknowledgement is lost). A `tick`, advanced by every
-- effect, says which effect is meant. A transaction is one step: its changes are there if its body
-- returns and its commit takes effect, and it runs isolated, which is how the row lock of `SELECT
-- ... FOR UPDATE` is used.
--
-- Repository/ has a file for each table of internal/repository, with the constraints and unique
-- indexes that the migrations give it: Businesses, Customers, Invoices, PaymentAttempts,
-- IdempotencyKeys, WebhookEvents, OutboundEvents and ApiKeys. A `_query` is the statement as a
-- function on the database, beside the operation; that of ListByBusiness always fails, since it
-- compares a uuid with a text. Psp.antt is internal/psp (HTTPClient.Charge,
-- IsUnknownOutcome). Webhook/Retry.antt and Webhook/Signature.antt are internal/webhook; a Duration
-- is a number of nanoseconds with the bounds of an int64.
--
-- Payment/ is internal/service/payment_service.go: Guards (payableInvoice, hashPayRequest), Create
-- (createPendingAttempt), Settle (chargeAndSettle, persistSuccess, persistFailure,
-- enqueueOutboundEvent), Pay (PayInvoice, replayIdempotentPay, GetPaymentAttempt) and PspWebhook
-- (ProcessPSPWebhook, applyWebhook). The rest of Payment/ is about them: Steps says what sequences
-- of database steps any number of calls can make together, Invariant and History what such steps
-- preserve, Safety puts these together, Creation, Charges, Outbox, LostEvent and Webhooks are
-- about single calls, Webhooks/Accepted about what is let in, Webhooks/Done about what is left of
-- an event, and Webhooks/Repeated about a second delivery. Runs and Frame carry a property through
-- the code of a call. Nothing recurses but over lists and texts, except for the decimal notation
-- of a number n, which has fuel n + 1, one for each digit at most.
--
-- Worker.antt is internal/worker/webhook_dispatcher.go (Run, DeliverDue, deliverOne,
-- recordFailure); the requests that it sends are a log of the world, with their answers. The files
-- of Worker/ are about it: Claims (ClaimDue), Resolution (what becomes of one event), Settled (of
-- all that are claimed), Signed (what a request holds), Posts (what is sent), Verified (that it
-- verifies), Budget (how often an event is tried), Ticks (the loop of Run) and Stuck (what is
-- lost).
--
-- Keys.antt is internal/service/api_key_service.go and Auth.antt internal/middleware/auth.go.
-- Keys/Steps says what statements any number of their calls can make together, Keys/Service that
-- the calls make no others, Keys/Issue, Keys/Bootstrap and Keys/Access what a new key is good for,
-- Keys/Revoked when it ends (with Keys/Spent), and Auth/Header and Auth/Access which requests pass.
-- Accounts.antt is business_service.go, customer_service.go and invoice_service.go of
-- internal/service, and Endpoints.antt webhook_service.go; the files below them say what each call
-- leaves behind when it returns.
--
-- Handlers.antt and the files below it are internal/handler with internal/httperr, from a bound
-- request to a status with a value or a text; Handlers/Routes has the routes of cmd/server/main.go
-- behind their middleware, and Handlers/Access says who gets through.
--
-- MockPsp.antt is cmd/mock-psp/main.go: its cache of idempotency keys as a map to the charges that
-- own the entries, with handleCharge, completeCharge and failUncached as functions on it.
-- MockPsp/Steps has the sequences that any number of handlers make, MockPsp/Cache and
-- MockPsp/Release the invariant of the cache, MockPsp/Once, MockPsp/Kept and MockPsp/Replay what it
-- means for a key. MockPsp/Notify is notifyWebhook, MockPsp/Notify/Attempts is about its posts, and
-- MockPsp/Notify/Received about what they do at the gateway, with Payment/Succeeds and
-- Payment/Settled for what a success leaves there while the database works. Settings.antt has what
-- the two main functions take from the environment.
--
-- Migrations.antt is internal/database/migrate.go; the database is the list of the scripts that
-- were committed, beside the names that are recorded. Migrations/Loop is about every statement
-- whatever fails, Migrations/Works about a server that works, Migrations/Sorted about the order of
-- the files, and Migrations/Exact, Migrations/Once, Migrations/Done and Migrations/Again about
-- whole runs.
--
-- Not modelled: gin's binding and encoding of JSON, the start of the two processes and their
-- connections; logging; cancellation, other than as the failure of a statement or of a request.
-- Only one run of the migrations at a time is modelled.
pub mod Base
pub mod Model
pub mod Errors
pub mod Store
pub mod Repository
pub mod Webhook
pub mod Psp
pub mod Payment
pub mod Worker
pub mod Keys
pub mod Auth
pub mod Accounts
pub mod Endpoints
pub mod Handlers
pub mod MockPsp
pub mod Migrations
pub mod Settings
pub mod Tests
