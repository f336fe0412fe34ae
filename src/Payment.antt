-- ===== src/Payment.antt =====
-- internal/service/payment_service.go: paying an invoice, settling the attempt, and the webhooks of
-- the card processor. The repositories that the struct holds are those of the one database; its
-- field `pspWebhookSecret` is an argument of the webhook.
--
-- A function that writes through `attempt *PaymentAttempt` returns the attempt. What runs between
-- `db.Begin` and `tx.Commit` is the body of a `transaction`.
pub mod Guards
pub mod Settle
pub mod Create
pub mod Pay
pub mod PspWebhook
pub mod Frame
pub mod Creation
pub mod History
pub mod Invariant
pub mod Runs
pub mod Steps
pub mod Safety
pub mod Charges
pub mod Outbox
pub mod LostEvent
pub mod Webhooks
pub mod Reads
pub mod Succeeds
pub mod Settled
