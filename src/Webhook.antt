-- ===== src/Webhook.antt =====
-- internal/webhook: the signature of a webhook, and the schedule of deliveries.
pub mod Signature
pub mod Retry
