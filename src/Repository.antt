-- ===== src/Repository.antt =====
-- internal/repository: one module for each table, each function one statement. A WHERE clause is a
-- Boolean test on rows; INSERT checks the constraints of migrations/ and leaves the table alone
-- when one fails; created_at and updated_at are NOW().
pub mod Invoices
pub mod PaymentAttempts
pub mod IdempotencyKeys
pub mod WebhookEvents
pub mod OutboundEvents
pub mod Businesses
pub mod Customers
pub mod ApiKeys
