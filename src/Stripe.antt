-- ===== src/Stripe.antt =====
-- Stripe's webhooks: billing/services/stripe-webhook.service.ts and what it writes.
pub mod Model
pub mod Repository
pub mod Webhook
pub mod Laws
pub mod Outcome
pub mod Tests
