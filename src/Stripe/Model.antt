-- ===== src/Stripe/Model.antt =====
-- The payloads that billing/services/stripe-webhook.service.ts reads, what it keeps and what it emits.
use saa_s_app_be.Prelude.{ℕ, String, Bool, Option, List}
use saa_s_app_be.Host.{Host}
use saa_s_app_be.Billing.{Catalog}

-- `CheckoutSessionPayload`; the subscription is the identifier, given as a text or in an object
pub record CheckoutSessionPayload : Type 0 where
  pub mode : Option String
  pub metadata_tenant_id : Option String
  pub client_reference_id : Option String
  pub subscription : Option String

-- `SubscriptionPayload`; `first_price_id` is `items.data[0]?.price?.id`, and the times are seconds
pub record SubscriptionPayload : Type 0 where
  pub id : String
  pub customer : String
  pub status : String
  pub current_period_start : Option ℕ
  pub current_period_end : Option ℕ
  pub cancel_at_period_end : Bool
  pub first_price_id : Option String

-- `InvoicePayload`, with what `invoiceCustomerId` reads of `customer`
pub record InvoicePayload : Type 0 where
  pub id : String
  pub customer_id : Option String

-- `CustomerPayload`
pub record CustomerPayload : Type 0 where
  pub deleted : Bool
  pub metadata_tenant_id : Option String

-- `StripeWebhookEventLike`; `data.object` as each handler reads it
pub record StripeEvent : Type 0 where
  pub id : String
  pub type_name : String
  pub session : CheckoutSessionPayload
  pub subscription : SubscriptionPayload
  pub invoice : InvoicePayload

-- a document of `stripe_webhook_events`
pub record StripeWebhookEvent : Type 0 where
  pub event_id : String
  pub type_name : String

-- `BillingSubscriptionEventName` with its payloads
pub data BillingEvent : Type 0 where
  checkout_completed :
      (tenant_id stripe_subscription_id : String) (period_end : ℕ) (plan_name : Option String)
      → BillingEvent
  updated :
      (tenant_id stripe_subscription_id : String) (period_end : ℕ) (cancel_at_period_end : Bool)
      → BillingEvent
  ended : (tenant_id stripe_subscription_id : String) → BillingEvent
  invoice_payment_failed invoice_paid : (tenant_id invoice_id : String) → BillingEvent

-- What the service reads and writes; the latest event comes first.
pub record BillingState (host : Host) : Type 0 where
  pub catalog : Catalog host
  pub webhook_events : host.mongo.Coll StripeWebhookEvent
  pub emitted : List BillingEvent

-- Stripe's SDK and servers, as they answer during one delivery; `none` is an exception.
pub record StripeApi : Type 0 where
  -- `webhooks.constructEvent`, which checks the signature
  pub construct_event : (raw_body signature secret : String) → Option StripeEvent
  pub retrieve_customer : (customer_id : String) → Option CustomerPayload
  pub retrieve_subscription : (subscription_id : String) → Option SubscriptionPayload
