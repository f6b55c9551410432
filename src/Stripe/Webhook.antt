-- ===== src/Stripe/Webhook.antt =====
-- billing/services/stripe-webhook.service.ts.
use saa_s_app_be.Prelude.{
  ℕ, ◌*◌, String, ◌==◌, Option, none, some, ◌∷◌, leb, is_filled, or_default, if◌then◌else◌,
}
use saa_s_app_be.Action.{
  Action, ok, plain, text, Exception, pure, gets, modify, or_throw, ◌>>=◌, ◌>>◌,
}
use saa_s_app_be.Host.{Host}
use saa_s_app_be.Billing.{Subscription, SubscriptionPlan, find_plan}
use saa_s_app_be.Stripe.Model.{
  CheckoutSessionPayload, SubscriptionPayload, InvoicePayload, CustomerPayload, StripeEvent,
  BillingEvent, BillingState, StripeApi,
}
use saa_s_app_be.Stripe.Repository.{
  UpsertInput, claim_event, upsert_for_tenant, find_by_stripe_subscription_id,
  mark_canceled_by_tenant,
}

-- `stripeUnixToDate`: a time value beyond 8.64e15 milliseconds is no date
unfoldable pub stripe_unix_to_date : Option ℕ → Option ℕ
stripe_unix_to_date none = none
stripe_unix_to_date (some seconds) =
    if leb (seconds * 1000) 8640000000000000 then some (seconds * 1000) else none

-- a text when it is not empty
abbrev pub filled : Option String → Option String
filled o = if is_filled o then o else none

-- `a ?? b` and `a || b`
abbrev pub or_else : {A : Type 0} → Option A → Option A → Option A
or_else none b = b
or_else (some a) b = some a

-- the rejection of a call of Stripe
abbrev pub stripe_error : Exception
stripe_error = Exception.remote (text "Stripe")

abbrev plan_name : Option SubscriptionPlan → Option String
plan_name none = none
plan_name (some plan) = some plan.name

abbrev period_end_of : Option Subscription → Option ℕ
period_end_of none = none
period_end_of (some sub) = sub.current_period_end

abbrev plan_key_of : Option Subscription → String
plan_key_of none = ""
plan_key_of (some sub) = or_default sub.plan_key ""

abbrev pub tenant_of : Option Subscription → Option String
tenant_of none = none
tenant_of (some sub) = some sub.tenant_id

abbrev live_tenant : CustomerPayload → Option String
live_tenant customer = if customer.deleted then none else filled customer.metadata_tenant_id

-- what `upsertForTenant` is given of a subscription of Stripe
abbrev pub upsert_input :
    (tenant_id plan_key : String) → (price_id : Option String) → SubscriptionPayload → UpsertInput
upsert_input tenant_id plan_key price_id sub = record {
  tenant_id = tenant_id;
  plan_key = some plan_key;
  status = sub.status;
  stripe_customer_id = some sub.customer;
  stripe_subscription_id = some sub.id;
  stripe_price_id = price_id;
  current_period_start = stripe_unix_to_date sub.current_period_start;
  current_period_end = stripe_unix_to_date sub.current_period_end;
  cancel_at_period_end = some sub.cancel_at_period_end;
}

module _ (host : Host) (api : StripeApi) where
  open api use {construct_event, retrieve_customer, retrieve_subscription}

  abbrev emit : BillingEvent → Action (BillingState host) Unit
  emit event = modify (λ s. record s { emitted = event ∷ s.emitted })

  unfoldable pub resolve_tenant_id_from_customer :
      (customer_id : String) → Action (BillingState host) (Option String)
  resolve_tenant_id_from_customer customer_id = do
    customer ← or_throw (retrieve_customer customer_id) stripe_error
    pure (live_tenant customer)

  -- `findByStripePriceIdIncludingArchived` of a price that may be missing
  abbrev plan_of : Option String → BillingState host → Option SubscriptionPlan
  plan_of none s = none
  plan_of (some price_id) s = find_plan host price_id s.catalog

  abbrev announce_checkout :
      (tenant_id subscription_id : String)
      → (period_end : Option ℕ) → (plan : Option String) → Action (BillingState host) Unit
  announce_checkout tenant_id subscription_id none plan = pure tt
  announce_checkout tenant_id subscription_id (some period_end) plan =
      emit (BillingEvent.checkout_completed tenant_id subscription_id period_end plan)

  -- `onCheckoutSessionCompleted` behind its checks
  unfoldable pub record_checkout :
      (tenant_id price_id : String) → SubscriptionPayload → Action (BillingState host) Unit
  record_checkout tenant_id price_id sub = do
    plan ← gets (plan_of (some price_id))
    updated ←
        upsert_for_tenant host
          (upsert_input tenant_id (or_default (plan_name plan) price_id) (some price_id) sub)
    announce_checkout tenant_id sub.id
        (or_else (stripe_unix_to_date sub.current_period_end) updated.current_period_end)
        (plan_name plan)

  abbrev checkout_subscription :
      (tenant_id : String) → Option String → Action (BillingState host) Unit
  checkout_subscription tenant_id none = pure tt
  checkout_subscription tenant_id (some subscription_id) = do
    sub ← or_throw (retrieve_subscription subscription_id) stripe_error
    elim (filled sub.first_price_id) [
      | none ↦ pure tt
      | some price_id ↦ record_checkout tenant_id price_id sub
    ]

  abbrev checkout_tenant : Option String → Option String → Action (BillingState host) Unit
  checkout_tenant none subscription = pure tt
  checkout_tenant (some tenant_id) subscription =
      checkout_subscription tenant_id (filled subscription)

  unfoldable pub on_checkout_session_completed :
      CheckoutSessionPayload → Action (BillingState host) Unit
  on_checkout_session_completed session =
      if or_default session.mode "" == "subscription"
      then checkout_tenant
          (or_else (filled session.metadata_tenant_id) (filled session.client_reference_id))
          session.subscription
      else pure tt

  abbrev announce_update :
      (tenant_id : String)
      → SubscriptionPayload
      → (period_end : Option ℕ) → Action (BillingState host) Unit
  announce_update tenant_id sub none = pure tt
  announce_update tenant_id sub (some period_end) =
      emit (BillingEvent.updated tenant_id sub.id period_end sub.cancel_at_period_end)

  -- `onSubscriptionUpdated` behind the search for the tenant
  unfoldable pub record_update :
      Option Subscription → Option String → SubscriptionPayload → Action (BillingState host) Unit
  record_update existing none sub = pure tt
  record_update existing (some tenant_id) sub = do
    let price_id = filled sub.first_price_id
    plan ← gets (plan_of price_id)
    updated ← upsert_for_tenant host (
        upsert_input tenant_id
          (or_default (plan_name plan) (or_default price_id (plan_key_of existing))) price_id sub)
    announce_update tenant_id sub (
        or_else (stripe_unix_to_date sub.current_period_end)
          (or_else updated.current_period_end (period_end_of existing)))

  unfoldable pub on_subscription_updated : SubscriptionPayload → Action (BillingState host) Unit
  on_subscription_updated sub = do
    tenant_id ← resolve_tenant_id_from_customer sub.customer
    existing ← gets (find_by_stripe_subscription_id host sub.id)
    record_update existing (or_else tenant_id (tenant_of existing)) sub

  unfoldable pub record_deletion :
      Option String → SubscriptionPayload → Action (BillingState host) Unit
  record_deletion none sub = pure tt
  record_deletion (some tenant_id) sub = do
    mark_canceled_by_tenant host tenant_id sub.customer (stripe_unix_to_date sub.current_period_end)
    emit (BillingEvent.ended tenant_id sub.id)

  unfoldable pub on_subscription_deleted : SubscriptionPayload → Action (BillingState host) Unit
  on_subscription_deleted sub = do
    tenant_id ← resolve_tenant_id_from_customer sub.customer
    existing ← gets (find_by_stripe_subscription_id host sub.id)
    record_deletion (or_else tenant_id (tenant_of existing)) sub

  abbrev tell_tenant : (String → BillingEvent) → Option String → Action (BillingState host) Unit
  tell_tenant event none = pure tt
  tell_tenant event (some tenant_id) = emit (event tenant_id)

  abbrev tell_customer : (String → BillingEvent) → Option String → Action (BillingState host) Unit
  tell_customer event none = pure tt
  tell_customer event (some customer_id) = do
    tenant_id ← resolve_tenant_id_from_customer customer_id
    tell_tenant event tenant_id

  unfoldable pub on_invoice_payment_failed : InvoicePayload → Action (BillingState host) Unit
  on_invoice_payment_failed invoice =
      tell_customer (λ t. BillingEvent.invoice_payment_failed t invoice.id)
        (filled invoice.customer_id)

  unfoldable pub on_invoice_paid : InvoicePayload → Action (BillingState host) Unit
  on_invoice_paid invoice =
      tell_customer (λ t. BillingEvent.invoice_paid t invoice.id) (filled invoice.customer_id)

  unfoldable pub dispatch : StripeEvent → Action (BillingState host) Unit
  dispatch event =
      if event.type_name == "checkout.session.completed"
      then on_checkout_session_completed event.session
      else if event.type_name == "customer.subscription.updated"
      then on_subscription_updated event.subscription
      else if event.type_name == "customer.subscription.deleted"
      then on_subscription_deleted event.subscription
      else if event.type_name == "invoice.payment_failed"
      then on_invoice_payment_failed event.invoice
      else if event.type_name == "invoice.paid"
      then on_invoice_paid event.invoice
      else pure tt

  -- `try { await this.dispatch(event) } catch { log }`
  abbrev caught : Action (BillingState host) Unit → Action (BillingState host) Unit
  caught m s = (ok tt, (m s).1)

  -- `handleRawEvent` once the event is read
  unfoldable pub handle_event : StripeEvent → Action (BillingState host) Unit
  handle_event event = do
    owns ← claim_event host event.id event.type_name
    if owns then caught (dispatch event) else pure tt

  unfoldable pub handle_raw_event :
      (signature raw_body webhook_secret : Option String) → Action (BillingState host) Unit
  handle_raw_event signature raw_body webhook_secret = do
    given_signature ← or_throw (filled signature) (plain (text "Missing stripe-signature header"))
    body ← or_throw (filled raw_body) (plain (text "Missing raw webhook body"))
    secret ← or_throw webhook_secret (plain (text "STRIPE_WEBHOOK_SECRET"))
    event ← or_throw (construct_event body given_signature secret) stripe_error
    handle_event event
