-- ===== src/Stripe/Laws.antt =====
-- An event of Stripe is handled once.
use saa_s_app_be.Prelude.{
  String, ◌≡◌, refl, inl, inr, true, false, Option, none, some, arith, eq_iff, eq_refl, is_some,
}
use saa_s_app_be.Action.{ok, Result-cases}
use saa_s_app_be.Host.{Host}
use saa_s_app_be.Billing.{Subscription}
use saa_s_app_be.Stripe.Model.{
  CheckoutSessionPayload, SubscriptionPayload, InvoicePayload, StripeEvent, StripeWebhookEvent,
  BillingState, StripeApi,
}
use saa_s_app_be.Stripe.Repository.{
  claim_event, upsert_for_tenant, find_by_stripe_subscription_id, mark_canceled_by_tenant,
}
use saa_s_app_be.Stripe.Webhook.{
  or_else, tenant_of, resolve_tenant_id_from_customer, record_checkout,
  on_checkout_session_completed, record_update, on_subscription_updated, record_deletion,
  on_subscription_deleted, on_invoice_payment_failed, on_invoice_paid, dispatch, handle_event,
}

module _ (host : Host) (api : StripeApi) where
  open host use {mongo}

  abbrev log : BillingState host → mongo.Coll StripeWebhookEvent
  log s = s.webhook_events

  checkout_log :
      (session : CheckoutSessionPayload) (s : BillingState host)
      → log (on_checkout_session_completed host api session s).1 ≡ log s
  unfolding on_checkout_session_completed record_checkout upsert_for_tenant
  checkout_log session s = ground arith

  update_log :
      (existing : Option Subscription) (tenant_id : Option String) (sub : SubscriptionPayload)
      (s : BillingState host)
      → log (record_update host api existing tenant_id sub s).1 ≡ log s
  unfolding record_update upsert_for_tenant
  update_log existing none sub s = refl
  update_log existing (some tenant_id) sub s = ground arith

  pub resolve_reads :
      (customer_id : String) (s : BillingState host)
      → (resolve_tenant_id_from_customer host api customer_id s).1 ≡ s
  unfolding resolve_tenant_id_from_customer
  resolve_reads customer_id s = ground arith

  updated_log :
      (sub : SubscriptionPayload) (s : BillingState host)
      → log (on_subscription_updated host api sub s).1 ≡ log s
  unfolding on_subscription_updated
  updated_log sub s =
      let resolved = resolve_tenant_id_from_customer host api sub.customer s in
      let same = resolve_reads sub.customer s in
      elim (Result-cases resolved.0) [
        | inr (e, failed) ↦ ground arith
        | inl (tenant_id, fine) ↦
            let existing = find_by_stripe_subscription_id host sub.id s in
            ground (arith, update_log existing (or_else tenant_id (tenant_of existing)) sub s)
      ]

  deleted_log :
      (sub : SubscriptionPayload) (s : BillingState host)
      → log (on_subscription_deleted host api sub s).1 ≡ log s
  unfolding on_subscription_deleted resolve_tenant_id_from_customer record_deletion
      mark_canceled_by_tenant
  deleted_log sub s = ground arith

  failed_log :
      (invoice : InvoicePayload) (s : BillingState host)
      → log (on_invoice_payment_failed host api invoice s).1 ≡ log s
  unfolding on_invoice_payment_failed resolve_tenant_id_from_customer
  failed_log invoice s = ground arith

  paid_log :
      (invoice : InvoicePayload) (s : BillingState host)
      → log (on_invoice_paid host api invoice s).1 ≡ log s
  unfolding on_invoice_paid resolve_tenant_id_from_customer
  paid_log invoice s = ground arith

  -- No handler touches the events that are claimed.
  log-dispatch :
      (event : StripeEvent) (s : BillingState host) → log (dispatch host api event s).1 ≡ log s
  unfolding dispatch
  log-dispatch event s = ground (
    arith,
    checkout_log event.session s,
    updated_log event.subscription s,
    deleted_log event.subscription s,
    failed_log event.invoice s,
    paid_log event.invoice s,
  )

  claimed :
      (event : StripeEvent) (s : BillingState host)
      → is_some (mongo.find_one event.id (log (handle_event host api event s).1)) ≡ true
  unfolding handle_event claim_event
  claimed event s =
      let row : StripeWebhookEvent = record { event_id = event.id; type_name = event.type_name } in
      let taken : BillingState host = record s {
        webhook_events = (mongo.insert event.id row s.webhook_events).0;
      } in
      ground (
        arith,
        log-dispatch event taken,
        mongo.find-insert event.id event.id row s.webhook_events,
        eq_refl event.id,
      )

  module _ (event : StripeEvent) (s : BillingState host) where
    abbrev row : StripeWebhookEvent
    row = record { event_id = event.id; type_name = event.type_name }

    claimed_ignored :
        is_some (mongo.find_one event.id (log s)) ≡ true
        → ((handle_event host api event s).0 ≡ ok tt)
          × ((handle_event host api event s).1.catalog ≡ s.catalog)
          × ((handle_event host api event s).1.emitted ≡ s.emitted)
    unfolding handle_event claim_event
    claimed_ignored h =
        let lost : (mongo.insert event.id row s.webhook_events).1 ≡ false =
          ground (arith, mongo.insert_done event.id row s.webhook_events) in
        (ground arith, ground arith, ground arith)

    claimed_log :
        (j : String)
        → is_some (mongo.find_one event.id (log s)) ≡ true
        → mongo.find_one j (log (handle_event host api event s).1) ≡ mongo.find_one j (log s)
    unfolding handle_event claim_event
    claimed_log j h = ground (
      arith,
      mongo.insert_done event.id row s.webhook_events,
      mongo.find-insert j event.id row s.webhook_events,
      eq_iff event.id j,
    )

  -- An event that is delivered again changes nothing: it is acknowledged, and whatever its first
  -- handling did or failed to do stays as it is.
  pub redelivery_ignored :
      (event : StripeEvent) (s : BillingState host)
      → let t = (handle_event host api event s).1 in
        let again = handle_event host api event t in
        (again.0 ≡ ok tt)
        × (again.1.catalog ≡ t.catalog)
        × (again.1.emitted ≡ t.emitted)
        × ((j : String) → mongo.find_one j (log again.1) ≡ mongo.find_one j (log t))
  redelivery_ignored event s =
      let t = (handle_event host api event s).1 in
      let (answer, catalog, emitted) = claimed_ignored event t (claimed event s) in
      (answer, catalog, emitted, λ j. claimed_log event t j (claimed event s))
