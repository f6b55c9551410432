-- ===== src/Stripe/Outcome.antt =====
-- What a tenant may use after a checkout, and after the end of its subscription.
use saa_s_app_be.Prelude.{
  String, ◌==◌, ◌≡◌, ◌⊎◌, refl, ap, ◌∙◌, true, false, Option, none, some, arith, eq_refl, is_empty,
  or_default,
}
use saa_s_app_be.Action.{ok}
use saa_s_app_be.Host.{Host}
use saa_s_app_be.Billing.{
  PlanFeatures, SubscriptionPlan, Catalog, Subscription, fallback_free_limits, find_subscription,
  find_plan,
}
use saa_s_app_be.Billing.Laws.{IsSubscribed, Enforces, caps, plan_enforced, floor_enforced}
use saa_s_app_be.Stripe.Model.{CheckoutSessionPayload, SubscriptionPayload, BillingState, StripeApi}
use saa_s_app_be.Stripe.Repository.{
  upsert_for_tenant, mark_canceled_by_tenant, canceled, set_given, fresh_subscription,
}
use saa_s_app_be.Stripe.Webhook.{
  stripe_unix_to_date, or_else, filled, upsert_input, resolve_tenant_id_from_customer,
  record_checkout, on_checkout_session_completed, record_deletion, on_subscription_deleted,
}
use saa_s_app_be.Stripe.Laws.{resolve_reads}

module _ (host : Host) (api : StripeApi) where
  open host use {mongo}

  module _ (tenant_id price_id : String) (sub : SubscriptionPayload) (plan : SubscriptionPlan)
      (s : BillingState host) where
    -- the catalog with the tenant's subscription as the checkout writes it
    abbrev bought : Catalog host
    bought =
        let input = upsert_input tenant_id plan.name (some price_id) sub in
        record s.catalog {
          subscriptions =
              mongo.upsert tenant_id (fresh_subscription tenant_id) (set_given input)
                s.catalog.subscriptions;
        }

    checkout_catalog :
        find_plan host price_id s.catalog ≡ some plan
        → (record_checkout host api tenant_id price_id sub s).1.catalog ≡ bought
    unfolding record_checkout upsert_for_tenant
    checkout_catalog found = ground arith

    abbrev bought_subscription : Subscription
    bought_subscription = set_given (upsert_input tenant_id plan.name (some price_id) sub) (
        or_default (mongo.find_one tenant_id s.catalog.subscriptions)
          (fresh_subscription tenant_id))

    bought-IsSubscribed :
        (sub.status ≡ "active") ⊎ (sub.status ≡ "trialing")
        → is_empty price_id ≡ false
        → IsSubscribed host tenant_id bought bought_subscription price_id
    unfolding find_subscription
    bought-IsSubscribed active filled_price = record {
      found = ground (
        arith,
        mongo.find-upsert tenant_id tenant_id (fresh_subscription tenant_id)
            (set_given (upsert_input tenant_id plan.name (some price_id) sub))
            s.catalog.subscriptions,
        eq_refl tenant_id,
      );
      active = active;
      priced = refl;
      price_filled = filled_price;
    }

  still_found :
      (price_id tenant_id : String) (sub : SubscriptionPayload) (plan : SubscriptionPlan)
      (s : BillingState host)
      → find_plan host price_id s.catalog ≡ some plan
      → find_plan host price_id (bought tenant_id price_id sub plan s) ≡ some plan
  unfolding find_plan
  still_found price_id tenant_id sub plan s found = found

  checkout_step :
      (session : CheckoutSessionPayload) (tenant_id id price_id : String)
      (sub : SubscriptionPayload)
      → (s : BillingState host) → session.mode ≡ some "subscription"
      → filled session.metadata_tenant_id ≡ some tenant_id
      → filled session.subscription ≡ some id
      → api.retrieve_subscription id ≡ some sub
      → filled sub.first_price_id ≡ some price_id
      → on_checkout_session_completed host api session s
        ≡ record_checkout host api tenant_id price_id sub s
  unfolding on_checkout_session_completed
  checkout_step session tenant_id id price_id sub s mode tenant given retrieved price =
      let is_plan : (or_default session.mode "" == "subscription") ≡ true = rw mode refl in
      let first : or_else (filled session.metadata_tenant_id) (filled session.client_reference_id)
          ≡ some tenant_id =
        ap (λ o. or_else o (filled session.client_reference_id)) tenant in
      ground arith

  filled_text : (o : Option String) (t : String) → filled o ≡ some t → is_empty t ≡ false
  filled_text none t h = absurd (ground arith)
  filled_text (some u) t h = ground arith

  -- When the checkout of a tenant is completed, and Stripe holds its subscription to be active or on
  -- trial, at a price of a catalog plan that sets features, the tenant is held to the caps of that plan.
  pub checkout_enforced :
      (session : CheckoutSessionPayload) (tenant_id id price_id : String)
      (sub : SubscriptionPayload)
      → (plan : SubscriptionPlan) (f : PlanFeatures) (s : BillingState host)
      → session.mode ≡ some "subscription"
      → filled session.metadata_tenant_id ≡ some tenant_id
      → filled session.subscription ≡ some id
      → api.retrieve_subscription id ≡ some sub
      → filled sub.first_price_id ≡ some price_id
      → (sub.status ≡ "active") ⊎ (sub.status ≡ "trialing")
      → find_plan host price_id s.catalog ≡ some plan
      → plan.features ≡ some f
      → Enforces host tenant_id
          (on_checkout_session_completed host api session s).1.catalog
          (caps host f)
  checkout_enforced session tenant_id id price_id sub plan f s mode tenant bought_id retrieved price
        active found features =
      let step =
        checkout_step session tenant_id id price_id sub s mode tenant bought_id retrieved price in
      let after =
        ap (λ r. r.1.catalog) step ∙ checkout_catalog tenant_id price_id sub plan s found in
      let subscribed =
        bought-IsSubscribed tenant_id price_id sub plan s active
          (filled_text sub.first_price_id price_id price) in
      rw after (
        plan_enforced host tenant_id price_id (bought tenant_id price_id sub plan s)
          (bought_subscription tenant_id price_id sub plan s) plan f subscribed
          (still_found price_id tenant_id sub plan s found) features)

  deletion_step :
      (tenant_id : String) (sub : SubscriptionPayload) (s : BillingState host)
      → (resolve_tenant_id_from_customer host api sub.customer s).0 ≡ ok (some tenant_id)
      → on_subscription_deleted host api sub s ≡ record_deletion host api (some tenant_id) sub s
  unfolding on_subscription_deleted
  deletion_step tenant_id sub s resolved =
      let same = resolve_reads host api sub.customer s in rw (resolved, same) refl

  canceled_unsubscribed :
      (tenant_id : String) (sub : SubscriptionPayload) (s : BillingState host) (old : Subscription)
      (price_id : String)
      → IsSubscribed host tenant_id
          (record_deletion host api (some tenant_id) sub s).1.catalog
          old
          price_id
      → ⊥
  unfolding record_deletion mark_canceled_by_tenant find_subscription
  canceled_unsubscribed tenant_id sub s old price_id h =
      let write = canceled sub.customer (stripe_unix_to_date sub.current_period_end) in
      let found = h.found in
      let priced = h.priced in
      ground (
        arith,
        eq_refl tenant_id,
        mongo.find-update_one tenant_id tenant_id (λ sub. true) write s.catalog.subscriptions,
      )

  -- When Stripe ends a subscription whose customer is a tenant's, the tenant is held to the limits of the
  -- free plan.
  pub deletion_enforced :
      (tenant_id : String) (sub : SubscriptionPayload) (s : BillingState host)
      → (resolve_tenant_id_from_customer host api sub.customer s).0 ≡ ok (some tenant_id)
      → Enforces host tenant_id
          (on_subscription_deleted host api sub s).1.catalog
          fallback_free_limits
  deletion_enforced tenant_id sub s resolved =
      let after = ap (λ r. r.1.catalog) (deletion_step tenant_id sub s resolved) in
      rw after (
        floor_enforced host tenant_id (record_deletion host api (some tenant_id) sub s).1.catalog
          (canceled_unsubscribed tenant_id sub s))
