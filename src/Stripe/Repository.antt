-- ===== src/Stripe/Repository.antt =====
-- billing/repositories/stripe-webhook-event.repository.ts, and the writes of
-- billing/repositories/subscription.repository.ts.
use saa_s_app_be.Prelude.{ℕ, String, ◌==◌, Bool, true, false, Option, none, some, or_default}
use saa_s_app_be.Action.{Action, ok}
use saa_s_app_be.Host.{Host}
use saa_s_app_be.Billing.{Subscription, Catalog}
use saa_s_app_be.Stripe.Model.{BillingState}

-- `UpsertTenantStripeSubscriptionInput`
pub record UpsertInput : Type 0 where
  pub tenant_id : String
  pub plan_key : Option String
  pub status : String
  pub stripe_customer_id : Option String
  pub stripe_subscription_id : Option String
  pub stripe_price_id : Option String
  pub current_period_start : Option ℕ
  pub current_period_end : Option ℕ
  pub cancel_at_period_end : Option Bool

abbrev first_given : {A : Type 0} → Option A → Option A → Option A
first_given none old = old
first_given (some a) old = some a

-- the `$set` of `upsertForTenant`, which leaves out what is undefined
abbrev pub set_given : UpsertInput → Subscription → Subscription
set_given input sub = record sub {
  tenant_id = input.tenant_id;
  status = input.status;
  plan_key = first_given input.plan_key sub.plan_key;
  stripe_customer_id = first_given input.stripe_customer_id sub.stripe_customer_id;
  stripe_subscription_id = first_given input.stripe_subscription_id sub.stripe_subscription_id;
  stripe_price_id = first_given input.stripe_price_id sub.stripe_price_id;
  current_period_start = first_given input.current_period_start sub.current_period_start;
  current_period_end = first_given input.current_period_end sub.current_period_end;
  cancel_at_period_end = first_given input.cancel_at_period_end sub.cancel_at_period_end;
}

-- the defaults of the schema, for `setDefaultsOnInsert`
abbrev pub fresh_subscription : (tenant_id : String) → Subscription
fresh_subscription tenant_id = record {
  tenant_id = tenant_id;
  plan_key = some "";
  status = "inactive";
  stripe_price_id = none;
  stripe_customer_id = none;
  stripe_subscription_id = none;
  current_period_start = none;
  current_period_end = none;
  cancel_at_period_end = some false;
}

-- the `$set` and the `$unset` of `markCanceledByTenant`
abbrev pub canceled :
    (stripe_customer_id : String) → (period_end : Option ℕ) → Subscription → Subscription
canceled stripe_customer_id period_end sub = record sub {
  status = "canceled";
  stripe_customer_id = some stripe_customer_id;
  cancel_at_period_end = some false;
  current_period_end = first_given period_end sub.current_period_end;
  stripe_subscription_id = none;
  stripe_price_id = none;
}

abbrev any_subscription : Subscription → Bool
any_subscription sub = true

abbrev is_text : String → Option String → Bool
is_text s none = false
is_text s (some t) = t == s

abbrev has_stripe_id : String → Subscription → Bool
has_stripe_id id sub = is_text id sub.stripe_subscription_id

module _ (host : Host) where
  open host use {mongo}
  open mongo use {find_one, find_where, insert, update_one, upsert}

  -- `claimEvent`: whether this delivery owns the event
  unfoldable pub claim_event : (event_id type_name : String) → Action (BillingState host) Bool
  claim_event event_id type_name s =
      let (c, won) =
        insert event_id (record { event_id = event_id; type_name = type_name }) s.webhook_events in
      (ok won, record s { webhook_events = c })

  abbrev write : (Catalog host → Catalog host) → BillingState host → BillingState host
  write f s = record s { catalog = f s.catalog }

  -- `upsertForTenant`, which returns the document after the write
  unfoldable pub upsert_for_tenant : UpsertInput → Action (BillingState host) Subscription
  upsert_for_tenant input s = (
    ok (
        set_given input (
          or_default (find_one input.tenant_id s.catalog.subscriptions)
            (fresh_subscription input.tenant_id))),
    write
        (λ c. record c {
          subscriptions =
              upsert input.tenant_id (fresh_subscription input.tenant_id) (set_given input)
                c.subscriptions;
        })
        s,
  )

  -- `findByStripeSubscriptionId`
  unfoldable pub find_by_stripe_subscription_id : String → BillingState host → Option Subscription
  find_by_stripe_subscription_id id s = find_where (has_stripe_id id) s.catalog.subscriptions

  unfoldable pub mark_canceled_by_tenant :
      (tenant_id stripe_customer_id : String)
      → (period_end : Option ℕ) → Action (BillingState host) Unit
  mark_canceled_by_tenant tenant_id stripe_customer_id period_end s = (
    ok tt,
    write
        (λ c. record c {
          subscriptions =
              (update_one tenant_id any_subscription (canceled stripe_customer_id period_end)
                c.subscriptions).0;
        })
        s,
  )
