-- ===== src/Stripe/Tests.antt =====
-- Deliveries of Stripe's events for a small tenant.
use saa_s_app_be.Prelude.{String, ◌==◌, ◌≡◌, inl, refl, false, none, some, [], ◌∷◌, if◌then◌else◌}
use saa_s_app_be.Action.{ok}
use saa_s_app_be.Mongo.Memory.{empty}
use saa_s_app_be.Host.{Host}
use saa_s_app_be.Host.Sample.{toy_host, no_config}
use saa_s_app_be.Billing.{PlanFeatures, SubscriptionPlan, fallback_free_limits, find_plan}
use saa_s_app_be.Billing.Laws.{Enforces, caps}
use saa_s_app_be.Stripe.Model.{
  CheckoutSessionPayload, SubscriptionPayload, StripeEvent, BillingState, StripeApi,
}
use saa_s_app_be.Stripe.Webhook.{
  resolve_tenant_id_from_customer, on_checkout_session_completed, on_subscription_deleted,
  handle_event,
}
use saa_s_app_be.Stripe.Laws.{redelivery_ignored}
use saa_s_app_be.Stripe.Outcome.{checkout_enforced, deletion_enforced}

abbrev host : Host
host = toy_host no_config

abbrev team_features : PlanFeatures
team_features = record {
  max_workspaces = some 10;
  max_users = none;
  max_file_assets = some 1000;
  max_storage_mb = some 2048;
  ai_chatbot = none;
}

abbrev team : SubscriptionPlan
team = record { stripe_price_id = "price_1"; name = "Team"; features = some team_features }

abbrev state : BillingState host
state = record {
  catalog = record {
    subscriptions = empty;
    plans = ("p1" ∷ [], λ k. if k == "p1" then some team else none);
  };
  webhook_events = empty;
  emitted = [];
}

abbrev sub : SubscriptionPayload
sub = record {
  id = "sub_1";
  customer = "cus_1";
  status = "active";
  current_period_start = some 1000;
  current_period_end = some 2000;
  cancel_at_period_end = false;
  first_price_id = some "price_1";
}

abbrev session : CheckoutSessionPayload
session = record {
  mode = some "subscription";
  metadata_tenant_id = some "t1";
  client_reference_id = none;
  subscription = some "sub_1";
}

abbrev api : StripeApi
api = record {
  construct_event = λ raw_body signature secret. none;
  retrieve_customer = λ id. some (record { deleted = false; metadata_tenant_id = some "t1" });
  retrieve_subscription = λ id. some sub;
}

abbrev event : StripeEvent
event = record {
  id = "evt_1";
  type_name = "checkout.session.completed";
  session = session;
  subscription = sub;
  invoice = record { id = "in_1"; customer_id = none };
}

abbrev handled : BillingState host
handled = (handle_event host api event state).1

redelivery_ignored_example :
    ((handle_event host api event handled).0 ≡ ok tt)
    × ((handle_event host api event handled).1.catalog ≡ handled.catalog)
    × ((handle_event host api event handled).1.emitted ≡ handled.emitted)
    × ((j : String)
        → host.mongo.find_one j (handle_event host api event handled).1.webhook_events
          ≡ host.mongo.find_one j handled.webhook_events)
redelivery_ignored_example = redelivery_ignored host api event state

team_found : find_plan host "price_1" state.catalog ≡ some team
unfolding find_plan
team_found = refl

checkout_enforced_example :
    Enforces host "t1"
      (on_checkout_session_completed host api session state).1.catalog
      (caps host team_features)
checkout_enforced_example =
    checkout_enforced host api session "t1" "sub_1" "price_1" sub team team_features state refl refl
      refl refl refl (inl refl) team_found refl

customer_resolved : (resolve_tenant_id_from_customer host api sub.customer state).0 ≡ ok (some "t1")
unfolding resolve_tenant_id_from_customer
customer_resolved = refl

deletion_enforced_example :
    Enforces host "t1" (on_subscription_deleted host api sub state).1.catalog fallback_free_limits
deletion_enforced_example = deletion_enforced host api "t1" sub state customer_resolved
