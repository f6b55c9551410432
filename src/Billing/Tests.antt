-- ===== src/Billing/Tests.antt =====
-- Runs of the entitlement checks on a small catalog.
use saa_s_app_be.Prelude.{String, ◌≡◌, ◌↔◌, inl, refl, ◌==◌, none, some, [], ◌∷◌, if◌then◌else◌}
use saa_s_app_be.Action.{ok}
use saa_s_app_be.Mongo.Memory.{empty}
use saa_s_app_be.Host.{Host}
use saa_s_app_be.Host.Sample.{toy_host, no_config}
use saa_s_app_be.Billing.{
  PlanFeatures, SubscriptionPlan, Subscription, Catalog, fallback_free_limits, find_subscription,
  find_plan, assert_tenant_has_ai_chatbot_access,
}
use saa_s_app_be.Billing.Laws.{IsSubscribed, Enforces, caps, plan_enforced, floor_enforced}
use saa_s_app_be.Billing.Assistant.{MayUseAssistant, assistant_access}

abbrev host : Host
host = toy_host no_config

abbrev team_features : PlanFeatures
team_features = record {
  max_workspaces = some 10;
  max_users = none;
  max_file_assets = some 1000;
  max_storage_mb = some 2048;
  ai_chatbot = none;
}

abbrev team : SubscriptionPlan
team = record { stripe_price_id = "price_1"; name = "Team"; features = some team_features }

abbrev acme : Subscription
acme = record {
  tenant_id = "t1";
  plan_key = some "Pro";
  status = "active";
  stripe_price_id = some "price_1";
  stripe_customer_id = some "cus_1";
  stripe_subscription_id = some "sub_1";
  current_period_start = none;
  current_period_end = none;
  cancel_at_period_end = none;
}

abbrev catalog : Catalog host
catalog = record {
  subscriptions = ("t1" ∷ [], λ k. if k == "t1" then some acme else none);
  plans = ("p1" ∷ [], λ k. if k == "p1" then some team else none);
}

abbrev bare_catalog : Catalog host
bare_catalog = record { subscriptions = empty; plans = empty }

acme-IsSubscribed : IsSubscribed host "t1" catalog acme "price_1"
unfolding find_subscription
acme-IsSubscribed = record { found = refl; active = inl refl; priced = refl; price_filled = refl }

team_found : find_plan host "price_1" catalog ≡ some team
unfolding find_plan
team_found = refl

plan_enforced_example : Enforces host "t1" catalog (caps host team_features)
plan_enforced_example =
    plan_enforced host "t1" "price_1" catalog acme team team_features acme-IsSubscribed team_found
      refl

none_subscribed :
    (sub : Subscription) (price_id : String) → IsSubscribed host "t1" bare_catalog sub price_id → ⊥
unfolding find_subscription
none_subscribed sub price_id h = let found = h.found in cc

floor_enforced_example : Enforces host "t1" bare_catalog fallback_free_limits
floor_enforced_example = floor_enforced host "t1" bare_catalog none_subscribed

assistant_access_example :
    (assert_tenant_has_ai_chatbot_access host "t1" catalog).0 ≡ ok tt
    ↔ MayUseAssistant host "t1" catalog
assistant_access_example = assistant_access host "t1" catalog
