-- ===== src/Billing.antt =====
-- billing/services/subscription-entitlements.service.ts and
-- billing/utils/subscription-plan-ai-chatbot.util.ts: what a subscription allows.
pub mod Laws
pub mod Assistant
pub mod Tests
use saa_s_app_be.Prelude.{
  ℕ, ◌+◌, ◌*◌, String, ◌==◌, Bool, true, false, not, ◌&&◌, ◌||◌, Option, none, some, leb, ltb, eqb,
  is_empty, is_filled, or_default, if◌then◌else◌,
}
use saa_s_app_be.Text.{trim, starts_with}
use saa_s_app_be.Action.{
  Exception, Message, Action, forbidden, text, plan_maximum, storage_quota, pure, throw_if,
}
use saa_s_app_be.Host.{Host}

-- `SubscriptionPlanFeatures`
pub record PlanFeatures : Type 0 where
  pub max_workspaces : Option ℕ
  pub max_users : Option ℕ
  pub max_file_assets : Option ℕ
  pub max_storage_mb : Option ℕ
  pub ai_chatbot : Option Bool

-- The part of a `SubscriptionPlan` that decides entitlements.
pub record SubscriptionPlan : Type 0 where
  pub stripe_price_id : String
  pub name : String
  pub features : Option PlanFeatures

-- A document of `subscriptions`. Dates are milliseconds.
pub record Subscription : Type 0 where
  pub tenant_id : String
  pub plan_key : Option String
  pub status : String
  pub stripe_price_id : Option String
  pub stripe_customer_id : Option String
  pub stripe_subscription_id : Option String
  pub current_period_start : Option ℕ
  pub current_period_end : Option ℕ
  pub cancel_at_period_end : Option Bool

-- `FeatureLimits`, where `none` is no cap
pub record FeatureLimits : Type 0 where
  pub max_workspaces : Option ℕ
  pub max_users : Option ℕ
  pub max_file_assets : Option ℕ
  pub max_storage_mb : Option ℕ

pub record Catalog (host : Host) : Type 0 where
  pub subscriptions : host.mongo.Coll Subscription
  pub plans : host.mongo.Coll SubscriptionPlan

-- `FALLBACK_FREE_LIMITS`
abbrev pub fallback_free_limits : FeatureLimits
fallback_free_limits = record {
  max_workspaces = some 1;
  max_users = some 3;
  max_file_assets = some 50;
  max_storage_mb = some 500;
}

-- `ACTIVE_STATUSES.has`
unfoldable pub is_active_status : String → Bool
is_active_status status = (status == "active") || (status == "trialing")

-- the price of a subscription that is active or on trial
unfoldable pub active_price : Option Subscription → Option String
active_price none = none
active_price (some sub) =
    if is_active_status sub.status && is_filled sub.stripe_price_id
    then sub.stripe_price_id
    else none

abbrev limits_of : Option SubscriptionPlan → FeatureLimits
limits_of none = fallback_free_limits
limits_of (some plan) = elim plan.features [
  | none ↦ fallback_free_limits
  | some f ↦ record {
    max_workspaces = f.max_workspaces;
    max_users = f.max_users;
    max_file_assets = f.max_file_assets;
    max_storage_mb = f.max_storage_mb;
  }
]

abbrev exceeds : Option ℕ → ℕ → Bool
exceeds none count = false
exceeds (some cap) count = leb cap count

abbrev noun : Option ℕ → (one many : String) → Message
noun none one many = text many
noun (some cap) one many = plan_maximum cap (if eqb cap 1 then one else many)

abbrev exceeds_storage : Option ℕ → (current_bytes incoming_bytes : ℕ) → Bool
exceeds_storage none current incoming = false
exceeds_storage (some mb) current incoming = ltb (mb * 1024 * 1024) (current + incoming)

module _ (host : Host) where
  open host use {mongo, lower_case}

  -- `matchesTierPrefix`
  unfoldable pub matches_tier_prefix : (plan_name tier with_space with_dash : String) → Bool
  matches_tier_prefix plan_name tier with_space with_dash =
      let n = lower_case (trim plan_name) in
      (n == tier) || starts_with with_space n || starts_with with_dash n

  -- `isPlanNameAiChatbotTier`
  unfoldable pub is_plan_name_ai_chatbot_tier : String → Bool
  unfolding matches_tier_prefix
  is_plan_name_ai_chatbot_tier plan_name =
      if is_empty (trim plan_name)
      then false
      else (matches_tier_prefix plan_name "pro" "pro " "pro-"
          || matches_tier_prefix plan_name "enterprise" "enterprise " "enterprise-")

  -- `findByTenantId`
  unfoldable pub find_subscription : String → Catalog host → Option Subscription
  find_subscription tenant_id s = mongo.find_one tenant_id s.subscriptions

  -- `findByStripePriceIdIncludingArchived`
  unfoldable pub find_plan : String → Catalog host → Option SubscriptionPlan
  find_plan price_id s = mongo.find_where (λ p. p.stripe_price_id == price_id) s.plans

  unfoldable pub resolve_feature_limits : String → Catalog host → FeatureLimits
  resolve_feature_limits tenant_id s = elim (active_price (find_subscription tenant_id s)) [
    | none ↦ fallback_free_limits
    | some price_id ↦ limits_of (find_plan price_id s)
  ]

  unfoldable pub assert_within_user_limit : String → ℕ → Action (Catalog host) Unit
  assert_within_user_limit tenant_id current_count s =
      let cap = (resolve_feature_limits tenant_id s).max_users in
      throw_if (exceeds cap current_count) (forbidden (noun cap "user" "users")) s

  unfoldable pub assert_within_file_asset_limit : String → ℕ → Action (Catalog host) Unit
  assert_within_file_asset_limit tenant_id current_count s =
      let cap = (resolve_feature_limits tenant_id s).max_file_assets in
      throw_if (exceeds cap current_count) (forbidden (noun cap "file asset" "file assets")) s

  unfoldable pub assert_within_workspace_limit : String → ℕ → Action (Catalog host) Unit
  assert_within_workspace_limit tenant_id current_count s =
      let cap = (resolve_feature_limits tenant_id s).max_workspaces in
      throw_if (exceeds cap current_count) (forbidden (noun cap "workspace" "workspaces")) s

  unfoldable pub assert_within_storage_limit :
      String → (current_bytes incoming_bytes : ℕ) → Action (Catalog host) Unit
  assert_within_storage_limit tenant_id current_bytes incoming_bytes s =
      let cap = (resolve_feature_limits tenant_id s).max_storage_mb in
      throw_if (exceeds_storage cap current_bytes incoming_bytes)
        (forbidden (storage_quota (or_default cap 0) current_bytes)) s

  unfoldable pub ai_flag : SubscriptionPlan → Option Bool
  ai_flag plan = elim plan.features [ none ↦ none | some f ↦ f.ai_chatbot ]

  unfoldable pub ai_access : Option Subscription → Option SubscriptionPlan → Bool
  ai_access sub (some plan) = elim (ai_flag plan) [
    | some flag ↦ flag
    | none ↦ is_plan_name_ai_chatbot_tier plan.name
  ]
  ai_access none none = false
  ai_access (some sub) none =
      let plan_key = or_default sub.plan_key "" in
      not (is_empty plan_key) && is_plan_name_ai_chatbot_tier plan_key

  unfoldable pub resolve_ai_chatbot_access : String → Catalog host → Bool
  resolve_ai_chatbot_access tenant_id s =
      let subscription = find_subscription tenant_id s in
      elim (active_price subscription) [
        | none ↦ false
        | some price_id ↦ ai_access subscription (find_plan price_id s)
      ]

  unfoldable pub assert_tenant_has_ai_chatbot_access : String → Action (Catalog host) Unit
  assert_tenant_has_ai_chatbot_access tenant_id s =
      throw_if (not (resolve_ai_chatbot_access tenant_id s))
        (forbidden (
          text
            "The AI assistant is included with Pro and Enterprise. Upgrade your subscription to unlock contextual help for your workspace."))
        s
