-- ===== src/Billing/Assistant.antt =====
-- Who may use the assistant.
use saa_s_app_be.Prelude.{
  String, ◌≡◌, ◌↔◌, inl, inr, refl, ap, ◌∙◌, eq_iff, true, false, none, some, arith, Bool-cases,
  Option-cases, is_empty,
}
use saa_s_app_be.Text.{trim}
use saa_s_app_be.Action.{ok}
use saa_s_app_be.Host.{Host}
use saa_s_app_be.Billing.{
  SubscriptionPlan, Subscription, Catalog, active_price, ai_access, ai_flag,
  is_plan_name_ai_chatbot_tier, find_subscription, find_plan, resolve_ai_chatbot_access,
  assert_tenant_has_ai_chatbot_access,
}
use saa_s_app_be.Billing.Laws.{IsSubscribed, active_price-IsSubscribed, IsSubscribed-active_price}

module _ (host : Host) where
  -- Who may use the assistant: of a catalog plan its own flag decides, then its name; without a
  -- catalog plan the key on the subscription.
  pub data MayUseAssistant (tenant_id : String) (s : Catalog host) : Type 0 where
    by_flag :
        (sub : Subscription) (price_id : String) (plan : SubscriptionPlan)
        → IsSubscribed host tenant_id s sub price_id
        → find_plan host price_id s ≡ some plan
        → ai_flag host plan ≡ some true
        → MayUseAssistant tenant_id s
    by_name :
        (sub : Subscription) (price_id : String) (plan : SubscriptionPlan)
        → IsSubscribed host tenant_id s sub price_id
        → find_plan host price_id s ≡ some plan
        → ai_flag host plan ≡ none
        → is_plan_name_ai_chatbot_tier host plan.name ≡ true
        → MayUseAssistant tenant_id s
    by_key :
        (sub : Subscription) (price_id key : String)
        → IsSubscribed host tenant_id s sub price_id
        → find_plan host price_id s ≡ none
        → sub.plan_key ≡ some key
        → is_plan_name_ai_chatbot_tier host key ≡ true
        → MayUseAssistant tenant_id s

  empty_name : is_plan_name_ai_chatbot_tier host "" ≡ false
  unfolding is_plan_name_ai_chatbot_tier trim
  empty_name = refl

  tier_filled : (key : String) → is_plan_name_ai_chatbot_tier host key ≡ true → is_empty key ≡ false
  tier_filled key tier = elim (Bool-cases (is_empty key)) [
    | inl blank ↦ absurd (ground (arith, (eq_iff key "").0 blank, empty_name))
    | inr filled ↦ filled
  ]

  resolve_step :
      (tenant_id : String) (s : Catalog host) (sub : Subscription) (price_id : String)
      → IsSubscribed host tenant_id s sub price_id
      → resolve_ai_chatbot_access host tenant_id s
        ≡ ai_access host (some sub) (find_plan host price_id s)
  unfolding resolve_ai_chatbot_access
  resolve_step tenant_id s sub price_id h =
      let active = active_price-IsSubscribed host tenant_id s sub price_id h in
      ground (arith, active, h.found)

  grant :
      (tenant_id : String) (s : Catalog host)
      → MayUseAssistant tenant_id s
      → resolve_ai_chatbot_access host tenant_id s ≡ true
  unfolding ai_access
  grant tenant_id s (MayUseAssistant.by_flag sub price_id plan h found flag) =
      ground (arith, resolve_step tenant_id s sub price_id h, found, flag)
  grant tenant_id s (MayUseAssistant.by_name sub price_id plan h found flag tier) =
      ground (arith, resolve_step tenant_id s sub price_id h, found, flag, tier)
  grant tenant_id s (MayUseAssistant.by_key sub price_id key h found has_key tier) =
      ground
        (arith, resolve_step tenant_id s sub price_id h, found, has_key, tier, tier_filled key tier)

  access_cases :
      (tenant_id : String) (s : Catalog host) (sub : Subscription) (price_id : String)
      → IsSubscribed host tenant_id s sub price_id
      → ai_access host (some sub) (find_plan host price_id s) ≡ true
      → MayUseAssistant tenant_id s
  unfolding ai_access
  access_cases tenant_id s sub price_id h allowed =
      elim (Option-cases (find_plan host price_id s)) [
        | inr (plan, row) ↦ elim (Option-cases (ai_flag host plan)) [
          | inl unset ↦ MayUseAssistant.by_name sub price_id plan h row unset (ground arith)
          | inr (flag, set) ↦
              let on : flag ≡ true = ground arith in
              MayUseAssistant.by_flag sub price_id plan h row (set ∙ ap some on)
        ]
        | inl no_row ↦ elim (Option-cases sub.plan_key) [
          | inl no_key ↦ absurd (ground (arith, rw (no_row, no_key) at allowed))
          | inr (key, has_key) ↦
              MayUseAssistant.by_key sub price_id key h no_row has_key (ground arith)
        ]
      ]

  granted :
      (tenant_id : String) (s : Catalog host)
      → resolve_ai_chatbot_access host tenant_id s ≡ true
      → MayUseAssistant tenant_id s
  unfolding resolve_ai_chatbot_access
  granted tenant_id s h = elim (Option-cases (active_price (find_subscription host tenant_id s))) [
    | inl inactive ↦ absurd (ground arith)
    | inr (price_id, active) ↦
        let (sub, subscribed) = IsSubscribed-active_price host tenant_id s price_id active in
        access_cases tenant_id s sub price_id subscribed
          (ground (arith, resolve_step tenant_id s sub price_id subscribed))
  ]

  -- A tenant has access to the assistant exactly if its subscription is active or on trial and
  -- carries a price, and either its catalog plan switches the assistant on, or the plan leaves it open
  -- and has the name of a Pro or Enterprise tier, or the plan is not in the catalog and the key on the
  -- subscription has such a name; a plan that switches it off is never overruled.
  pub assistant_access :
      (tenant_id : String) (s : Catalog host)
      → (assert_tenant_has_ai_chatbot_access host tenant_id s).0 ≡ ok tt
        ↔ MayUseAssistant tenant_id s
  unfolding assert_tenant_has_ai_chatbot_access
  assistant_access tenant_id s =
      (λ h. granted tenant_id s (ground arith), λ h. ground (arith, grant tenant_id s h))
