-- ===== src/Billing/Laws.antt =====
-- The caps that a subscription sets, said independently of how the service finds them.
use saa_s_app_be.Prelude.{
  ℕ, ◌+◌, ◌*◌, ◌≤◌, ◌<◌, String, ◌≡◌, ◌↔◌, ◌⊎◌, inl, inr, refl, ap, ◌∙◌, eq_iff, ◌==◌, false,
  Option, none, some, arith, Bool-cases, Option-cases, is_empty,
}
use saa_s_app_be.Action.{ok}
use saa_s_app_be.Host.{Host}
use saa_s_app_be.Billing.{
  PlanFeatures, SubscriptionPlan, Subscription, FeatureLimits, Catalog, fallback_free_limits,
  is_active_status, active_price, find_subscription, find_plan, resolve_feature_limits,
  assert_within_user_limit, assert_within_file_asset_limit, assert_within_workspace_limit,
  assert_within_storage_limit,
}

-- A cap leaves room for one more.
abbrev pub HasRoom : Option ℕ → ℕ → Type 0
HasRoom none count = Unit
HasRoom (some cap) count = count < cap

-- A storage cap leaves room for the bytes.
abbrev pub HasStorage : Option ℕ → ℕ → Type 0
HasStorage none bytes = Unit
HasStorage (some mb) bytes = bytes ≤ mb * 1048576

module _ (host : Host) where
  -- The tenant's subscription is active or on trial, and is priced.
  pub record IsSubscribed (tenant_id : String) (s : Catalog host) (sub : Subscription)
      (price_id : String) : Type 0 where
    pub found : find_subscription host tenant_id s ≡ some sub
    pub active : (sub.status ≡ "active") ⊎ (sub.status ≡ "trialing")
    pub priced : sub.stripe_price_id ≡ some price_id
    pub price_filled : is_empty price_id ≡ false

  pub active_price-IsSubscribed :
      (tenant_id : String) (s : Catalog host) (sub : Subscription) (price_id : String)
      → IsSubscribed tenant_id s sub price_id
      → active_price (find_subscription host tenant_id s) ≡ some price_id
  unfolding active_price is_active_status
  active_price-IsSubscribed tenant_id s sub price_id h = elim h.active [
    | inl active ↦ rw (h.found, active, h.priced, h.price_filled) refl
    | inr trialing ↦ rw (h.found, trialing, h.priced, h.price_filled) refl
  ]

  pub IsSubscribed-active_price :
      (tenant_id : String) (s : Catalog host) (price_id : String)
      → active_price (find_subscription host tenant_id s) ≡ some price_id
      → (sub : Subscription) × IsSubscribed tenant_id s sub price_id
  unfolding active_price is_active_status
  IsSubscribed-active_price tenant_id s price_id h =
      elim (Option-cases (find_subscription host tenant_id s)) [
        | inl missing ↦ absurd (ground arith)
        | inr (sub, found) ↦ elim (Option-cases sub.stripe_price_id) [
          | inl free ↦ absurd (ground arith)
          | inr (price, priced) ↦
              let same : price ≡ price_id = ground arith in
              let filled : is_empty price ≡ false = ground arith in
              (
                sub,
                record {
                  found = found;
                  active = elim (Bool-cases (sub.status == "active")) [
                    | inl is ↦ inl ((eq_iff sub.status "active").0 is)
                    | inr other ↦ inr ((eq_iff sub.status "trialing").0 (ground arith))
                  ];
                  priced = priced ∙ ap some same;
                  price_filled = rw same at filled;
                },
              )
        ]
      ]

  -- What the limits allow.
  pub record Enforces (tenant_id : String) (s : Catalog host) (limits : FeatureLimits)
      : Type 0 where
    pub users :
        (n : ℕ)
        → (assert_within_user_limit host tenant_id n s).0 ≡ ok tt ↔ HasRoom limits.max_users n
    pub file_assets :
        (n : ℕ)
        → (assert_within_file_asset_limit host tenant_id n s).0 ≡ ok tt
          ↔ HasRoom limits.max_file_assets n
    pub workspaces :
        (n : ℕ)
        → (assert_within_workspace_limit host tenant_id n s).0 ≡ ok tt
          ↔ HasRoom limits.max_workspaces n
    pub storage :
        (current incoming : ℕ)
        → (assert_within_storage_limit host tenant_id current incoming s).0 ≡ ok tt
          ↔ HasStorage limits.max_storage_mb (current + incoming)

  pub Enforces-resolve_feature_limits :
      (tenant_id : String) (s : Catalog host)
      → Enforces tenant_id s (resolve_feature_limits host tenant_id s)
  unfolding assert_within_user_limit assert_within_file_asset_limit assert_within_workspace_limit
      assert_within_storage_limit
  Enforces-resolve_feature_limits tenant_id s = record {
    users = λ n. (λ h. ground arith, λ h. ground arith);
    file_assets = λ n. (λ h. ground arith, λ h. ground arith);
    workspaces = λ n. (λ h. ground arith, λ h. ground arith);
    storage = λ c i. (λ h. ground arith, λ h. ground arith);
  }

  -- the caps of a plan's features
  abbrev pub caps : PlanFeatures → FeatureLimits
  caps f = record {
    max_workspaces = f.max_workspaces;
    max_users = f.max_users;
    max_file_assets = f.max_file_assets;
    max_storage_mb = f.max_storage_mb;
  }

  -- A tenant whose subscription is active or on trial, at a price of a catalog plan that sets features,
  -- is held to the caps of that plan and to nothing else: each check passes exactly if the plan sets no
  -- cap or the cap leaves room.
  pub plan_enforced :
      (tenant_id price_id : String) (s : Catalog host) (sub : Subscription)
      (plan : SubscriptionPlan) (f : PlanFeatures)
      → IsSubscribed tenant_id s sub price_id
      → find_plan host price_id s ≡ some plan
      → plan.features ≡ some f
      → Enforces tenant_id s (caps f)
  unfolding resolve_feature_limits
  plan_enforced tenant_id price_id s sub plan f h found features =
      let limits : resolve_feature_limits host tenant_id s ≡ caps f =
        rw
          (
            resolve_feature_limits,
            active_price-IsSubscribed tenant_id s sub price_id h,
            found,
            features,
          )
          refl in
      rw (← limits) (Enforces-resolve_feature_limits tenant_id s)

  -- A tenant with no subscription that is active or on trial is held to the limits of the free plan:
  -- one workspace, three users, fifty files and five hundred megabytes.
  pub floor_enforced :
      (tenant_id : String) (s : Catalog host)
      → ((sub : Subscription) (price_id : String) → IsSubscribed tenant_id s sub price_id → ⊥)
      → Enforces tenant_id s fallback_free_limits
  unfolding resolve_feature_limits
  floor_enforced tenant_id s h =
      elim (Option-cases (active_price (find_subscription host tenant_id s))) [
        | inr (price_id, active) ↦
            let (sub, subscribed) = IsSubscribed-active_price tenant_id s price_id active in
            absurd (h sub price_id subscribed)
        | inl inactive ↦
            let limits : resolve_feature_limits host tenant_id s ≡ fallback_free_limits =
              rw (resolve_feature_limits, inactive) refl in
            rw (← limits) (Enforces-resolve_feature_limits tenant_id s)
      ]
