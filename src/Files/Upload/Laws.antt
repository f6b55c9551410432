-- ===== src/Files/Upload/Laws.antt =====
-- What registering an upload checks, and how long the upload lives.
use saa_s_app_be.Prelude.{
  ℕ, ◌+◌, ◌*◌, ◌≤◌, String, ◌≡◌, sym, ap, ◌∙◌, inl, inr, Bool, true, none, some, arith, eq_refl,
  or_default, Option-cases,
}
use saa_s_app_be.Action.{ok, Result-cases}
use saa_s_app_be.Billing.{assert_within_storage_limit, resolve_feature_limits}
use saa_s_app_be.Billing.Laws.{HasStorage, Enforces-resolve_feature_limits}
use saa_s_app_be.Files.Cloud.{FileHost, ℤ, pos, negsuc}
use saa_s_app_be.Files.Model.{FileAsset, FileUploadStage, FileState, RegisterFileAssetDto}
use saa_s_app_be.Files.Repository.{
  find_by_tenant_and_public_id, sum_finalized_bytes_by_tenant, create,
}
use saa_s_app_be.Files.Names.{
  clamp_minutes, get_tenant_temp_folder, is_tenant_scoped_public_id, resolve_temp_file_ttl_minutes,
  build_temporary_expiry_date, default_cleanup_batch_size, assert_cloudinary_configured,
  assert_task_exists_in_tenant,
}
use saa_s_app_be.Files.Cleanup.{cleanup_expired_temporary_assets}
use saa_s_app_be.Files.Upload.{registered_asset, register_checked, register_asset}

clamp_minutes-bounds : (z : ℤ) → (5 ≤ clamp_minutes z) × (clamp_minutes z ≤ 180)
unfolding clamp_minutes
clamp_minutes-bounds (negsuc n) = (ground arith, ground arith)
clamp_minutes-bounds (pos n) = (ground arith, ground arith)

module _ (fh : FileHost) where
  open fh use {host, floor_number}

  -- Whatever the environment says, a temporary upload lives from five minutes to three hours.
  pub temporary_lifetime :
      (now : ℕ)
      → (now + 5 * 60000 ≤ build_temporary_expiry_date fh now)
        × (build_temporary_expiry_date fh now ≤ now + 180 * 60000)
  unfolding build_temporary_expiry_date resolve_temp_file_ttl_minutes
  temporary_lifetime now = elim (Option-cases (host.config "FILE_TEMP_TTL_MINUTES")) [
    | inl unset ↦ (ground arith, ground arith)
    | inr (raw, set) ↦ elim (Option-cases (floor_number raw)) [
      | inl nan ↦ (ground arith, ground arith)
      | inr (z, finite) ↦ let bounds = clamp_minutes-bounds z in (ground arith, ground arith)
    ]
  ]

  -- What a registration leaves, `s` being the state before it and `t` the one after.
  pub record IsRegistered (tenant_id : String) (dto : RegisterFileAssetDto) (now : ℕ) (id : String)
      (s t : FileState fh) (a : FileAsset) : Type 0 where
    pub scoped : is_tenant_scoped_public_id (get_tenant_temp_folder tenant_id) dto.public_id ≡ true
    pub unused : find_by_tenant_and_public_id fh tenant_id dto.public_id s ≡ none
    pub room :
        HasStorage
          (resolve_feature_limits host tenant_id s.catalog).max_storage_mb
          (sum_finalized_bytes_by_tenant fh tenant_id s + or_default dto.bytes 0)
    pub own_tenant : a.tenant_id ≡ tenant_id
    pub own_public_id : a.public_id ≡ dto.public_id
    pub own_url : a.secure_url ≡ dto.secure_url
    pub own_bytes : a.bytes ≡ dto.bytes
    pub own_task : a.task_id ≡ dto.task_id
    pub stage : a.upload_stage ≡ FileUploadStage.temporary
    pub unfinalized : a.finalized_at ≡ none
    pub expiry : a.expires_at ≡ some (build_temporary_expiry_date fh now)
    pub stored : host.mongo.find_one id t.assets ≡ some a

  checked-IsRegistered :
      (tasks : String → String → Bool) (now : ℕ) (id tenant_id : String)
      → (dto : RegisterFileAssetDto) (s : FileState fh) (a : FileAsset)
      → host.mongo.find_one id s.assets ≡ none
      → (register_checked fh tasks now id tenant_id dto s).0 ≡ ok a
      → IsRegistered tenant_id dto now id s (register_checked fh tasks now id tenant_id dto s).1 a
  unfolding register_checked create
  checked-IsRegistered tasks now id tenant_id dto s a fresh h =
      let bytes = or_default dto.bytes 0 in
      let sum = sum_finalized_bytes_by_tenant fh tenant_id s in
      let quota = (assert_within_storage_limit host tenant_id sum bytes s.catalog).0 in
      let allowed : quota ≡ ok tt = elim (Result-cases quota) [
        | inl (_, fine) ↦ ground arith
        | inr (e, refused) ↦ absurd (ground arith)
      ] in
      let asset : a ≡ registered_asset fh now id tenant_id dto = ground arith in
      record {
        scoped = ground arith;
        unused = ground arith;
        room =
            ((Enforces-resolve_feature_limits host tenant_id s.catalog).storage sum bytes).0
              allowed;
        own_tenant = ap (λ x. x.tenant_id) asset;
        own_public_id = ap (λ x. x.public_id) asset;
        own_url = ap (λ x. x.secure_url) asset;
        own_bytes = ap (λ x. x.bytes) asset;
        own_task = ap (λ x. x.task_id) asset;
        stage = ap (λ x. x.upload_stage) asset;
        unfinalized = ap (λ x. x.finalized_at) asset;
        expiry = ap (λ x. x.expires_at) asset;
        stored = ground (
          arith,
          host.mongo.find-insert id id (registered_asset fh now id tenant_id dto) s.assets,
          eq_refl id,
        );
      }

  registered_step :
      (tasks : String → String → Bool) (now : ℕ) (id tenant_id : String)
      → (dto : RegisterFileAssetDto) (s : FileState fh) (a : FileAsset)
      → (register_asset fh tasks now id tenant_id dto s).0 ≡ ok a
      → register_asset fh tasks now id tenant_id dto s
        ≡ register_checked fh tasks now id tenant_id dto
            (cleanup_expired_temporary_assets fh now default_cleanup_batch_size s).1
  unfolding register_asset assert_cloudinary_configured assert_task_exists_in_tenant
      cleanup_expired_temporary_assets
  registered_step tasks now id tenant_id dto s a h = ground arith

  -- A registration that succeeds is for a public id in the temporary folder of the tenant that the
  -- tenant has not registered yet, and its bytes fit the storage that the tenant's subscription leaves;
  -- the document is stored for the tenant with the public id, URL, bytes and task of the request, as
  -- temporary, and expires at the end of the lifetime that the configuration sets. All is said of the
  -- state that the cleanup of expired assets leaves, in which the new `_id` is not in use.
  pub registered :
      (tasks : String → String → Bool) (now : ℕ) (id tenant_id : String)
      → (dto : RegisterFileAssetDto) (s : FileState fh) (a : FileAsset)
      → host.mongo.find_one id
          (cleanup_expired_temporary_assets fh now default_cleanup_batch_size s).1.assets
        ≡ none
      → (register_asset fh tasks now id tenant_id dto s).0 ≡ ok a
      → IsRegistered tenant_id dto now id
          (cleanup_expired_temporary_assets fh now default_cleanup_batch_size s).1
          (register_asset fh tasks now id tenant_id dto s).1
          a
  registered tasks now id tenant_id dto s a fresh h =
      let s' = (cleanup_expired_temporary_assets fh now default_cleanup_batch_size s).1 in
      let same = registered_step tasks now id tenant_id dto s a h in
      rw same
        (checked-IsRegistered tasks now id tenant_id dto s' a fresh (ap (λ r. r.0) (sym same) ∙ h))
