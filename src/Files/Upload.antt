-- ===== src/Files/Upload.antt =====
-- file/file.service.ts: the entry points of uploads.
pub mod Laws
use saa_s_app_be.Prelude.{
  ℕ, ◌+◌, ◌/◌, String, Bool, true, false, not, ◌&&◌, Option, none, some, List, [], ◌∷◌, ltb, eqb,
  is_some, is_filled, is_nil, or_default, if◌then◌else◌,
}
use Prim.Native.String.{◌++◌}
use saa_s_app_be.Action.{
  Result, Action, ok, err, internal, bad_request, not_found, text, about, pure, throw, gets, lift,
  or_throw, throw_if, ◌>>=◌, ◌>>◌,
}
use saa_s_app_be.Billing.{Catalog, assert_within_file_asset_limit, assert_within_storage_limit}
use saa_s_app_be.Files.Cloud.{FileHost, UploadResponse}
use saa_s_app_be.Files.Model.{
  FileAsset, FileUploadStage, FileState, FinalizeTemporaryAssetsParams, FinalizedAssetItem,
  RegisterFileAssetDto, CreateUploadSignatureDto, UploadSignature, cloudinary_error, UploadedFile,
  Uploaded, UploadResult,
}
use saa_s_app_be.Files.Repository
use saa_s_app_be.Files.Names.{
  default_cleanup_batch_size, get_tenant_temp_folder, is_tenant_scoped_public_id, cloud_name,
  api_key, api_secret, resolve_allowed_formats, assert_cloudinary_configured,
  assert_task_exists_in_tenant, build_temporary_expiry_date,
}
use saa_s_app_be.Files.Cleanup.{cleanup_expired_temporary_assets, extract_destroy_result, is_gone}
use saa_s_app_be.Files.Finalize.{finalize_temporary_assets}

abbrev uploaded_of : Option UploadResponse → Result Uploaded
uploaded_of none = err (internal (text "Cloudinary upload returned invalid response"))
uploaded_of (some r) = elim r.public_id [
  | none ↦ err (internal (text "Cloudinary upload missing required fields"))
  | some public_id ↦ elim r.secure_url [
    | none ↦ err (internal (text "Cloudinary upload missing required fields"))
    | some secure_url ↦ elim r.resource_type [
      | none ↦ err (internal (text "Cloudinary upload missing required fields"))
      | some resource_type ↦ ok (record {
        public_id = public_id;
        secure_url = secure_url;
        resource_type = resource_type;
        format = r.format;
        bytes = r.bytes;
      })
    ]
  ]
]

-- the record that `registerAsset` passes to `create`; `id` is the `_id` that Mongoose draws
abbrev pub registered_asset :
    (fh : FileHost) (now : ℕ) (id tenant_id : String) → RegisterFileAssetDto → FileAsset
registered_asset fh now id tenant_id dto = record {
  id = id;
  tenant_id = tenant_id;
  storage_key = dto.public_id;
  public_id = dto.public_id;
  secure_url = dto.secure_url;
  resource_type = dto.resource_type;
  format = dto.format;
  bytes = dto.bytes;
  mime_type = dto.mime_type;
  upload_stage = FileUploadStage.temporary;
  task_id = dto.task_id;
  expires_at = some (build_temporary_expiry_date fh now);
  finalized_at = none;
}

module _ (fh : FileHost) (tasks : String → String → Bool) where
  open fh use {host, cloud}

  -- a check of subscription-entitlements.service.ts, which writes nothing
  abbrev entitled : Action (Catalog host) Unit → Action (FileState fh) Unit
  entitled check s = lift (check s.catalog).0 s

  -- `if (dto.taskId) { ... }`
  abbrev assert_optional_task : String → Option String → Action (FileState fh) Unit
  assert_optional_task tenant_id none = pure tt
  assert_optional_task tenant_id (some task_id) =
      if is_filled (some task_id)
      then assert_task_exists_in_tenant fh tasks tenant_id task_id
      else pure tt

  unfoldable pub create_upload_signature :
      (now : ℕ) (uuid tenant_id : String)
      → CreateUploadSignatureDto
      → Action (FileState fh) UploadSignature
  create_upload_signature now uuid tenant_id dto = do
    assert_cloudinary_configured fh
    cleanup_expired_temporary_assets fh now default_cleanup_batch_size
    current_asset_count ← gets (Repository.count_finalized_by_tenant fh tenant_id)
    entitled (assert_within_file_asset_limit host tenant_id current_asset_count)
    assert_optional_task tenant_id dto.task_id
    let folder = get_tenant_temp_folder tenant_id
    let public_id = folder ++ "/" ++ uuid
    pure (record {
      cloud_name = cloud_name fh;
      api_key = api_key fh;
      timestamp = now / 1000;
      signature = cloud.sign_request public_id (now / 1000) (api_secret fh);
      folder = folder;
      public_id = public_id;
      resource_type = or_default dto.resource_type "auto";
      allowed_formats = resolve_allowed_formats dto.mime_type;
      expires_at = build_temporary_expiry_date fh now;
    })

  -- `registerAsset` behind the checks of configuration and task; `id` is the `_id` of the new document
  unfoldable pub register_checked :
      (now : ℕ) (id tenant_id : String) → RegisterFileAssetDto → Action (FileState fh) FileAsset
  register_checked now id tenant_id dto = do
    throw_if (not (is_tenant_scoped_public_id (get_tenant_temp_folder tenant_id) dto.public_id))
        (bad_request (text "Cloudinary publicId is not in tenant temporary folder"))
    existing ← gets (Repository.find_by_tenant_and_public_id fh tenant_id dto.public_id)
    throw_if (is_some existing) (bad_request (text "File metadata already exists for this asset"))
    current_storage_bytes ← gets (Repository.sum_finalized_bytes_by_tenant fh tenant_id)
    entitled
        (assert_within_storage_limit host tenant_id current_storage_bytes (or_default dto.bytes 0))
    Repository.create fh (registered_asset fh now id tenant_id dto)

  unfoldable pub register_asset :
      (now : ℕ) (id tenant_id : String) → RegisterFileAssetDto → Action (FileState fh) FileAsset
  unfolding register_checked
  register_asset now id tenant_id dto = do
    assert_cloudinary_configured fh
    cleanup_expired_temporary_assets fh now default_cleanup_batch_size
    assert_optional_task tenant_id dto.task_id
    register_checked now id tenant_id dto

  -- the parameters with which the endpoints of one asset call `finalizeTemporaryAssets`
  abbrev single : (tenant_id task_id public_id : String) → FinalizeTemporaryAssetsParams
  single tenant_id task_id public_id = record {
    tenant_id = tenant_id;
    task_id = task_id;
    temporary_public_ids = public_id ∷ [];
    scope = "workspace-tasks";
    in_session = false;
  }

  abbrev first_item : String → List FinalizedAssetItem → Action (FileState fh) FinalizedAssetItem
  first_item message [] = throw (internal (text message))
  first_item message (item ∷ items) = pure item

  -- `finalizeAsset`
  unfoldable pub finalize_asset :
      (now : ℕ) (uuid : String → String) (tenant_id public_id task_id : String)
      → Action (FileState fh) FinalizedAssetItem
  finalize_asset now uuid tenant_id public_id task_id = do
    assert_cloudinary_configured fh
    items ← finalize_temporary_assets fh tasks now uuid (single tenant_id task_id public_id)
    first_item "Failed to finalize file asset" items

  unfoldable pub upload_buffer_to_cloudinary :
      (buffer public_id resource_type : String) → Action (FileState fh) Uploaded
  upload_buffer_to_cloudinary buffer public_id resource_type s =
      let (response, c) = cloud.upload buffer public_id resource_type s.cloud in
      let s' : FileState fh = record s { cloud = c } in
      elim response [ none ↦ (err cloudinary_error, s') | some r ↦ (uploaded_of r, s') ]

  abbrev finish_upload :
      (now : ℕ) (uuid : String → String) (tenant_id : String)
      → FileAsset
      → Option String
      → Action (FileState fh) UploadResult
  finish_upload now uuid tenant_id asset none = pure (record {
    public_id = asset.public_id;
    secure_url = asset.secure_url;
    mime_type = asset.mime_type;
    upload_stage = asset.upload_stage;
    task_id = none;
    finalized = false;
    expires_at = asset.expires_at;
  })
  finish_upload now uuid tenant_id asset (some task_id) = do
    items ← finalize_temporary_assets fh tasks now uuid (single tenant_id task_id asset.public_id)
    item ← first_item "File finalize failed" items
    pure (record {
      public_id = item.public_id;
      secure_url = item.secure_url;
      mime_type = asset.mime_type;
      upload_stage = item.upload_stage;
      task_id = some task_id;
      finalized = true;
      expires_at = none;
    })

  -- `taskId` when it is not empty
  abbrev truthy : Option String → Option String
  truthy task_id = if is_filled task_id then task_id else none

  unfoldable pub upload_via_api_for_testing :
      (now : ℕ) (upload_uuid id : String) (uuid : String → String) (tenant_id : String)
      → (file : Option UploadedFile) (task_id : Option String) → Action (FileState fh) UploadResult
  upload_via_api_for_testing now upload_uuid id uuid tenant_id file task_id = do
    assert_cloudinary_configured fh
    cleanup_expired_temporary_assets fh now default_cleanup_batch_size
    given ← or_throw file (bad_request (text "File is required"))
    throw_if (eqb given.size 0) (bad_request (text "File is required"))
    uploaded ←
        upload_buffer_to_cloudinary given.buffer
          (get_tenant_temp_folder tenant_id ++ "/" ++ upload_uuid) "auto"
    asset ← register_asset now id tenant_id (record {
      public_id = uploaded.public_id;
      secure_url = uploaded.secure_url;
      resource_type = uploaded.resource_type;
      format = uploaded.format;
      bytes = uploaded.bytes;
      mime_type = given.mime_type;
      task_id = task_id;
    })
    finish_upload now uuid tenant_id asset (truthy task_id)

  -- `cloudinary.uploader.destroy` of `deleteAsset`
  unfoldable pub destroy_asset : FileAsset → Action (FileState fh) String
  destroy_asset a s =
      let (response, c) = cloud.destroy a.public_id a.resource_type s.cloud in
      let s' : FileState fh = record s { cloud = c } in
      elim response [
        | none ↦ (err cloudinary_error, s')
        | some result ↦ (ok (extract_destroy_result result), s')
      ]

  abbrev delete_document : (tenant_id public_id : String) → Action (FileState fh) Bool
  delete_document tenant_id public_id s =
      let (deleted, s') = Repository.delete_by_tenant_and_public_id fh tenant_id public_id s in
      (ok deleted, s')

  -- `deleteAsset`: whether the document was deleted
  unfoldable pub delete_asset : (tenant_id public_id : String) → Action (FileState fh) Bool
  delete_asset tenant_id public_id = do
    assert_cloudinary_configured fh
    found ← gets (Repository.find_by_tenant_and_public_id fh tenant_id public_id)
    existing ← or_throw found (not_found (text "File asset not found"))
    result ← destroy_asset existing
    throw_if (not (is_gone result))
        (internal (about "Cloudinary deletion failed with result" result))
    delete_document tenant_id public_id
