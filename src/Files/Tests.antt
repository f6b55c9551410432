-- ===== src/Files/Tests.antt =====
-- Runs of uploads on a small tenant.
use saa_s_app_be.Prelude.{
  arith, ◌+◌, ◌*◌, ◌≤◌, String, ◌==◌, ◌≡◌, refl, Bool, true, false, none, some, List, [], ◌∷◌,
  if◌then◌else◌,
}
use saa_s_app_be.Action.{ok, err}
use saa_s_app_be.Mongo.{All}
use saa_s_app_be.Mongo.Memory.{Store, empty}
use saa_s_app_be.Files.Sample.{toy_cloud-IsReliable, fh}
use saa_s_app_be.Files.Model.{
  FileAsset, FileUploadStage, FileState, RegisterFileAssetDto, FinalizeTemporaryAssetsParams,
  FinalizedAssetItem, cloudinary_error, duplicate_key,
}
use saa_s_app_be.Text.{trim, trim_start, is_space, starts_with}
use saa_s_app_be.Lists.{unique, filled_items}
use saa_s_app_be.Billing.{
  assert_within_storage_limit, resolve_feature_limits, active_price, find_subscription,
}
use saa_s_app_be.Files.Repository.{
  find_by_tenant_and_public_id, create, finalize, sort_by_expiry, take,
  find_temporary_by_tenant_and_public_ids, find_expired_temporary_assets,
  sum_finalized_bytes_by_tenant,
}
use saa_s_app_be.Files.Names.{
  build_temporary_expiry_date, default_cleanup_batch_size, last_segment, dash_spaces,
  get_tenant_folder, get_tenant_temp_folder, is_tenant_scoped_public_id, cloudinary_configured,
  assert_cloudinary_configured, build_final_scoped_public_id, assert_task_exists_in_tenant,
  resolve_temp_file_ttl_minutes,
}
use saa_s_app_be.Files.Cleanup.{clean_asset, clean_assets, cleanup_expired_temporary_assets}
use saa_s_app_be.Files.Finalize.{
  find_invalid, find_expired, in_order, rollback_renamed_assets, record_final, finalize_one,
  finalize_ids, finalize_each, finalize_temporary_assets,
}
use saa_s_app_be.Files.Finalize.Laws.{refused_rename_undone}
use saa_s_app_be.Files.Finalize.Stranded.{IsStranded, finalize_each-IsStranded}
use saa_s_app_be.Files.Finalize.Items.{IsFinalized, finalize_temporary_assets-IsFinalized}
use saa_s_app_be.Files.Upload.{registered_asset, register_checked, register_asset}
use saa_s_app_be.Files.Upload.Laws.{IsRegistered, temporary_lifetime, registered}

abbrev pending : (id public_id : String) → FileAsset
pending id public_id = record {
  id = id;
  tenant_id = "t1";
  storage_key = public_id;
  public_id = public_id;
  secure_url = "https://cdn/x";
  resource_type = "image";
  format = none;
  bytes = some 10;
  mime_type = "image/png";
  upload_stage = FileUploadStage.temporary;
  task_id = none;
  expires_at = some 5000;
  finalized_at = none;
}

abbrev asset_a : FileAsset
asset_a = pending "1" "tenants/t1/tmp/workspace-tasks/a"

abbrev asset_b : FileAsset
asset_b = pending "2" "tenants/t1/tmp/workspace-tasks/b"

abbrev stored_assets : Store FileAsset
stored_assets = (
  "1" ∷ "2" ∷ [],
  λ k. if k == "1" then some asset_a else if k == "2" then some asset_b else none,
)

abbrev start : Store FileAsset → FileState fh
start assets = record {
  catalog = record { subscriptions = empty; plans = empty };
  assets = assets;
  committed = assets;
  cloud = "tenants/t1/tmp/workspace-tasks/a";
}

abbrev any_task : String → String → Bool
any_task tenant_id task_id = true

abbrev uuids : String → String
uuids public_id = "u"

abbrev params : List String → FinalizeTemporaryAssetsParams
params public_ids = record {
  tenant_id = "t1";
  task_id = "k1";
  temporary_public_ids = public_ids;
  scope = "workspace-tasks";
  in_session = false;
}

abbrev both : List String
both = " tenants/t1/tmp/workspace-tasks/a" ∷ "tenants/t1/tmp/workspace-tasks/b" ∷ []

-- The second asset is not at Cloudinary.
second_refused :
    (finalize_temporary_assets fh any_task 7 uuids (params both) (start stored_assets)).0
    ≡ err cloudinary_error
unfolding finalize_temporary_assets assert_cloudinary_configured cloudinary_configured trim
    trim_start is_space cleanup_expired_temporary_assets find_expired_temporary_assets
    sort_by_expiry take clean_assets clean_asset assert_task_exists_in_tenant unique filled_items
    is_tenant_scoped_public_id starts_with get_tenant_temp_folder get_tenant_folder
    find_temporary_by_tenant_and_public_ids finalize_one finalize find_by_tenant_and_public_id
    build_final_scoped_public_id finalize_each finalize_ids find_expired find_invalid in_order
    record_final rollback_renamed_assets dash_spaces last_segment
second_refused = refl

refused_rename_undone_example :
    (finalize_temporary_assets fh any_task 7 uuids (params both) (start stored_assets)).1.cloud
    ≡ (cleanup_expired_temporary_assets fh 7 default_cleanup_batch_size
        (start stored_assets)).1.cloud
refused_rename_undone_example =
    refused_rename_undone fh toy_cloud-IsReliable 7 uuids (params both) any_task
      (start stored_assets) second_refused

abbrev item_a : FinalizedAssetItem
item_a = record {
  previous_public_id = "tenants/t1/tmp/workspace-tasks/a";
  public_id = "tenants/t1/workspace-tasks/k1/a";
  secure_url = "https://cdn/x";
  upload_stage = FileUploadStage.finalized;
}

first_finalized :
    (finalize_temporary_assets fh any_task 7 uuids
      (params ("tenants/t1/tmp/workspace-tasks/a" ∷ []))
      (start stored_assets)).0
    ≡ ok (item_a ∷ [])
unfolding finalize_temporary_assets assert_cloudinary_configured cloudinary_configured trim
    trim_start is_space cleanup_expired_temporary_assets find_expired_temporary_assets
    sort_by_expiry take clean_assets clean_asset assert_task_exists_in_tenant unique filled_items
    is_tenant_scoped_public_id starts_with get_tenant_temp_folder get_tenant_folder
    find_temporary_by_tenant_and_public_ids finalize_one finalize find_by_tenant_and_public_id
    build_final_scoped_public_id finalize_each finalize_ids find_expired find_invalid in_order
    record_final rollback_renamed_assets dash_spaces last_segment
first_finalized = refl

finalize_temporary_assets-IsFinalized_example :
    All (IsFinalized fh uuids (params ("tenants/t1/tmp/workspace-tasks/a" ∷ []))) (item_a ∷ [])
finalize_temporary_assets-IsFinalized_example =
    finalize_temporary_assets-IsFinalized fh 7 uuids
      (params ("tenants/t1/tmp/workspace-tasks/a" ∷ [])) any_task (start stored_assets)
      (item_a ∷ []) first_finalized

temporary_lifetime_example :
    (7 + 5 * 60000 ≤ build_temporary_expiry_date fh 7)
    × (build_temporary_expiry_date fh 7 ≤ 7 + 180 * 60000)
temporary_lifetime_example = temporary_lifetime fh 7

abbrev dto : RegisterFileAssetDto
dto = record {
  public_id = "tenants/t1/tmp/workspace-tasks/c";
  secure_url = "https://cdn/c";
  resource_type = "image";
  format = none;
  bytes = some 2000;
  mime_type = "image/png";
  task_id = none;
}

dto_registered :
    (register_asset fh any_task 7 "3" "t1" dto (start stored_assets)).0
    ≡ ok (registered_asset fh 7 "3" "t1" dto)
unfolding register_asset register_checked assert_cloudinary_configured cloudinary_configured trim
    trim_start is_space cleanup_expired_temporary_assets find_expired_temporary_assets
    sort_by_expiry take clean_assets clean_asset is_tenant_scoped_public_id starts_with
    get_tenant_temp_folder get_tenant_folder find_by_tenant_and_public_id
    assert_within_storage_limit resolve_feature_limits active_price find_subscription
    sum_finalized_bytes_by_tenant create build_temporary_expiry_date resolve_temp_file_ttl_minutes
dto_registered = refl

unused_id :
    fh.host.mongo.find_one "3"
      (cleanup_expired_temporary_assets fh 7 default_cleanup_batch_size
        (start stored_assets)).1.assets
    ≡ none
unfolding cleanup_expired_temporary_assets find_expired_temporary_assets sort_by_expiry take
    clean_assets clean_asset
unused_id = refl

registered_example :
    IsRegistered fh "t1" dto 7 "3"
      (cleanup_expired_temporary_assets fh 7 default_cleanup_batch_size (start stored_assets)).1
      (register_asset fh any_task 7 "3" "t1" dto (start stored_assets)).1
      (registered_asset fh 7 "3" "t1" dto)
registered_example =
    registered fh any_task 7 "3" "t1" dto (start stored_assets) (registered_asset fh 7 "3" "t1" dto)
      unused_id dto_registered

-- A document has the public id already that the asset is to get.
abbrev crowded : FileState fh
crowded = start (
  "1" ∷ "9" ∷ [],
  λ k.
      if k == "1"
      then some asset_a
      else if k == "9"
      then some (pending "9" "tenants/t1/workspace-tasks/k1/a")
      else none,
)

other_error : duplicate_key ≡ cloudinary_error → ⊥
other_error h = ground arith

key_refused :
    (finalize_each fh 7 uuids (params both) [] (asset_a ∷ []) crowded).0 ≡ err duplicate_key
unfolding finalize_each finalize_one record_final finalize find_by_tenant_and_public_id
    build_final_scoped_public_id get_tenant_folder dash_spaces last_segment trim trim_start is_space
    rollback_renamed_assets
key_refused = refl

finalize_each-IsStranded_example :
    IsStranded fh uuids
      (params both)
      7
      duplicate_key
      []
      (asset_a ∷ [])
      crowded.cloud
      (finalize_each fh 7 uuids (params both) [] (asset_a ∷ []) crowded).1.cloud
finalize_each-IsStranded_example =
    finalize_each-IsStranded fh uuids (params both) toy_cloud-IsReliable 7 duplicate_key other_error
      (asset_a ∷ []) crowded key_refused
