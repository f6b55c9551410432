-- ===== src/Files/Cleanup.antt =====
-- file/file.service.ts: temporary assets that expired.
use saa_s_app_be.Prelude.{
  ℕ, String, ◌==◌, Bool, ◌||◌, Option, none, some, List, [], ◌∷◌, or_default, if◌then◌else◌,
}
use saa_s_app_be.Action.{Action, ok, pure}
use saa_s_app_be.Files.Cloud.{FileHost}
use saa_s_app_be.Files.Model.{FileAsset, FileState}
use saa_s_app_be.Files.Repository.{find_expired_temporary_assets, delete_by_tenant_and_public_id}
use saa_s_app_be.Files.Names.{cloudinary_configured}

-- `extractDestroyResult`, for the text in `result` when the response has one
abbrev pub extract_destroy_result : Option String → String
extract_destroy_result result = or_default result "unknown"

-- `result === 'ok' || result === 'not found'`
abbrev pub is_gone : String → Bool
is_gone result = (result == "ok") || (result == "not found")

module _ (fh : FileHost) where
  open fh use {cloud}

  -- one round of the loop of `cleanupExpiredTemporaryAssets`: a failure is logged and skipped
  unfoldable pub clean_asset : FileAsset → FileState fh → FileState fh
  clean_asset a s =
      let (response, c) = cloud.destroy a.public_id a.resource_type s.cloud in
      let s' : FileState fh = record s { cloud = c } in
      elim response [
        | none ↦ s'
        | some result ↦
            if is_gone (extract_destroy_result result)
            then (delete_by_tenant_and_public_id fh a.tenant_id a.public_id s').1
            else s'
      ]

  unfoldable pub clean_assets : List FileAsset → FileState fh → FileState fh
  clean_assets [] s = s
  clean_assets (a ∷ assets) s = clean_assets assets (clean_asset a s)

  unfoldable pub cleanup_expired_temporary_assets : (now limit : ℕ) → Action (FileState fh) Unit
  unfolding clean_assets
  cleanup_expired_temporary_assets now limit s =
      (ok tt, clean_assets (find_expired_temporary_assets fh now limit s) s)

  unfoldable pub cleanup_expired_temporary_assets_job : (now : ℕ) → Action (FileState fh) Unit
  cleanup_expired_temporary_assets_job now =
      if cloudinary_configured fh then cleanup_expired_temporary_assets now 100 else pure tt
