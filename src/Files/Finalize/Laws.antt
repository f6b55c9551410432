-- ===== src/Files/Finalize/Laws.antt =====
-- What the renames of a finalization leave at Cloudinary.
use saa_s_app_be.Prelude.{
  ℕ, String, ◌≡◌, refl, ◌∙◌, inl, inr, Option, List, [], ◌∷◌, Bool, arith, Option-cases,
}
use saa_s_app_be.Action.{ok, err, Result-cases}
use saa_s_app_be.Lists.{unique, filled_items}
use saa_s_app_be.Files.Names.{
  default_cleanup_batch_size, assert_cloudinary_configured, assert_task_exists_in_tenant,
}
use saa_s_app_be.Files.Cleanup.{cleanup_expired_temporary_assets}
use saa_s_app_be.Files.Cloud.{FileHost, IsReliable}
use saa_s_app_be.Files.Model.{
  FileAsset, FileState, FinalizeTemporaryAssetsParams, FinalizedAssetItem, cloudinary_error,
}
use saa_s_app_be.Files.Repository
use saa_s_app_be.Files.Repository.{is_asset, set_final, FinalizeInput}
use saa_s_app_be.Files.Finalize.{
  RenamedPair, rollback_renamed_assets, final_public_id, renamed_pair, final_input, record_final,
  finalize_ids, finalize_temporary_assets, in_order, finalize_one, finalize_each,
}

module _ (fh : FileHost) where
  open fh use {cloud, host}

  finalize-cloud :
      (in_session : Bool) (now : ℕ) (input : FinalizeInput) (s : FileState fh)
      → (Repository.finalize fh in_session now input s).1.cloud ≡ s.cloud
  unfolding Repository.finalize
  finalize-cloud in_session now input s = ground arith

  -- No write to the database is refused with an error of Cloudinary.
  finalize-database_error :
      (in_session : Bool) (now : ℕ) (input : FinalizeInput) (s : FileState fh)
      → (Repository.finalize fh in_session now input s).0 ≡ err cloudinary_error
      → ⊥
  unfolding Repository.finalize
  finalize-database_error in_session now input s h = ground arith

  pub record_final-cloud :
      (now : ℕ) (uuid : String → String) (params : FinalizeTemporaryAssetsParams) (a : FileAsset)
      → (url : Option String) (s : FileState fh)
      → (record_final fh now uuid params a url s).1.cloud ≡ s.cloud
  unfolding record_final
  record_final-cloud now uuid params a url s =
      ground (arith, finalize-cloud params.in_session now (final_input fh uuid params a url) s)

  record_final-database_error :
      (now : ℕ) (uuid : String → String) (params : FinalizeTemporaryAssetsParams) (a : FileAsset)
      → (url : Option String) (s : FileState fh)
      → (record_final fh now uuid params a url s).0 ≡ err cloudinary_error
      → ⊥
  unfolding record_final
  record_final-database_error now uuid params a url s h =
      ground
        (arith, finalize-database_error params.in_session now (final_input fh uuid params a url) s)

  -- the state between the rename and the write to the database
  abbrev pub between :
      (uuid : String → String)
      → FinalizeTemporaryAssetsParams
      → FileAsset
      → FileState fh
      → FileState fh
  between uuid params a s = record s {
    cloud = (cloud.rename a.public_id (final_public_id fh uuid params a) a.resource_type s.cloud).1;
  }

  roll_none : (c : cloud.State) → rollback_renamed_assets fh [] c ≡ c
  unfolding rollback_renamed_assets
  roll_none c = refl

  module _ (reliable : IsReliable cloud) (now : ℕ) (uuid : String → String)
      (params : FinalizeTemporaryAssetsParams) where
    abbrev final : FileAsset → String
    final a = final_public_id fh uuid params a

    refused_step :
        (a : FileAsset) (s : FileState fh)
        → (finalize_one fh now uuid params a s).0 ≡ err cloudinary_error
        → (finalize_one fh now uuid params a s).1.cloud ≡ s.cloud
    unfolding finalize_one
    refused_step a s h =
        elim (Option-cases (cloud.rename a.public_id (final a) a.resource_type s.cloud).0) [
          | inl none_e ↦
              ground (arith, reliable.refused a.public_id (final a) a.resource_type s.cloud none_e)
          | inr (url, some_e) ↦ absurd (
              ground (
                arith,
                record_final-database_error now uuid params a url (between uuid params a s),
              ))
        ]

    pub done_step :
        (a : FileAsset) (s : FileState fh) (item : FinalizedAssetItem) (renamed : List RenamedPair)
        → (finalize_one fh now uuid params a s).0 ≡ ok item
        → rollback_renamed_assets fh
            (renamed_pair fh uuid params a ∷ renamed)
            (finalize_one fh now uuid params a s).1.cloud
          ≡ rollback_renamed_assets fh renamed s.cloud
    unfolding finalize_one rollback_renamed_assets
    done_step a s item renamed h =
        elim (Option-cases (cloud.rename a.public_id (final a) a.resource_type s.cloud).0) [
          | inl none_e ↦ absurd (ground arith)
          | inr (url, some_e) ↦ ground (
            arith,
            record_final-cloud now uuid params a url (between uuid params a s),
            reliable.undone a.public_id (final a) a.resource_type s.cloud url some_e,
          )
        ]

    refused_each :
        (c : cloud.State) (assets : List FileAsset) (renamed : List RenamedPair) (s : FileState fh)
        → rollback_renamed_assets fh renamed s.cloud ≡ c
        → (finalize_each fh now uuid params renamed assets s).0 ≡ err cloudinary_error
        → (finalize_each fh now uuid params renamed assets s).1.cloud ≡ c
    unfolding finalize_each
    refused_each c [] renamed s h e = absurd (ground arith)
    refused_each c (a ∷ assets) renamed s h e =
        elim (Result-cases (finalize_one fh now uuid params a s).0) [
          | inl (item, done) ↦
              let next =
                refused_each c assets (renamed_pair fh uuid params a ∷ renamed)
                  (finalize_one fh now uuid params a s).1 (done_step a s item renamed done ∙ h) in
              ground arith
          | inr (x, failed) ↦ ground (arith, refused_step a s)
        ]

    refused_ids :
        (ids : List String) (s : FileState fh)
        → (finalize_ids fh now uuid params ids s).0 ≡ err cloudinary_error
        → (finalize_ids fh now uuid params ids s).1.cloud ≡ s.cloud
    unfolding finalize_ids
    refused_ids ids s h =
        let found = Repository.find_temporary_by_tenant_and_public_ids fh params.tenant_id ids s in
        ground (arith, refused_each s.cloud (in_order ids found) [] s (roll_none s.cloud))

    -- If finalizing temporary assets ends with a rename that Cloudinary refuses, every asset that was
    -- renamed before is renamed back: Cloudinary is left as the cleanup of expired assets left it. It
    -- is assumed that a refused rename changes nothing and that a rename back undoes a rename.
    pub refused_rename_undone :
        (tasks : String → String → Bool) (s : FileState fh)
        → (finalize_temporary_assets fh tasks now uuid params s).0 ≡ err cloudinary_error
        → (finalize_temporary_assets fh tasks now uuid params s).1.cloud
          ≡ (cleanup_expired_temporary_assets fh now default_cleanup_batch_size s).1.cloud
    unfolding finalize_temporary_assets assert_cloudinary_configured assert_task_exists_in_tenant
    refused_rename_undone tasks s h = ground (
      arith,
      refused_ids (unique (filled_items params.temporary_public_ids))
          (cleanup_expired_temporary_assets fh now default_cleanup_batch_size s).1,
    )
