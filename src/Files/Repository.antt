-- ===== src/Files/Repository.antt =====
-- file/repositories/file-asset.repository.ts.
use saa_s_app_be.Prelude.{
  ℕ, zero, suc, is_nil, ◌+◌, String, ◌==◌, Bool, true, false, not, ◌&&◌, Option, none, some, List,
  [], ◌∷◌, leb, is_some, length, or_default, if◌then◌else◌,
}
use saa_s_app_be.Action.{Action, ok, err}
use saa_s_app_be.Lists.{has}
use saa_s_app_be.Files.Cloud.{FileHost}
use saa_s_app_be.Files.Model.{
  FileAsset, FileUploadStage, FileState, is_temporary, is_finalized, duplicate_key,
}

-- `{ tenantId, publicId }`
abbrev pub is_asset : (tenant_id public_id : String) → FileAsset → Bool
is_asset tenant_id public_id a = (a.tenant_id == tenant_id) && (a.public_id == public_id)

-- `{ tenantId, uploadStage: 'TEMPORARY', publicId: { $in: publicIds } }`
abbrev pub is_temporary_of : String → List String → FileAsset → Bool
is_temporary_of tenant_id public_ids a =
    (a.tenant_id == tenant_id) && (is_temporary a.upload_stage && has a.public_id public_ids)

abbrev reached : Option ℕ → ℕ → Bool
reached none now = false
reached (some at) now = leb at now

-- `{ uploadStage: 'TEMPORARY', expiresAt: { $ne: null, $lte: now } }`
abbrev pub is_expired_temporary : ℕ → FileAsset → Bool
is_expired_temporary now a = is_temporary a.upload_stage && reached a.expires_at now

-- `{ tenantId, uploadStage: 'FINALIZED' }`
abbrev pub is_finalized_of : String → FileAsset → Bool
is_finalized_of tenant_id a = (a.tenant_id == tenant_id) && is_finalized a.upload_stage

abbrev total_bytes : List FileAsset → ℕ
total_bytes [] = 0
total_bytes (a ∷ assets) = or_default a.bytes 0 + total_bytes assets

insert_by_expiry : FileAsset → List FileAsset → List FileAsset
insert_by_expiry a [] = a ∷ []
insert_by_expiry a (b ∷ bs) =
    let rest = insert_by_expiry a bs in
    if leb (or_default a.expires_at 0) (or_default b.expires_at 0) then a ∷ b ∷ bs else b ∷ rest

-- `.sort({ expiresAt: 1 })`
unfoldable pub sort_by_expiry : List FileAsset → List FileAsset
unfolding insert_by_expiry
sort_by_expiry [] = []
sort_by_expiry (a ∷ assets) = insert_by_expiry a (sort_by_expiry assets)

-- `.limit(n)`
unfoldable pub take : ℕ → List FileAsset → List FileAsset
take n [] = []
take zero (a ∷ assets) = []
take (suc n) (a ∷ assets) = a ∷ take n assets

-- `FinalizeFileAssetRecordInput`
pub record FinalizeInput : Type 0 where
  pub tenant_id : String
  pub previous_public_id : String
  pub public_id : String
  pub secure_url : String
  pub task_id : String

-- the `$set` of `finalize`
abbrev pub set_final : ℕ → FinalizeInput → FileAsset → FileAsset
set_final now input a = record a {
  public_id = input.public_id;
  storage_key = input.public_id;
  secure_url = input.secure_url;
  upload_stage = FileUploadStage.finalized;
  task_id = some input.task_id;
  expires_at = none;
  finalized_at = some now;
}

abbrev any_asset : FileAsset → Bool
any_asset a = true

module _ (fh : FileHost) where
  open fh use {host, cloud}
  open host use {mongo}
  open mongo use {Coll, find_where, find_many, insert, update_one, delete_one}

  abbrev write_both : (Coll FileAsset → Coll FileAsset) → FileState fh → FileState fh
  write_both f s = record s { assets = f s.assets; committed = f s.committed }

  abbrev write_in : Bool → (Coll FileAsset → Coll FileAsset) → FileState fh → FileState fh
  write_in true f s = record s { assets = f s.assets }
  write_in false f s = write_both f s

  unfoldable pub find_by_tenant_and_public_id :
      (tenant_id public_id : String) → FileState fh → Option FileAsset
  find_by_tenant_and_public_id tenant_id public_id s =
      find_where (is_asset tenant_id public_id) s.assets

  -- `create`, which the service calls without a session; the unique index refuses a second document
  unfoldable pub create : FileAsset → Action (FileState fh) FileAsset
  unfolding find_by_tenant_and_public_id
  create a s =
      if is_some (find_by_tenant_and_public_id a.tenant_id a.public_id s)
      then (err duplicate_key, s)
      else (ok a, write_both (λ c. (insert a.id a c).0) s)

  -- `deleteByTenantAndPublicId` without a session: whether a document was deleted
  unfoldable pub delete_by_tenant_and_public_id :
      (tenant_id public_id : String) → FileState fh → Bool × FileState fh
  delete_by_tenant_and_public_id tenant_id public_id s =
      elim (find_where (is_asset tenant_id public_id) s.committed) [
        | none ↦ (false, s)
        | some a ↦ (true, write_both (delete_one a.id) s)
      ]

  -- whether the unique index refuses the new public id
  abbrev taken : FinalizeInput → FileState fh → Bool
  taken input s =
      is_some (find_by_tenant_and_public_id input.tenant_id input.public_id s)
      && not (input.public_id == input.previous_public_id)

  unfoldable pub finalize :
      (in_session : Bool) (now : ℕ) → FinalizeInput → Action (FileState fh) (Option FileAsset)
  finalize in_session now input s =
      elim (find_where
        (λ a. is_asset input.tenant_id input.previous_public_id a && is_temporary a.upload_stage)
        s.assets) [
          | none ↦ (ok none, s)
          | some a ↦ if taken input s then (err duplicate_key, s) else (
            ok (some (set_final now input a)),
            write_in in_session (λ c. (update_one a.id any_asset (set_final now input) c).0) s,
          )
        ]

  unfoldable pub find_temporary_by_tenant_and_public_ids :
      String → List String → FileState fh → List FileAsset
  find_temporary_by_tenant_and_public_ids tenant_id public_ids s =
      if is_nil public_ids then [] else find_many (is_temporary_of tenant_id public_ids) s.assets

  -- `findExpiredTemporaryAssets`, which is never called with a session
  unfoldable pub find_expired_temporary_assets : (now limit : ℕ) → FileState fh → List FileAsset
  unfolding sort_by_expiry take
  find_expired_temporary_assets now limit s =
      take limit (sort_by_expiry (find_many (is_expired_temporary now) s.committed))

  unfoldable pub count_finalized_by_tenant : String → FileState fh → ℕ
  count_finalized_by_tenant tenant_id s = length (find_many (is_finalized_of tenant_id) s.assets)

  unfoldable pub sum_finalized_bytes_by_tenant : String → FileState fh → ℕ
  sum_finalized_bytes_by_tenant tenant_id s =
      total_bytes (find_many (is_finalized_of tenant_id) s.assets)
