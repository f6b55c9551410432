-- ===== src/Files/Finalize.antt =====
-- file/file.service.ts: temporary assets become assets of a task. They are renamed one by one at
-- Cloudinary, and a failure renames those before it back.
pub mod Laws
pub mod Stranded
pub mod Items
use saa_s_app_be.Prelude.{
  ℕ, is_nil, String, ◌==◌, Bool, true, false, not, Option, none, some, List, [], ◌∷◌, ◌++◌, map,
  ltb, eqb, length, or_default, is_empty, if◌then◌else◌,
}
use saa_s_app_be.Action.{
  Result, Action, ok, err, internal, bad_request, not_found, text, about, pure, throw, gets,
  throw_if, ◌>>=◌, ◌>>◌,
}
use saa_s_app_be.Lists.{unique, filled_items}
use saa_s_app_be.Files.Cloud.{FileHost}
use saa_s_app_be.Files.Model.{
  FileAsset, FileState, FinalizeTemporaryAssetsParams, FinalizedAssetItem, cloudinary_error,
}
use saa_s_app_be.Files.Repository
use saa_s_app_be.Files.Names.{
  default_cleanup_batch_size, get_tenant_temp_folder, is_tenant_scoped_public_id,
  assert_cloudinary_configured, build_final_scoped_public_id, assert_task_exists_in_tenant,
}
use saa_s_app_be.Files.Cleanup.{cleanup_expired_temporary_assets}

-- an entry of `renamedPairs`
pub record RenamedPair : Type 0 where
  pub from : String
  pub to : String
  pub resource_type : String

-- `uniquePublicIds.find(...)`
unfoldable pub find_invalid : (temp_folder : String) → List String → Option String
find_invalid temp_folder [] = none
find_invalid temp_folder (x ∷ xs) =
    let rest = find_invalid temp_folder xs in
    if is_tenant_scoped_public_id temp_folder x then rest else some x

abbrev expired : (now : ℕ) → Option ℕ → Bool
expired now none = false
expired now (some at) = ltb at now

unfoldable pub find_expired : (now : ℕ) → List FileAsset → Option FileAsset
find_expired now [] = none
find_expired now (a ∷ assets) =
    let rest = find_expired now assets in if expired now a.expires_at then some a else rest

abbrev with_public_id : String → List FileAsset → List FileAsset
with_public_id x [] = []
with_public_id x (a ∷ assets) =
    let rest = with_public_id x assets in if a.public_id == x then a ∷ rest else rest

-- `temporaryAssets.sort` by the index of the public id: the sort is stable and every asset has one of
-- the ids
unfoldable pub in_order : List String → List FileAsset → List FileAsset
in_order [] assets = []
in_order (x ∷ xs) assets = with_public_id x assets ++ in_order xs assets

module _ (fh : FileHost) where
  open fh use {cloud}

  -- `rollbackRenamedAssets`, the latest pair first; a failure is logged and skipped
  unfoldable pub rollback_renamed_assets : List RenamedPair → cloud.State → cloud.State
  rollback_renamed_assets [] c = c
  rollback_renamed_assets (p ∷ ps) c =
      rollback_renamed_assets ps (cloud.rename p.to p.from p.resource_type c).1

  -- what an asset is renamed to; `uuid` is the UUID drawn for it
  abbrev pub final_public_id :
      (uuid : String → String) → FinalizeTemporaryAssetsParams → FileAsset → String
  final_public_id uuid params a =
      build_final_scoped_public_id fh params.tenant_id params.scope params.task_id a.public_id
        (uuid a.public_id)

  abbrev finalized_item :
      (previous_public_id : String) → Option FileAsset → Action (FileState fh) FinalizedAssetItem
  finalized_item previous none =
      throw (internal (about "Metadata finalize failed for asset" previous))
  finalized_item previous (some f) = pure (record {
    previous_public_id = previous;
    public_id = f.public_id;
    secure_url = f.secure_url;
    upload_stage = f.upload_stage;
  })

  abbrev pub final_input :
      (uuid : String → String)
      → FinalizeTemporaryAssetsParams
      → FileAsset
      → Option String
      → Repository.FinalizeInput
  final_input uuid params a secure_url = record {
    tenant_id = params.tenant_id;
    previous_public_id = a.public_id;
    public_id = final_public_id uuid params a;
    secure_url = or_default secure_url a.secure_url;
    task_id = params.task_id;
  }

  -- the metadata of an asset that was renamed
  unfoldable pub record_final :
      (now : ℕ) (uuid : String → String)
      → FinalizeTemporaryAssetsParams
      → FileAsset
      → (secure_url : Option String) → Action (FileState fh) FinalizedAssetItem
  record_final now uuid params a secure_url = do
    finalized ← Repository.finalize fh params.in_session now (final_input uuid params a secure_url)
    finalized_item a.public_id finalized

  -- the body of the loop up to the two `push` calls
  unfoldable pub finalize_one :
      (now : ℕ) (uuid : String → String)
      → FinalizeTemporaryAssetsParams
      → FileAsset
      → Action (FileState fh) FinalizedAssetItem
  unfolding record_final
  finalize_one now uuid params a s =
      let (response, c) =
        cloud.rename a.public_id (final_public_id uuid params a) a.resource_type s.cloud in
      let s' : FileState fh = record s { cloud = c } in
      elim response [
        | none ↦ (err cloudinary_error, s')
        | some secure_url ↦ record_final now uuid params a secure_url s'
      ]

  abbrev pub renamed_pair :
      (uuid : String → String) → FinalizeTemporaryAssetsParams → FileAsset → RenamedPair
  renamed_pair uuid params a = record {
    from = a.public_id;
    to = final_public_id uuid params a;
    resource_type = a.resource_type;
  }

  abbrev pub with_item :
      FinalizedAssetItem → Result (List FinalizedAssetItem) → Result (List FinalizedAssetItem)
  with_item i (ok items) = ok (i ∷ items)
  with_item i (err e) = err e

  -- The loop with its `catch`. `renamed` is `renamedPairs`, the latest first.
  unfoldable pub finalize_each :
      (now : ℕ) (uuid : String → String)
      → FinalizeTemporaryAssetsParams
      → (renamed : List RenamedPair) → List FileAsset
      → Action (FileState fh) (List FinalizedAssetItem)
  finalize_each now uuid params renamed [] s = (ok [], s)
  finalize_each now uuid params renamed (a ∷ assets) s =
      let (r, s') = finalize_one now uuid params a s in
      let (rest, s'') =
        finalize_each now uuid params (renamed_pair uuid params a ∷ renamed) assets s' in
      elim r [
        | err e ↦ (err e, record s' { cloud = rollback_renamed_assets renamed s'.cloud })
        | ok item ↦ (with_item item rest, s'')
      ]

  abbrev reject_invalid : Option String → Action (FileState fh) Unit
  reject_invalid none = pure tt
  reject_invalid (some x) =
      throw_if (not (is_empty x))
        (bad_request (about "Temporary asset is outside tenant temp folder" x))

  abbrev reject_expired : Option FileAsset → Action (FileState fh) Unit
  reject_expired none = pure tt
  reject_expired (some a) =
      throw (bad_request (about "Temporary asset expired. Upload again." a.public_id))

  -- behind the test for an empty list
  unfoldable pub finalize_ids :
      (now : ℕ) (uuid : String → String)
      → FinalizeTemporaryAssetsParams
      → (unique_public_ids : List String) → Action (FileState fh) (List FinalizedAssetItem)
  unfolding finalize_each find_invalid find_expired in_order
  finalize_ids now uuid params ids = do
    reject_invalid (find_invalid (get_tenant_temp_folder params.tenant_id) ids)
    found ← gets (Repository.find_temporary_by_tenant_and_public_ids fh params.tenant_id ids)
    throw_if (not (eqb (length found) (length ids)))
        (not_found (text "One or more temporary assets were not found"))
    reject_expired (find_expired now found)
    finalize_each now uuid params [] (in_order ids found)

  unfoldable pub finalize_temporary_assets :
      (tasks : String → String → Bool) (now : ℕ) (uuid : String → String)
      → FinalizeTemporaryAssetsParams
      → Action (FileState fh) (List FinalizedAssetItem)
  unfolding finalize_ids
  finalize_temporary_assets tasks now uuid params = do
    assert_cloudinary_configured fh
    cleanup_expired_temporary_assets fh now default_cleanup_batch_size
    assert_task_exists_in_tenant fh tasks params.tenant_id params.task_id
    let ids = unique (filled_items params.temporary_public_ids)
    if is_nil ids then pure [] else finalize_ids now uuid params ids
