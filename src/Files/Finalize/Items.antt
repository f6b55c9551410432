-- ===== src/Files/Finalize/Items.antt =====
-- The assets that a finalization returns.
use saa_s_app_be.Prelude.{
  ℕ, Bool, String, ◌==◌, ◌≡◌, refl, ◌∙◌, inl, inr, none, some, List, [], ◌∷◌, ◌++◌, true, arith,
  ◌&&◌, is_nil, eq_iff, Option-cases, Bool-cases,
}
use saa_s_app_be.Action.{ok}
use saa_s_app_be.Mongo.{All}
use saa_s_app_be.Lists.{has, unique, filled_items}
use saa_s_app_be.Lists.Laws.{has-unique, has-filled_items}
use saa_s_app_be.Files.Cloud.{FileHost}
use saa_s_app_be.Files.Names.{
  get_tenant_temp_folder, is_tenant_scoped_public_id, build_final_scoped_public_id,
  assert_cloudinary_configured, assert_task_exists_in_tenant, default_cleanup_batch_size,
}
use saa_s_app_be.Files.Cleanup.{cleanup_expired_temporary_assets}
use saa_s_app_be.Files.Model.{
  FileAsset, FileUploadStage, FileState, FinalizeTemporaryAssetsParams, FinalizedAssetItem,
}
use saa_s_app_be.Files.Repository
use saa_s_app_be.Files.Repository.{
  is_asset, is_temporary_of, find_temporary_by_tenant_and_public_ids,
}
use saa_s_app_be.Files.Finalize.{
  find_invalid, in_order, with_public_id, final_public_id, renamed_pair, RenamedPair, record_final,
  finalize_one, finalize_each, finalize_ids, finalize_temporary_assets,
}

-- whether an asset has one of the ids, all of which lie in the folder
abbrev fits : (folder : String) → List String → FileAsset → Bool
fits folder ids a = has a.public_id ids && is_tenant_scoped_public_id folder a.public_id

module _ (P : FileAsset → Type 0) where
  with_public_id-All : (x : String) (xs : List FileAsset) → All P xs → All P (with_public_id x xs)
  with_public_id-All x [] h = tt
  with_public_id-All x (a ∷ assets) h = elim (Bool-cases (a.public_id == x)) [
    | inl same ↦ rw same (h.0, with_public_id-All x assets h.1)
    | inr other ↦ rw other (with_public_id-All x assets h.1)
  ]

  All-append : (xs ys : List FileAsset) → All P xs → All P ys → All P (xs ++ ys)
  All-append [] ys h k = k
  All-append (x ∷ xs) ys h k = (h.0, All-append xs ys h.1 k)

  in_order-All : (ids : List String) (xs : List FileAsset) → All P xs → All P (in_order ids xs)
  unfolding in_order
  in_order-All [] xs h = tt
  in_order-All (x ∷ ids) xs h =
      All-append (with_public_id x xs) (in_order ids xs) (with_public_id-All x xs h)
        (in_order-All ids xs h)

  All-imp :
      (Q : FileAsset → Type 0) (xs : List FileAsset)
      → ((a : FileAsset) → P a → Q a)
      → All P xs
      → All Q xs
  All-imp Q [] h k = tt
  All-imp Q (x ∷ xs) h k = (h x k.0, All-imp Q xs h k.1)

find_invalid-has :
    (folder : String) (ids : List String) (x : String)
    → find_invalid folder ids ≡ some x
    → has x ids ≡ true
unfolding find_invalid
find_invalid-has folder [] x h = absurd (ground arith)
find_invalid-has folder (y ∷ ids) x h = ground (arith, find_invalid-has folder ids x, eq_iff y x)

find_invalid-none :
    (folder : String) (ids : List String) (x : String)
    → find_invalid folder ids ≡ none
    → has x ids ≡ true
    → is_tenant_scoped_public_id folder x ≡ true
unfolding find_invalid
find_invalid-none folder [] x h k = absurd (ground arith)
find_invalid-none folder (y ∷ ids) x h k =
    ground (arith, find_invalid-none folder ids x, eq_iff y x)

module _ (fh : FileHost) where
  -- What is returned of one asset: it was asked for, lay in the tenant's temporary folder and got its
  -- place under the tenant, the scope and the task.
  pub record IsFinalized (uuid : String → String) (params : FinalizeTemporaryAssetsParams)
      (item : FinalizedAssetItem) : Type 0 where
    pub asked : has item.previous_public_id (filled_items params.temporary_public_ids) ≡ true
    pub scoped :
        is_tenant_scoped_public_id (get_tenant_temp_folder params.tenant_id) item.previous_public_id
        ≡ true
    pub placed :
        item.public_id
        ≡ build_final_scoped_public_id fh params.tenant_id params.scope params.task_id
            item.previous_public_id
            (uuid item.previous_public_id)
    pub stage : item.upload_stage ≡ FileUploadStage.finalized

  module _ (now : ℕ) (uuid : String → String) (params : FinalizeTemporaryAssetsParams) where
    abbrev may_finalize : FileAsset → Bool
    may_finalize =
        fits (get_tenant_temp_folder params.tenant_id) (filled_items params.temporary_public_ids)

    one-IsFinalized :
        (a : FileAsset) (s : FileState fh) (item : FinalizedAssetItem)
        → may_finalize a ≡ true
        → (finalize_one fh now uuid params a s).0 ≡ ok item
        → IsFinalized uuid params item
    unfolding finalize_one record_final Repository.finalize
    one-IsFinalized a s item h e =
        let previous : item.previous_public_id ≡ a.public_id = ground arith in
        let placed : item.public_id ≡ final_public_id fh uuid params a = ground arith in
        record {
          asked = ground arith;
          scoped = ground arith;
          placed = placed ∙ (rw previous refl);
          stage = ground arith;
        }

    each-IsFinalized :
        (renamed : List RenamedPair) (assets : List FileAsset) (s : FileState fh)
        → (items : List FinalizedAssetItem) → All (λ a. may_finalize a ≡ true) assets
        → (finalize_each fh now uuid params renamed assets s).0 ≡ ok items
        → All (IsFinalized uuid params) items
    unfolding finalize_each
    each-IsFinalized renamed [] s [] h e = tt
    each-IsFinalized renamed [] s (i ∷ items) h e = absurd (ground arith)
    each-IsFinalized renamed (a ∷ assets) s [] h e = absurd (ground arith)
    each-IsFinalized renamed (a ∷ assets) s (i ∷ items) h e =
        let s' = (finalize_one fh now uuid params a s).1 in
        (
          one-IsFinalized a s i h.0 (ground arith),
          each-IsFinalized (renamed_pair fh uuid params a ∷ renamed) assets s' items h.1
              (ground arith),
        )

    listed_fit :
        (ids : List String) (s : FileState fh)
        → All
            (λ a. is_temporary_of params.tenant_id ids a ≡ true)
            (find_temporary_by_tenant_and_public_ids fh params.tenant_id ids s)
    unfolding find_temporary_by_tenant_and_public_ids
    listed_fit [] s = tt
    listed_fit (x ∷ ids) s =
        fh.host.mongo.find_many_fits (is_temporary_of params.tenant_id (x ∷ ids)) s.assets

    ids-IsFinalized :
        (s : FileState fh) (items : List FinalizedAssetItem)
        → (finalize_ids fh now uuid params (unique (filled_items params.temporary_public_ids)) s).0
          ≡ ok items
        → All (IsFinalized uuid params) items
    unfolding finalize_ids
    ids-IsFinalized s items e =
        let filled = filled_items params.temporary_public_ids in
        let ids = unique filled in
        let folder = get_tenant_temp_folder params.tenant_id in
        let found = find_temporary_by_tenant_and_public_ids fh params.tenant_id ids s in
        let no_blank = has-filled_items params.temporary_public_ids in
        let invalid : find_invalid folder ids ≡ none =
          elim (Option-cases (find_invalid folder ids)) [
            | inl fine ↦ fine
            | inr (x, bad) ↦ absurd (
                ground (
                  arith,
                  find_invalid-has folder ids x bad,
                  has-unique x filled,
                  eq_iff x "",
                  rw bad at e,
                ))
          ] in
        let listed : All (λ a. is_temporary_of params.tenant_id ids a ≡ true) found =
          listed_fit ids s in
        let may : All (λ a. may_finalize a ≡ true) (in_order ids found) =
          in_order-All (λ a. may_finalize a ≡ true) ids found
            (All-imp (λ a. is_temporary_of params.tenant_id ids a ≡ true)
              (λ a. may_finalize a ≡ true) found
              (λ a h. ground (
                arith,
                has-unique a.public_id filled,
                find_invalid-none folder ids a.public_id invalid,
              ))
              listed) in
        each-IsFinalized [] (in_order ids found) s items may (ground arith)

    -- Every asset that a finalization returns was asked for, lay in the temporary folder of the
    -- tenant, has the public id that belongs to it under the tenant, the scope and the task, and is
    -- finalized.
    pub finalize_temporary_assets-IsFinalized :
        (tasks : String → String → Bool) (s : FileState fh) (items : List FinalizedAssetItem)
        → (finalize_temporary_assets fh tasks now uuid params s).0 ≡ ok items
        → All (IsFinalized uuid params) items
    unfolding finalize_temporary_assets assert_cloudinary_configured assert_task_exists_in_tenant
    finalize_temporary_assets-IsFinalized tasks s items e =
        let ids = unique (filled_items params.temporary_public_ids) in
        let s' = (cleanup_expired_temporary_assets fh now default_cleanup_batch_size s).1 in
        elim (Bool-cases (is_nil ids)) [
          | inl nothing ↦ let none_left : items ≡ [] = ground arith in rw none_left tt
          | inr some_left ↦ ids-IsFinalized s' items (ground arith)
        ]

    -- Without an identifier nothing is finalized.
    pub nothing_finalized :
        (tasks : String → String → Bool) (s : FileState fh) (items : List FinalizedAssetItem)
        → params.temporary_public_ids ≡ []
        → (finalize_temporary_assets fh tasks now uuid params s).0 ≡ ok items
        → items ≡ []
    unfolding finalize_temporary_assets assert_cloudinary_configured assert_task_exists_in_tenant
        unique filled_items
    nothing_finalized tasks s items none_given e = ground arith
