-- ===== src/Files/Finalize/Stranded.antt =====
-- What a finalization leaves at Cloudinary when it fails at the metadata of an asset.
use saa_s_app_be.Prelude.{
  ℕ, String, ◌≡◌, refl, ap, sym, ◌∙◌, inl, inr, Option, some, List, [], ◌∷◌, ◌++◌, arith,
  Option-cases,
}
use saa_s_app_be.Action.{Exception, Result, ok, err, Result-cases}
use saa_s_app_be.Files.Cloud.{FileHost, IsReliable}
use saa_s_app_be.Files.Model.{
  FileAsset, FileState, FinalizeTemporaryAssetsParams, FinalizedAssetItem, cloudinary_error,
}
use saa_s_app_be.Files.Finalize.{
  record_final, RenamedPair, rollback_renamed_assets, final_public_id, renamed_pair, finalize_one,
  finalize_each, with_item,
}
use saa_s_app_be.Files.Finalize.Laws.{between, record_final-cloud, done_step}

with_item_refused :
    (fh : FileHost) (item : FinalizedAssetItem) (r : Result (List FinalizedAssetItem))
    (e : Exception)
    → with_item fh item r ≡ err e
    → r ≡ err e
with_item_refused fh item (ok items) e h = absurd (ground arith)
with_item_refused fh item (err x) e h = h

module _ (fh : FileHost) (uuid : String → String) (params : FinalizeTemporaryAssetsParams) where
  open fh use {cloud}

  -- the renames of some assets, the latest first, behind those before
  abbrev pub pairs_onto : List RenamedPair → List FileAsset → List RenamedPair
  pairs_onto renamed [] = renamed
  pairs_onto renamed (a ∷ assets) = pairs_onto (renamed_pair fh uuid params a ∷ renamed) assets

  -- `start` and `t` are Cloudinary before the renames and after the failure with `e`.
  pub record IsStranded (now : ℕ) (e : Exception) (renamed : List RenamedPair)
      (assets : List FileAsset) (start t : cloud.State) : Type 0 where
    -- the assets that were renamed, the one at which it failed, and the rest
    pub front : List FileAsset
    pub asset : FileAsset
    pub back : List FileAsset
    pub split : assets ≡ front ++ asset ∷ back
    -- the state before the rename of the asset
    pub s : FileState fh
    pub undone : rollback_renamed_assets fh (pairs_onto renamed front) s.cloud ≡ start
    pub url : Option String
    pub renames :
        (cloud.rename asset.public_id
          (final_public_id fh uuid params asset)
          asset.resource_type
          s.cloud).0
        ≡ some url
    pub unrecorded :
        (record_final fh now uuid params asset url (between fh uuid params asset s)).0 ≡ err e
    pub left :
        t
        ≡ rollback_renamed_assets fh
            (pairs_onto renamed front)
            (cloud.rename asset.public_id
              (final_public_id fh uuid params asset)
              asset.resource_type
              s.cloud).1

  each_done :
      (now : ℕ) (renamed : List RenamedPair) (a : FileAsset) (assets : List FileAsset)
      (s : FileState fh) (item : FinalizedAssetItem)
      → (finalize_one fh now uuid params a s).0 ≡ ok item
      → ((finalize_each fh now uuid params renamed (a ∷ assets) s).0
          ≡ with_item fh item
              (finalize_each fh now uuid params
                (renamed_pair fh uuid params a ∷ renamed)
                assets
                (finalize_one fh now uuid params a s).1).0)
        × ((finalize_each fh now uuid params renamed (a ∷ assets) s).1
            ≡ (finalize_each fh now uuid params
                (renamed_pair fh uuid params a ∷ renamed)
                assets
                (finalize_one fh now uuid params a s).1).1)
  unfolding finalize_each
  each_done now renamed a assets s item h = (ground arith, ground arith)

  each_refused :
      (now : ℕ) (renamed : List RenamedPair) (a : FileAsset) (assets : List FileAsset)
      (s : FileState fh) (x : Exception)
      → (finalize_one fh now uuid params a s).0 ≡ err x
      → ((finalize_each fh now uuid params renamed (a ∷ assets) s).0 ≡ err x)
        × ((finalize_each fh now uuid params renamed (a ∷ assets) s).1.cloud
            ≡ rollback_renamed_assets fh renamed (finalize_one fh now uuid params a s).1.cloud)
  unfolding finalize_each
  each_refused now renamed a assets s x h = (ground arith, ground arith)

  roll_none : (c : cloud.State) → rollback_renamed_assets fh [] c ≡ c
  unfolding rollback_renamed_assets
  roll_none c = refl

  module _ (reliable : IsReliable cloud) (now : ℕ) (e : Exception)
      (unlike : e ≡ cloudinary_error → ⊥) where
    unrecorded_step :
        (a : FileAsset) (s : FileState fh)
        → (finalize_one fh now uuid params a s).0 ≡ err e
        → (url : Option String) × ((cloud.rename a.public_id
              (final_public_id fh uuid params a)
              a.resource_type
              s.cloud).0
            ≡ some url)
          × ((record_final fh now uuid params a url (between fh uuid params a s)).0 ≡ err e)
          × ((finalize_one fh now uuid params a s).1.cloud
              ≡ (cloud.rename a.public_id
                  (final_public_id fh uuid params a)
                  a.resource_type
                  s.cloud).1)
    unfolding finalize_one
    unrecorded_step a s h =
        elim (Option-cases
          (cloud.rename a.public_id (final_public_id fh uuid params a) a.resource_type s.cloud).0) [
            | inl refused ↦ absurd (unlike (ground arith))
            | inr (url, renamed) ↦ (
              url,
              renamed,
              ground arith,
              ground
                  (arith, record_final-cloud fh now uuid params a url (between fh uuid params a s)),
            )
          ]

    each-IsStranded :
        (start : cloud.State) (assets : List FileAsset) (renamed : List RenamedPair)
        (s : FileState fh)
        → rollback_renamed_assets fh renamed s.cloud ≡ start
        → (finalize_each fh now uuid params renamed assets s).0 ≡ err e
        → IsStranded now e renamed assets start
            (finalize_each fh now uuid params renamed assets s).1.cloud
    unfolding finalize_each
    each-IsStranded start [] renamed s h refused = absurd (ground arith)
    each-IsStranded start (a ∷ assets) renamed s h refused =
        elim (Result-cases (finalize_one fh now uuid params a s).0) [
          | inl (item, done) ↦
              let s' = (finalize_one fh now uuid params a s).1 in
              let pairs = renamed_pair fh uuid params a ∷ renamed in
              let rest = finalize_each fh now uuid params pairs assets s' in
              let (answer, stays) = each_done now renamed a assets s item done in
              let failed : rest.0 ≡ err e =
                with_item_refused fh item rest.0 e (sym answer ∙ refused) in
              let next =
                each-IsStranded start assets pairs s'
                  (done_step fh reliable now uuid params a s item renamed done ∙ h) failed in
              record {
                front = a ∷ next.front;
                asset = next.asset;
                back = next.back;
                split = ap (λ r. a ∷ r) next.split;
                s = next.s;
                undone = next.undone;
                url = next.url;
                renames = next.renames;
                unrecorded = next.unrecorded;
                left = ap (λ r. r.cloud) stays ∙ next.left;
              }
          | inr (x, failed) ↦
              let (answer, rolled) = each_refused now renamed a assets s x failed in
              let same : x ≡ e = ground arith in
              let (url, renames, unrecorded, after) = unrecorded_step a s (failed ∙ ap err same) in
              record {
                front = [];
                asset = a;
                back = assets;
                split = refl;
                s = s;
                undone = h;
                url = url;
                renames = renames;
                unrecorded = unrecorded;
                left = rolled ∙ ap (rollback_renamed_assets fh renamed) after;
              }
        ]

    -- When the loop over the assets ends with an error that is not a refusal of Cloudinary, the
    -- metadata of one of the assets could not be written after its rename. The assets in front of it
    -- are renamed back, the latest first, but it is not: Cloudinary is left as the renames back leave
    -- it after the rename of that asset, where without this rename they would undo everything. It is
    -- assumed that a refused rename changes nothing and that a rename back undoes a rename.
    pub finalize_each-IsStranded :
        (assets : List FileAsset) (s : FileState fh)
        → (finalize_each fh now uuid params [] assets s).0 ≡ err e
        → IsStranded now e [] assets s.cloud (finalize_each fh now uuid params [] assets s).1.cloud
    finalize_each-IsStranded assets s refused =
        each-IsStranded s.cloud assets [] s (roll_none s.cloud) refused
