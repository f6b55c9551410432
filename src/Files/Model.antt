-- ===== src/Files/Model.antt =====
-- file/schemas/file-asset.schema.ts and the transfer objects of file.service.ts.
use saa_s_app_be.Prelude.{ℕ, String, Bool, true, false, Option, List}
use saa_s_app_be.Action.{Exception, plain, text}
use saa_s_app_be.Billing.{Catalog}
use saa_s_app_be.Files.Cloud.{FileHost}

pub data FileUploadStage : Type 0 where
  temporary finalized : FileUploadStage

abbrev pub is_temporary : FileUploadStage → Bool
is_temporary FileUploadStage.temporary = true
is_temporary FileUploadStage.finalized = false

abbrev pub is_finalized : FileUploadStage → Bool
is_finalized FileUploadStage.temporary = false
is_finalized FileUploadStage.finalized = true

-- A document of `file_assets`. Dates are milliseconds.
pub record FileAsset : Type 0 where
  pub id : String
  pub tenant_id : String
  pub storage_key : String
  pub public_id : String
  pub secure_url : String
  pub resource_type : String
  pub format : Option String
  pub bytes : Option ℕ
  pub mime_type : String
  pub upload_stage : FileUploadStage
  pub task_id : Option String
  pub expires_at : Option ℕ
  pub finalized_at : Option ℕ

-- `RegisterFileAssetDto`
pub record RegisterFileAssetDto : Type 0 where
  pub public_id : String
  pub secure_url : String
  pub resource_type : String
  pub format : Option String
  pub bytes : Option ℕ
  pub mime_type : String
  pub task_id : Option String

-- `CreateUploadSignatureDto`
pub record CreateUploadSignatureDto : Type 0 where
  pub mime_type : String
  pub resource_type : Option String
  pub task_id : Option String

-- The answer of `createUploadSignature`.
pub record UploadSignature : Type 0 where
  pub cloud_name : String
  pub api_key : String
  pub timestamp : ℕ
  pub signature : String
  pub folder : String
  pub public_id : String
  pub resource_type : String
  pub allowed_formats : List String
  pub expires_at : ℕ

-- `FinalizeTemporaryAssetsParams`; `in_session` says whether a transaction is passed
pub record FinalizeTemporaryAssetsParams : Type 0 where
  pub tenant_id : String
  pub task_id : String
  pub temporary_public_ids : List String
  pub scope : String
  pub in_session : Bool

-- `FinalizedAssetItem`
pub record FinalizedAssetItem : Type 0 where
  pub previous_public_id : String
  pub public_id : String
  pub secure_url : String
  pub upload_stage : FileUploadStage

-- `UploadedFile` of multer: the fields that the service reads
pub record UploadedFile : Type 0 where
  pub buffer : String
  pub size : ℕ
  pub mime_type : String

-- what `uploadBufferToCloudinary` returns
pub record Uploaded : Type 0 where
  pub public_id : String
  pub secure_url : String
  pub resource_type : String
  pub format : Option String
  pub bytes : Option ℕ

-- an asset behind `uploadViaApiForTesting`
pub record UploadResult : Type 0 where
  pub public_id : String
  pub secure_url : String
  pub mime_type : String
  pub upload_stage : FileUploadStage
  pub task_id : Option String
  pub finalized : Bool
  pub expires_at : Option ℕ

-- What the file service reads and writes. `assets` is the collection as the caller's transaction sees
-- it, `committed` as the others do; outside of a transaction both are the same. A write without a
-- session goes to both, one in a session to `assets` only.
pub record FileState (fh : FileHost) : Type 0 where
  pub catalog : Catalog fh.host
  pub assets : fh.host.mongo.Coll FileAsset
  pub committed : fh.host.mongo.Coll FileAsset
  pub cloud : fh.cloud.State

-- the rejection of a promise of Cloudinary's SDK
abbrev pub cloudinary_error : Exception
cloudinary_error = Exception.remote (text "Cloudinary")

-- the server's refusal of a second (tenantId, publicId)
abbrev pub duplicate_key : Exception
duplicate_key = plain (text "E11000 duplicate key error")
