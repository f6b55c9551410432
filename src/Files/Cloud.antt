-- ===== src/Files/Cloud.antt =====
-- Cloudinary as src/file calls it: its SDK and its servers are not code of this repository.
use saa_s_app_be.Prelude.{ℕ, String, ◌≡◌, Option, none, some}
use saa_s_app_be.Host.{Host}

-- The fields that `uploadBufferToCloudinary` reads of a response, when they have the wanted type.
pub record UploadResponse : Type 0 where
  pub public_id : Option String
  pub secure_url : Option String
  pub resource_type : Option String
  pub format : Option String
  pub bytes : Option ℕ

pub record Cloud : Type 1 where
  pub State : Type 0
  -- `uploader.rename` without `overwrite`: `none` is a rejected promise, else the text in `secure_url`
  pub rename : (from to resource_type : String) → State → Option (Option String) × State
  -- `uploader.destroy`: `none` is a rejected promise, else the text in `result`
  pub destroy : (public_id resource_type : String) → State → Option (Option String) × State
  -- `uploader.upload_stream`: `none` is a rejected promise, `some none` a response that is no object
  pub upload :
      (buffer public_id resource_type : String) → State → Option (Option UploadResponse) × State
  -- `utils.api_sign_request`
  pub sign_request : (public_id : String) (timestamp : ℕ) (secret : String) → String

-- An integer, as `Math.floor` returns it for a finite number; `negsuc n` is -(n + 1).
pub data ℤ : Type 0 where
  pos negsuc : ℕ → ℤ

pub record FileHost : Type 1 where
  pub host : Host
  pub cloud : Cloud
  -- `Math.floor(Number(raw))`, and `none` when `Number(raw)` is not finite
  pub floor_number : String → Option ℤ

-- Cloudinary as documented: a refused rename changes nothing, and a rename back undoes one that was
-- carried out.
pub record IsReliable (cloud : Cloud) : Type 0 where
  pub refused :
      (from to kind : String) (c : cloud.State)
      → (cloud.rename from to kind c).0 ≡ none
      → (cloud.rename from to kind c).1 ≡ c
  pub undone :
      (from to kind : String) (c : cloud.State) (url : Option String)
      → (cloud.rename from to kind c).0 ≡ some url
      → (cloud.rename to from kind (cloud.rename from to kind c).1).1 ≡ c
