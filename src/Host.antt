-- ===== src/Host.antt =====
-- What the services take from outside the repository: the database driver, Node's crypto, bcrypt,
-- otplib, the QR code writer, the JWT signer, the identifiers of MongoDB and the environment.
pub mod Sample
use saa_s_app_be.Prelude.{ℕ, ◌<◌, String, ◌≡◌, Bool, true, Option, none, some}
use saa_s_app_be.Mongo.{Driver}
use saa_s_app_be.Crypto.{NodeCrypto}

pub data Role : Type 0 where
  admin member : Role

-- `JwtAccessPayload` as it is signed; `type` is always `access`.
pub record AccessClaims : Type 0 where
  pub sub : String
  pub email : String
  pub tenant_id : String
  pub platform_admin : Bool
  pub tenant_role : Option Role

pub record Host : Type 1 where
  pub mongo : Driver
  pub node : NodeCrypto
  -- `Types.ObjectId.isValid`
  pub is_object_id : String → Bool
  -- `ConfigService.get`
  pub config : String → Option String
  -- the Unicode tables of `toLowerCase`
  pub lower_case : String → String
  -- bcrypt with the salt that it draws
  pub bcrypt_hash : (salt : ℕ) → String → String
  pub bcrypt_compare : String → String → Bool
  pub compare-hash : (salt : ℕ) (s : String) → bcrypt_compare s (bcrypt_hash salt s) ≡ true
  -- otplib's `verify`: the time step of a valid code. `none` is an invalid code or an exception,
  -- which `TotpService.verify` catches.
  pub otp_verify : (secret token : String) (now : ℕ) (after_time_step : Option ℕ) → Option ℕ
  -- its option `afterTimeStep` rejects the steps up to that one
  pub otp_after :
      (secret token : String) (now last step : ℕ)
      → otp_verify secret token now (some last) ≡ some step
      → last < step
  pub otp_uri : (issuer label secret : String) → String
  pub qr_data_url : String → String
  -- `JwtService.signAsync` under the configured secret and lifetime
  pub sign_access_token : AccessClaims → (now : ℕ) → String
