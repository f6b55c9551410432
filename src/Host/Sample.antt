-- ===== src/Host/Sample.antt =====
-- A concrete host, which shows that the laws of `Host` can hold together.
use Prim.Native.String.{◌++◌}
use saa_s_app_be.Prelude.{
  ℕ, ◌<◌, String, ◌≡◌, true, Option, none, some, arith, ◌==◌, eq_refl, ltb, if◌then◌else◌,
}
use saa_s_app_be.Mongo.Memory.{memory}
use saa_s_app_be.Crypto.Sample.{toy_crypto}
use saa_s_app_be.Host.{Host}

-- The code of every secret is "123456", at the time step of the clock.
abbrev pub toy_verify : String → String → ℕ → Option ℕ → Option ℕ
toy_verify secret token now none = if token == "123456" then some now else none
toy_verify secret token now (some last) =
    if token == "123456" then (if ltb last now then some now else none) else none

pub toy_verify_after :
    (secret token : String) (now last step : ℕ)
    → toy_verify secret token now (some last) ≡ some step
    → last < step
toy_verify_after secret token now last step h = ground arith

abbrev pub no_config : String → Option String
no_config key = none

-- Of the environment only the encryption key matters to the tests; it is an argument.
abbrev pub toy_host : (String → Option String) → Host
toy_host env = record {
  mongo = memory;
  node = toy_crypto;
  is_object_id = λ s. true;
  config = env;
  lower_case = λ s. s;
  bcrypt_hash = λ salt s. "#" ++ s;
  bcrypt_compare = λ s h. ("#" ++ s) == h;
  compare-hash = λ salt s. eq_refl ("#" ++ s);
  otp_verify = toy_verify;
  otp_after = toy_verify_after;
  otp_uri = λ issuer label secret. secret;
  qr_data_url = λ s. s;
  sign_access_token = λ claims now. "jwt";
}
