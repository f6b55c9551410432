-- ===== src/Files/Sample.antt =====
-- A toy Cloudinary, which holds one object: its public id. It shows that its documented behaviour can
-- hold, and it runs in the tests.
use saa_s_app_be.Prelude.{String, ◌==◌, Option, none, some, arith, eq_iff, eq_refl, if◌then◌else◌}
use saa_s_app_be.Host.Sample.{toy_host}
use saa_s_app_be.Files.Cloud.{FileHost, Cloud, IsReliable}

abbrev pub toy_rename : (from to kind : String) → String → Option (Option String) × String
toy_rename from to kind c = if c == from then (some none, to) else (none, c)

abbrev pub toy_cloud : Cloud
toy_cloud = record {
  State = String;
  rename = toy_rename;
  destroy = λ public_id kind c. (some (some "ok"), c);
  upload = λ buffer public_id kind c. (none, c);
  sign_request = λ public_id timestamp secret. secret;
}

pub toy_cloud-IsReliable : IsReliable toy_cloud
toy_cloud-IsReliable = record {
  refused = λ from to kind c h. ground arith;
  undone = λ from to kind c url h. ground (arith, eq_refl to, eq_iff c from);
}

abbrev pub fh : FileHost
fh = record { host = toy_host (λ key. some "x"); cloud = toy_cloud; floor_number = λ raw. none }
