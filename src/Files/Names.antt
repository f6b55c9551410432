-- ===== src/Files/Names.antt =====
-- The configuration and the public ids of file/file.service.ts.
use Prim.Native.Char.{code}
use Prim.Native.String.{◌++◌}
use saa_s_app_be.Prelude.{
  ℕ, ◌+◌, ◌*◌, String, ◌==◌, Bool, false, not, ◌&&◌, ◌||◌, Option, none, some, List, [], ◌∷◌, leb,
  eqb, is_empty, or_default, if◌then◌else◌,
}
use saa_s_app_be.Text.{trim, is_space, starts_with}
use saa_s_app_be.Action.{Action, internal, bad_request, not_found, text, throw_if, ◌>>◌}
use saa_s_app_be.Files.Cloud.{FileHost, ℤ, pos, negsuc}
use saa_s_app_be.Files.Model.{FileState}

abbrev pub default_temp_file_ttl_minutes : ℕ
default_temp_file_ttl_minutes = 30

abbrev pub min_temp_file_ttl_minutes : ℕ
min_temp_file_ttl_minutes = 5

abbrev pub max_temp_file_ttl_minutes : ℕ
max_temp_file_ttl_minutes = 180

abbrev pub default_cleanup_batch_size : ℕ
default_cleanup_batch_size = 25

-- `Math.min(MAX, Math.max(MIN, n))`
unfoldable pub clamp_minutes : ℤ → ℕ
clamp_minutes (negsuc n) = min_temp_file_ttl_minutes
clamp_minutes (pos n) =
    if leb n min_temp_file_ttl_minutes
    then min_temp_file_ttl_minutes
    else if leb n max_temp_file_ttl_minutes
    then n
    else max_temp_file_ttl_minutes

abbrev has_slash : String → Bool
has_slash String.[] = false
has_slash (String.◌∷◌ c s) = eqb (code c) b'/' || has_slash s

-- `s.split('/').pop()`
unfoldable pub last_segment : String → String
last_segment String.[] = String.[]
last_segment (String.◌∷◌ c s) =
    let rest = last_segment s in
    if has_slash s then rest else if eqb (code c) b'/' then s else String.◌∷◌ c s

abbrev starts_space : String → Bool
starts_space String.[] = false
starts_space (String.◌∷◌ c s) = is_space (code c)

-- `s.replace(/\s+/g, '-')`
unfoldable pub dash_spaces : String → String
dash_spaces String.[] = String.[]
dash_spaces (String.◌∷◌ c s) =
    let rest = dash_spaces s in
    if not (is_space (code c))
    then String.◌∷◌ c rest
    else if starts_space s
    then rest
    else "-" ++ rest

unfoldable pub get_tenant_folder : String → String
get_tenant_folder tenant_id = "tenants/" ++ tenant_id

unfoldable pub get_tenant_temp_folder : String → String
unfolding get_tenant_folder
get_tenant_temp_folder tenant_id = get_tenant_folder tenant_id ++ "/tmp/workspace-tasks"

unfoldable pub is_tenant_scoped_public_id : (tenant_folder public_id : String) → Bool
is_tenant_scoped_public_id tenant_folder public_id = starts_with (tenant_folder ++ "/") public_id

unfoldable pub resolve_allowed_formats : String → List String
resolve_allowed_formats mime_type =
    if starts_with "image/" mime_type
    then "jpg" ∷ "jpeg" ∷ "png" ∷ "webp" ∷ "gif" ∷ []
    else if starts_with "video/" mime_type
    then "mp4" ∷ "webm" ∷ "mov" ∷ []
    else if mime_type == "application/pdf"
    then "pdf" ∷ []
    else []

module _ (fh : FileHost) where
  open fh use {host, floor_number}
  open host use {config, is_object_id, lower_case}

  abbrev setting : String → String
  setting key = trim (or_default (config key) "")

  -- `cloudName`, `apiKey` and `apiSecret` of the constructor
  abbrev pub cloud_name : String
  cloud_name = setting "CLOUDINARY_CLOUD_NAME"

  abbrev pub api_key : String
  api_key = setting "CLOUDINARY_API_KEY"

  abbrev pub api_secret : String
  api_secret = setting "CLOUDINARY_API_SECRET"

  unfoldable pub cloudinary_configured : Bool
  cloudinary_configured =
      not (is_empty cloud_name) && (not (is_empty api_key) && not (is_empty api_secret))

  unfoldable pub assert_cloudinary_configured : Action (FileState fh) Unit
  assert_cloudinary_configured =
      throw_if (not cloudinary_configured)
        (internal (text "Cloudinary credentials are not configured"))

  abbrev clamped : Option ℤ → ℕ
  clamped none = default_temp_file_ttl_minutes
  clamped (some minutes) = clamp_minutes minutes

  -- `resolveTempFileTtlMinutes`; `Number(undefined)` is not finite
  unfoldable pub resolve_temp_file_ttl_minutes : ℕ
  resolve_temp_file_ttl_minutes = elim (config "FILE_TEMP_TTL_MINUTES") [
    | none ↦ default_temp_file_ttl_minutes
    | some raw ↦ clamped (floor_number raw)
  ]

  unfoldable pub build_temporary_expiry_date : (now : ℕ) → ℕ
  build_temporary_expiry_date now = now + resolve_temp_file_ttl_minutes * 60000

  abbrev filled_or : String → String → String
  filled_or name fallback = if is_empty name then fallback else name

  -- `buildFinalScopedPublicId`; the last argument is the UUID that it draws
  unfoldable pub build_final_scoped_public_id :
      (tenant_id scope entity_id temporary_public_id uuid : String) → String
  unfolding get_tenant_folder last_segment dash_spaces
  build_final_scoped_public_id tenant_id scope entity_id temporary_public_id uuid =
      let asset_name = filled_or (trim (last_segment temporary_public_id)) ("task-file-" ++ uuid) in
      let safe_scope = lower_case (dash_spaces (trim scope)) in
      get_tenant_folder tenant_id ++ "/" ++ safe_scope ++ "/" ++ entity_id ++ "/" ++ asset_name

  -- `assertTaskExistsInTenant`; `tasks` tells whether a task of the tenant is stored and not deleted
  unfoldable pub assert_task_exists_in_tenant :
      (tasks : String → String → Bool) (tenant_id task_id : String) → Action (FileState fh) Unit
  assert_task_exists_in_tenant tasks tenant_id task_id =
      throw_if (not (is_object_id task_id)) (bad_request (text "Invalid task id"))
      >> throw_if (not (tasks tenant_id task_id)) (not_found (text "Workspace task not found"))
