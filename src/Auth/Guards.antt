-- ===== src/Auth/Guards.antt =====
-- auth/guards: jwt-auth.guard.ts, tenant.guard.ts, tenant-admin.guard.ts, platform-admin.guard.ts.
-- `jsonwebtoken` is not code of the repository; its `verify` is an argument.
pub mod Laws
use Prim.Native.String.{◌++◌}
use saa_s_app_be.Prelude.{
  String, ◌==◌, Bool, true, false, not, ◌&&◌, ◌||◌, Option, none, some, is_empty, or_default,
  if◌then◌else◌,
}
use saa_s_app_be.Text.{trim, trim_start, behind_word, has_no_space}
use saa_s_app_be.Action.{Exception, Result, ok, err, unauthorized, forbidden, text}
use saa_s_app_be.Host.{Role, admin, member}
use saa_s_app_be.Auth.Model.{RequestUser}
use saa_s_app_be.Auth.Login.{same_role}

-- The claims of a token as they arrive; a claim of the wrong type is `none`.
pub record TokenClaims : Type 0 where
  pub type_is_access : Bool
  pub sub : Option String
  pub email : Option String
  pub tenant_id : Option String
  pub platform_admin : Option Bool
  pub tenant_role : Option Role

-- What `jwt.verify` does with a token and the configured secret: the decoded token, or the error, by the
-- first `instanceof` test of the guard that it passes.
pub data Verified : Type 0 where
  claims : TokenClaims → Verified
  not_an_object : Verified
  expired : Verified
  malformed : String → Verified
  not_active : Verified
  other_error : Verified

-- The parts of a request that the guards read.
pub record Request : Type 0 where
  pub authorization : Option String
  pub access_cookie : Option String

-- the empty message of `new UnauthorizedException()`
abbrev pub rejected : Exception
rejected = unauthorized (text "Unauthorized")

-- the text of the capture of `/^Bearer\s+(\S+)$/i`, behind the word: space, then no more space
abbrev bearer_rest : Option String → Option String
bearer_rest none = none
bearer_rest (some rest) =
    let token = trim_start rest in
    if token == rest
    then none
    else if is_empty token
    then none
    else if has_no_space token
    then some token
    else none

abbrev bearer_token : Option String → Option String
bearer_token none = none
bearer_token (some header) = bearer_rest (behind_word "bearer" (trim header))

abbrev cookie_token : Option String → Option String
cookie_token none = none
cookie_token (some cookie) = if is_empty (trim cookie) then none else some cookie

abbrev first_of : Option String → Option String → Option String
first_of none o = o
first_of (some a) o = some a

-- `extractAccessToken`
unfoldable pub extract_access_token : Request → Option String
extract_access_token request =
    first_of (bearer_token request.authorization) (cookie_token request.access_cookie)

-- `payload.platformAdmin ? undefined : (payload.tenantRole ?? 'admin')`
abbrev role_of : Bool → Option Role → Option Role
role_of true role = none
role_of false role = some (or_default role admin)

abbrev user_of :
    Option String → Option String → Option String → Bool → Option Role → Result RequestUser
user_of (some sub) (some email) (some tenant_id) platform_admin role =
    if is_empty sub
    then err rejected
    else ok (record {
      user_id = sub;
      email = email;
      tenant_id = tenant_id;
      platform_admin = platform_admin;
      tenant_role = role_of platform_admin role;
    })
user_of _ _ _ platform_admin role = err rejected

-- the message of a failed verification, which production does not tell
abbrev failure : (is_production : Bool) → String → Exception
failure true message = rejected
failure false message = unauthorized (text message)

abbrev accept : (is_production : Bool) → Verified → Result RequestUser
accept p (claims c) =
    if c.type_is_access
    then user_of c.sub c.email c.tenant_id (or_default c.platform_admin false) c.tenant_role
    else err rejected
accept p not_an_object = err rejected
accept p expired = err (failure p "Access token expired")
accept p (malformed message) = err (failure p ("Invalid access token: " ++ message))
accept p not_active = err (failure p "Access token not active yet")
accept p other_error = err rejected

-- `JwtAuthGuard.canActivate`, which sets `request.user`
unfoldable pub authenticate :
    (verify : String → Verified) (is_production : Bool) → Request → Result RequestUser
authenticate verify is_production request = elim (extract_access_token request) [
  | none ↦ err rejected
  | some token ↦ accept is_production (verify token)
]

-- `TenantGuard.canActivate`
unfoldable pub tenant_guard : Option RequestUser → Result Unit
tenant_guard none = err (forbidden (text "Tenant context is required"))
tenant_guard (some user) =
    if is_empty user.tenant_id then err (forbidden (text "Tenant context is required")) else ok tt

abbrev is_admin : Option Role → Bool
is_admin none = false
is_admin (some role) = same_role role admin

-- `TenantAdminGuard.canActivate`
unfoldable pub tenant_admin_guard : Option RequestUser → Result Unit
tenant_admin_guard none = err (forbidden (text "Tenant administrator access required"))
tenant_admin_guard (some user) =
    if user.platform_admin
    then err (forbidden (text "Tenant administrator access required"))
    else if is_admin user.tenant_role
    then ok tt
    else err (forbidden (text "Tenant administrator access required"))

-- `PlatformAdminGuard.canActivate`
unfoldable pub platform_admin_guard : Option RequestUser → Result Unit
platform_admin_guard none = err (forbidden (text "Platform administrator access required"))
platform_admin_guard (some user) =
    if user.platform_admin
    then ok tt
    else err (forbidden (text "Platform administrator access required"))
