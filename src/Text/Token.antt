-- ===== src/Text/Token.antt =====
-- The opaque token `{jti}.{secret}`: how it is put together and taken apart.
use Prim.Native.String.{◌++◌}
use saa_s_app_be.Prelude.{
  String, ◌≡◌, false, ◌||◌, Option, none, some, List, [], ◌∷◌, is_empty, if◌then◌else◌,
}
use saa_s_app_be.Text.{trim, split_dot}
use saa_s_app_be.Text.Laws.{IsTokenText, trim-token, split_dot-append, split_dot-IsTokenText}

pub record OpaqueToken : Type 0 where
  pub jti : String
  pub secret : String

-- the two parts that the parsers accept
pub of_parts : List String → Option OpaqueToken
of_parts (jti ∷ secret ∷ []) =
    if is_empty jti || is_empty secret then none else some (record { jti = jti; secret = secret })
of_parts _ = none

-- `parseChallengeToken` and `parseOpaqueRefresh`, which have one body
unfoldable pub parse_token : String → Option OpaqueToken
unfolding of_parts
parse_token raw = of_parts (split_dot (trim raw))

-- the template `${jti}.${secret}`
unfoldable pub format_token : String → String → String
format_token jti secret = jti ++ ("." ++ secret)

-- A token put together from two parts that are not empty and hold no dot and no white space is
-- taken apart into the same two parts.
pub parse_token-format_token :
    (jti secret : String)
    → IsTokenText jti
    → IsTokenText secret
    → is_empty jti ≡ false
    → is_empty secret ≡ false
    → parse_token (format_token jti secret) ≡ some (record { jti = jti; secret = secret })
unfolding parse_token format_token
parse_token-format_token jti secret h k jti_filled secret_filled = simp (
  trim-token jti secret h k,
  split_dot-append jti secret h,
  split_dot-IsTokenText secret k,
  jti_filled,
  secret_filled,
)
