-- ===== src/Crypto.antt =====
-- common/crypto/secret-cipher.util.ts and secret-cipher.service.ts: encryption of the secrets that
-- the server must read back, and the keyed digest of the recovery codes. Node's primitives are
-- the interface `NodeCrypto`.
pub mod Laws
pub mod Tests
pub mod Sample
use Prim.Native.String.{◌++◌}
use saa_s_app_be.Prelude.{
  ℕ, String, ◌≡◌, Bool, ◌||◌, not, Option, none, some, List, [], ◌∷◌, ◌==◌, eqb, length, or_default,
  is_empty, if◌then◌else◌,
}
use saa_s_app_be.Text.{trim, split_dot}
use saa_s_app_be.Text.Laws.{IsTokenText}
use saa_s_app_be.Action.{Result, ok, err, internal, plain, text}

abbrev pub Bytes : Type 0
Bytes = List ℕ

-- The calls of `node:crypto` and `Buffer`.
pub record NodeCrypto : Type 1 where
  -- `Buffer.from(text, 'hex' | 'base64' | 'base64url')`, and the hexadecimal test on the key
  pub is_hex : String → Bool
  pub from_hex : String → Bytes
  pub from_base64 : String → Bytes
  pub from_base64url : String → Bytes
  pub to_base64url : Bytes → String
  -- AES-256-GCM: the tag and the cipher text; `none` is a failed authentication
  pub seal : (key iv : Bytes) → String → Bytes × Bytes
  pub unseal : (key iv tag sealed : Bytes) → Option String
  pub hmac_sha256 : (key : Bytes) → List ℕ → String
  -- what is documented of them
  pub unseal-seal :
      (key iv : Bytes) (plaintext : String)
      → unseal key iv (seal key iv plaintext).0 (seal key iv plaintext).1 ≡ some plaintext
  pub tag_length : (key iv : Bytes) (plaintext : String) → length (seal key iv plaintext).0 ≡ 16
  pub from-to_base64url : (bytes : Bytes) → from_base64url (to_base64url bytes) ≡ bytes
  pub base64url_alphabet : (bytes : Bytes) → IsTokenText (to_base64url bytes)

abbrev pub key_bytes : ℕ
key_bytes = 32

abbrev pub iv_bytes : ℕ
iv_bytes = 12

abbrev pub auth_tag_bytes : ℕ
auth_tag_bytes = 16

module _ (node : NodeCrypto) where
  open node use {
    is_hex, from_hex, from_base64, from_base64url, to_base64url, seal, unseal, hmac_sha256,
  }

  -- `parseEncryptionKey`; `none` is a `SecretCipherKeyError`
  unfoldable pub parse_encryption_key : Option String → Option Bytes
  parse_encryption_key raw_key =
      let trimmed = trim (or_default raw_key "") in
      let decoded = if is_hex trimmed then from_hex trimmed else from_base64 trimmed in
      if is_empty trimmed
      then none
      else if not (eqb (length decoded) key_bytes)
      then none
      else some decoded

  -- `SecretCipherService.resolveKey`: the key of the environment, or an internal error
  unfoldable pub resolve_key : Option String → Result Bytes
  resolve_key raw_key = elim (parse_encryption_key raw_key) [
    | none ↦ err (internal (text "SECRET_ENCRYPTION_KEY is missing or invalid."))
    | some key ↦ ok key
  ]

  -- `encryptSecret`, on the initialisation vector that `randomBytes(12)` returned
  unfoldable pub encrypt_secret : (iv : Bytes) → String → (key : Bytes) → String
  encrypt_secret iv plaintext key =
      let (auth_tag, ciphertext) = seal key iv plaintext in
      "v1"
      ++ ("."
          ++ (to_base64url iv
              ++ ("." ++ (to_base64url auth_tag ++ ("." ++ to_base64url ciphertext)))))

  abbrev malformed : Result String
  malformed = err (plain (text "Malformed encrypted payload."))

  -- the part of `decryptSecret` after the segments are decoded
  pub open_segments : (key iv auth_tag ciphertext : Bytes) → Result String
  open_segments key iv auth_tag ciphertext =
      if not (eqb (length iv) iv_bytes) || not (eqb (length auth_tag) auth_tag_bytes)
      then malformed
      else elim (unseal key iv auth_tag ciphertext) [
        | none ↦ err (plain (text "Encrypted payload failed authentication."))
        | some plaintext ↦ ok plaintext
      ]

  pub decrypt_segments : List String → (key : Bytes) → Result String
  unfolding open_segments
  decrypt_segments (version ∷ raw_iv ∷ raw_auth_tag ∷ raw_ciphertext ∷ []) key =
      if not (version == "v1")
      then malformed
      else open_segments key (from_base64url raw_iv) (from_base64url raw_auth_tag)
          (from_base64url raw_ciphertext)
  decrypt_segments _ key = malformed

  -- `decryptSecret`
  unfoldable pub decrypt_secret : String → (key : Bytes) → Result String
  unfolding decrypt_segments
  decrypt_secret payload key = decrypt_segments (split_dot payload) key
