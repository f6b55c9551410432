-- ===== src/Crypto/Sample.antt =====
-- A concrete `NodeCrypto`, which shows that its laws can hold together: the cipher text is the
-- numbers of the characters, and a byte is written as so many letters `a` and one `b`.
pub mod Codes
pub mod Letters
use saa_s_app_be.Prelude.{
  ℕ, String, ◌≡◌, refl, Bool, false, true, Option, none, some, List, [], ◌∷◌, length, if◌then◌else◌,
}
use saa_s_app_be.Crypto.{Bytes, NodeCrypto}
use Codes.{codes, text_of, text_of-codes}
use Letters.{letters, from_letters, from_letters-letters, letters-IsTokenText}

abbrev pub zero_tag : Bytes
zero_tag = 0 ∷ 0 ∷ 0 ∷ 0 ∷ 0 ∷ 0 ∷ 0 ∷ 0 ∷ 0 ∷ 0 ∷ 0 ∷ 0 ∷ 0 ∷ 0 ∷ 0 ∷ 0 ∷ []

pub unseal-seal : (plaintext : String) → some (text_of (codes plaintext)) ≡ some plaintext
unseal-seal plaintext = rw text_of-codes

abbrev pub toy_crypto : NodeCrypto
toy_crypto = record {
  is_hex = λ s. false;
  from_hex = from_letters;
  from_base64 = from_letters;
  from_base64url = from_letters;
  to_base64url = letters;
  seal = λ key iv plaintext. (zero_tag, codes plaintext);
  unseal = λ key iv tag sealed. some (text_of sealed);
  hmac_sha256 = λ key value. letters value;
  unseal-seal = λ key iv plaintext. unseal-seal plaintext;
  tag_length = λ key iv plaintext. refl;
  from-to_base64url = from_letters-letters;
  base64url_alphabet = letters-IsTokenText;
}
