-- ===== src/Crypto/Laws.antt =====
-- What is encrypted is read back under the same key.
use saa_s_app_be.Prelude.{String, ◌≡◌, true, refl, ap, ◌∙◌, List, [], ◌∷◌, arith, length}
use saa_s_app_be.Text.{split_dot, is_space}
use saa_s_app_be.Text.Laws.{IsTokenText, split_dot-append, split_dot-IsTokenText}
use saa_s_app_be.Action.{Exception, is_fault, ok, err}
use saa_s_app_be.Crypto.{
  Bytes, NodeCrypto, iv_bytes, encrypt_secret, decrypt_secret, decrypt_segments, open_segments,
}

v1-IsTokenText : IsTokenText "v1"
unfolding is_space
v1-IsTokenText = (refl, refl, (refl, refl, tt))

module _ (node : NodeCrypto) where
  open node use {to_base64url, seal, base64url_alphabet, from-to_base64url, tag_length, unseal-seal}

  split_dot-encrypt_secret :
      (iv : Bytes) (plaintext : String) (key : Bytes)
      → split_dot (encrypt_secret node iv plaintext key)
        ≡ "v1"
          ∷ to_base64url iv
          ∷ to_base64url (seal key iv plaintext).0
          ∷ to_base64url (seal key iv plaintext).1
          ∷ []
  unfolding encrypt_secret
  split_dot-encrypt_secret iv plaintext key =
      let (tag, sealed) = seal key iv plaintext in
      split_dot-append "v1" _ v1-IsTokenText
      ∙ ap (λ parts. "v1" ∷ parts)
          (split_dot-append (to_base64url iv) _ (base64url_alphabet iv)
            ∙ ap (λ parts. to_base64url iv ∷ parts)
                (split_dot-append (to_base64url tag) _ (base64url_alphabet tag)
                  ∙ ap (λ parts. to_base64url tag ∷ parts)
                      (split_dot-IsTokenText (to_base64url sealed) (base64url_alphabet sealed))))

  open_segments-seal :
      (iv : Bytes) (plaintext : String) (key : Bytes)
      → length iv ≡ iv_bytes
      → open_segments node key iv (seal key iv plaintext).0 (seal key iv plaintext).1 ≡ ok plaintext
  unfolding open_segments
  open_segments-seal iv plaintext key h =
      rw (h, tag_length key iv plaintext, unseal-seal key iv plaintext) refl

  -- A secret that is encrypted under a key, with an initialisation vector of twelve bytes, is
  -- decrypted under that key to the same text.
  pub decrypt_secret-encrypt_secret :
      (iv : Bytes) (plaintext : String) (key : Bytes)
      → length iv ≡ iv_bytes
      → decrypt_secret node (encrypt_secret node iv plaintext key) key ≡ ok plaintext
  unfolding decrypt_secret
  decrypt_secret-encrypt_secret iv plaintext key h =
      simp (split_dot-encrypt_secret, from-to_base64url) (open_segments-seal iv plaintext key h)

  open_segments-err :
      (key iv tag sealed : Bytes) (e : Exception)
      → open_segments node key iv tag sealed ≡ err e
      → is_fault e ≡ true
  unfolding open_segments
  open_segments-err key iv tag sealed e h = ground arith

  decrypt_segments-err :
      (parts : List String) (key : Bytes) (e : Exception)
      → decrypt_segments node parts key ≡ err e
      → is_fault e ≡ true
  unfolding decrypt_segments
  decrypt_segments-err [] key e h = ground arith
  decrypt_segments-err (a ∷ []) key e h = ground arith
  decrypt_segments-err (a ∷ b ∷ []) key e h = ground arith
  decrypt_segments-err (a ∷ b ∷ c ∷ []) key e h = ground arith
  decrypt_segments-err (a ∷ b ∷ c ∷ d ∷ []) key e h = ground (
    arith,
    open_segments-err key (node.from_base64url b) (node.from_base64url c) (node.from_base64url d) e,
  )
  decrypt_segments-err (a ∷ b ∷ c ∷ d ∷ x ∷ r) key e h = ground arith

  -- A payload that cannot be decrypted throws a fault.
  pub decrypt_secret-err :
      (payload : String) (key : Bytes) (e : Exception)
      → decrypt_secret node payload key ≡ err e
      → is_fault e ≡ true
  unfolding decrypt_secret
  decrypt_secret-err payload key e h = decrypt_segments-err (split_dot payload) key e h
