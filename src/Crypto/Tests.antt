-- ===== src/Crypto/Tests.antt =====
-- A run of the cipher.
use saa_s_app_be.Prelude.{◌≡◌, refl, [], ◌∷◌}
use saa_s_app_be.Action.{ok}
use saa_s_app_be.Crypto.{Bytes, encrypt_secret, decrypt_secret}
use saa_s_app_be.Crypto.Laws.{decrypt_secret-encrypt_secret}
use saa_s_app_be.Crypto.Sample.{toy_crypto}

abbrev twelve : Bytes
twelve = 1 ∷ 2 ∷ 3 ∷ 4 ∷ 5 ∷ 6 ∷ 7 ∷ 8 ∷ 9 ∷ 10 ∷ 11 ∷ 12 ∷ []

decrypt_secret-encrypt_secret_example :
    decrypt_secret toy_crypto (encrypt_secret toy_crypto twelve "seed" (7 ∷ [])) (7 ∷ [])
    ≡ ok "seed"
decrypt_secret-encrypt_secret_example =
    decrypt_secret-encrypt_secret toy_crypto twelve "seed" (7 ∷ []) refl
