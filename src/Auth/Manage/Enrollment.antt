-- ===== src/Auth/Manage/Enrollment.antt =====
-- The secret of an enrolment: what the user is shown is what is read back when the user confirms it.
use saa_s_app_be.Prelude.{
  ℕ, ◌+◌, ◌*◌, String, ◌≡◌, refl, ap, sym, ◌∙◌, true, false, Option, none, some, arith, Bool-cases,
  inl, inr, eq_refl, length,
}
use saa_s_app_be.Action.{Result-cases, ok}
use saa_s_app_be.Crypto.{Bytes, iv_bytes, encrypt_secret}
use saa_s_app_be.Crypto.Laws.{decrypt_secret-encrypt_secret}
use saa_s_app_be.Host.{Host}
use saa_s_app_be.Mongo.{upserted}
use saa_s_app_be.Auth.Model.{Db, UserMfa, RequestUser, Draw}
use saa_s_app_be.Auth.Repositories.UserMfas
use saa_s_app_be.Auth.Repositories.UserMfas.{
  find_by_user_id, with_pending, new_user_mfa, put_user_mfa,
}
use saa_s_app_be.Auth.Factor.{decrypt, encryption_key}
use saa_s_app_be.Auth.Login.{is_enabled}
use saa_s_app_be.Auth.Manage.{TotpEnrollment, start_totp_enrollment}

module _ (host : Host) where
  pending_upserted :
      (tenant_id secret : String) (expires_at : ℕ) (fresh : UserMfa) (o : Option UserMfa)
      → (d : UserMfa) × (upserted fresh (with_pending tenant_id secret expires_at) o ≡ some d)
        × (d.pending_totp_secret_encrypted ≡ some secret)
        × (d.pending_totp_expires_at ≡ some expires_at)
  pending_upserted tenant_id secret expires_at fresh none =
      (with_pending tenant_id secret expires_at fresh, refl, refl, refl)
  pending_upserted tenant_id secret expires_at fresh (some d) =
      (with_pending tenant_id secret expires_at d, refl, refl, refl)

  decrypt-encrypt_secret :
      (key : Bytes) (iv : Bytes) (plaintext : String) (s : Db host)
      → encryption_key host ≡ ok key
      → length iv ≡ iv_bytes
      → (decrypt host (encrypt_secret host.node iv plaintext key) s).0 ≡ ok plaintext
  unfolding decrypt
  decrypt-encrypt_secret key iv plaintext s good h =
      rw good (decrypt_secret-encrypt_secret host.node iv plaintext key h)

  user_mfa-start_totp_enrollment :
      (now : ℕ) (draw : Draw) (user : RequestUser) (s : Db host) (key : Bytes)
      → is_enabled (find_by_user_id host user.user_id s) ≡ false
      → encryption_key host ≡ ok key
      → host.is_object_id user.user_id ≡ true
      → (start_totp_enrollment host now draw user s).1.user_mfa
        ≡ host.mongo.upsert user.user_id
            (new_user_mfa user.user_id)
            (with_pending user.tenant_id
              (encrypt_secret host.node draw.iv draw.totp_secret key)
              (now + 15 * 60000))
            s.user_mfa
  unfolding start_totp_enrollment UserMfas.start_totp_enrollment put_user_mfa
  user_mfa-start_totp_enrollment now draw user s key off good valid = simp (off, good, valid)

  find-upserted :
      (user_id : String) (fresh : UserMfa) (change : UserMfa → UserMfa) (s t : Db host)
      → host.is_object_id user_id ≡ true
      → t.user_mfa ≡ host.mongo.upsert user_id fresh change s.user_mfa
      → find_by_user_id host user_id t
        ≡ upserted fresh change (host.mongo.find_one user_id s.user_mfa)
  unfolding find_by_user_id
  find-upserted user_id fresh change s t valid written =
      rw
        (
          valid,
          written,
          host.mongo.find-upsert user_id user_id fresh change s.user_mfa,
          eq_refl user_id,
        )
        refl

  started :
      (now : ℕ) (draw : Draw) (user : RequestUser) (s : Db host) (e : TotpEnrollment)
      → (start_totp_enrollment host now draw user s).0 ≡ ok e
      → (key : Bytes) × (encryption_key host ≡ ok key)
        × (is_enabled (find_by_user_id host user.user_id s) ≡ false)
        × (host.is_object_id user.user_id ≡ true)
        × (e.secret ≡ draw.totp_secret)
        × (e.expires_at ≡ now + 15 * 60000)
  unfolding start_totp_enrollment UserMfas.start_totp_enrollment put_user_mfa
  started now draw user s e h =
      elim (Bool-cases (is_enabled (find_by_user_id host user.user_id s))) [
        | inl on ↦ absurd (ground arith)
        | inr off ↦ elim (Result-cases (encryption_key host)) [
          | inr (x, broken) ↦ absurd (ground arith)
          | inl (key, good) ↦ elim (Bool-cases (host.is_object_id user.user_id)) [
            | inr invalid ↦ absurd (ground arith)
            | inl valid ↦ (key, good, off, valid, ground arith, ground arith)
          ]
        ]
      ]

  -- When `startTotpEnrollment` succeeds, no authenticator was enabled, the user is shown the drawn
  -- secret, and the stored pending secret is decrypted to that secret and expires when the user is
  -- told, if the drawn initialisation vector has twelve bytes.
  pub enrolled_secret :
      (now : ℕ) (draw : Draw) (user : RequestUser) (s : Db host) (e : TotpEnrollment)
      → (start_totp_enrollment host now draw user s).0 ≡ ok e
      → length draw.iv ≡ iv_bytes
      → (is_enabled (find_by_user_id host user.user_id s) ≡ false)
        × (e.secret ≡ draw.totp_secret)
        × ((d : UserMfa) × (sealed : String) × (find_by_user_id host user.user_id
                (start_totp_enrollment host now draw user s).1
              ≡ some d)
            × (d.pending_totp_secret_encrypted ≡ some sealed)
            × (d.pending_totp_expires_at ≡ some e.expires_at)
            × ((decrypt host sealed (start_totp_enrollment host now draw user s).1).0
                ≡ ok e.secret))
  enrolled_secret now draw user s e h iv_length =
      let (key, good, off, valid, secret, expires) = started now draw user s e h in
      let t = (start_totp_enrollment host now draw user s).1 in
      let sealed = encrypt_secret host.node draw.iv draw.totp_secret key in
      let (d, is, pending, until) =
        pending_upserted user.tenant_id sealed (now + 15 * 60000) (new_user_mfa user.user_id)
          (host.mongo.find_one user.user_id s.user_mfa) in
      (
        off,
        secret,
        (
          d,
          sealed,
          find-upserted user.user_id (new_user_mfa user.user_id)
                (with_pending user.tenant_id sealed (now + 15 * 60000)) s t valid
                (user_mfa-start_totp_enrollment now draw user s key off good valid)
              ∙ is,
          pending,
          until ∙ ap some (sym expires),
          decrypt-encrypt_secret key draw.iv draw.totp_secret t good iv_length ∙ ap ok (sym secret),
        ),
      )
