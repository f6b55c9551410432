-- ===== src/Auth/Factor/Accepted.antt =====
-- What an accepted second factor proves, and what it uses up.
use saa_s_app_be.Prelude.{
  ℕ, String, ◌≡◌, refl, true, false, Option, none, some, arith, Bool-cases, Option-cases, inl, inr,
  is_empty, eqb,
}
use Prim.Native.String.{count}
use saa_s_app_be.Text.{only_digits}
use saa_s_app_be.Action.{Result-cases, ok}
use saa_s_app_be.Host.{Host}
use saa_s_app_be.Mongo.Laws.{update_one_hit}
use saa_s_app_be.Crypto.{Bytes, decrypt_secret}
use saa_s_app_be.Auth.Model.{Db, UserMfa, Method}
use saa_s_app_be.Auth.Repositories.UserMfas.{
  find_by_user_id, is_before, any_unused, with_step, with_spent, try_consume_totp_step,
  mark_backup_code_used,
}
use saa_s_app_be.Auth.Factor.{
  verify, verify_with, verify_backup_code, verify_authenticator_code, verify_totp, claim_step,
  hash_backup_code, hash_with, looks_like_backup_code, decrypt, encryption_key,
}

module _ (host : Host) where
  -- A guarded write to the factor of a user that changed something.
  totp_claimed :
      (user_id : String) (step : ℕ) (s : Db host) (d : UserMfa)
      → find_by_user_id host user_id s ≡ some d
      → (try_consume_totp_step host user_id step s).0 ≡ ok true
      → (is_before step d.last_used_totp_step ≡ true)
        × (find_by_user_id host user_id (try_consume_totp_step host user_id step s).1
            ≡ some (with_step step d))
  unfolding try_consume_totp_step find_by_user_id
  totp_claimed user_id step s d found won = elim (Bool-cases (host.is_object_id user_id)) [
    | inr invalid ↦ absurd (ground arith)
    | inl valid ↦
        let (before, after) =
          update_one_hit host.mongo user_id (λ x. is_before step x.last_used_totp_step)
            (with_step step) s.user_mfa d (rw valid at found) (ground arith) in
        (before, rw valid after)
  ]

  backup_claimed :
      (now : ℕ) (user_id hash : String) (s : Db host) (d : UserMfa)
      → find_by_user_id host user_id s ≡ some d
      → (mark_backup_code_used host now user_id hash s).0 ≡ ok true
      → (any_unused hash d.backup_codes ≡ true)
        × (find_by_user_id host user_id (mark_backup_code_used host now user_id hash s).1
            ≡ some (with_spent hash now d))
  unfolding mark_backup_code_used find_by_user_id
  backup_claimed now user_id hash s d found won = elim (Bool-cases (host.is_object_id user_id)) [
    | inr invalid ↦ absurd (ground arith)
    | inl valid ↦
        let (before, after) =
          update_one_hit host.mongo user_id (λ x. any_unused hash x.backup_codes)
            (with_spent hash now) s.user_mfa d (rw valid at found) (ground arith) in
        (before, rw valid after)
  ]

  -- How a code was accepted, of the stored factor before, and what is stored after.
  pub data Accepted (now : ℕ) (code : String) (d : UserMfa) : Method → Option UserMfa → Type 0 where
    by_authenticator :
        (sealed secret : String) (key : Bytes) (step : ℕ)
        → d.totp_secret_encrypted ≡ some sealed
        → encryption_key host ≡ ok key
        → decrypt_secret host.node sealed key ≡ ok secret
        → verify_totp host now code secret d.last_used_totp_step ≡ some step
        → is_before step d.last_used_totp_step ≡ true
        → Accepted now code d Method.totp (some (record d { last_used_totp_step = some step }))
    by_backup_code :
        (key : Bytes)
        → encryption_key host ≡ ok key
        → any_unused (hash_with host key code) d.backup_codes ≡ true
        → Accepted now code d Method.backup_code (some (with_spent (hash_with host key code) now d))

  verify_backup_code-Accepted :
      (now : ℕ) (user_id code : String) (s : Db host) (d : UserMfa) (m : Method)
      → find_by_user_id host user_id s ≡ some d
      → (verify_backup_code host now user_id code s).0 ≡ ok (some m)
      → Accepted now code d m
          (find_by_user_id host user_id (verify_backup_code host now user_id code s).1)
  unfolding verify_backup_code hash_backup_code
  verify_backup_code-Accepted now user_id code s d m found h =
      elim (Result-cases (encryption_key host)) [
        | inr (e, broken) ↦ absurd (ground arith)
        | inl (key, good) ↦
            let hash = hash_with host key code in
            elim (Result-cases (mark_backup_code_used host now user_id hash s).0) [
              | inr (e, lost) ↦ absurd (ground arith)
              | inl (false, lost) ↦ absurd (ground arith)
              | inl (true, won) ↦
                  let (unused, after) = backup_claimed now user_id hash s d found won in
                  let same : Method.backup_code ≡ m = ground arith in
                  rw (good, won, after, ← same) (Accepted.by_backup_code key good unused)
            ]
      ]

  claim_step-Accepted :
      (now : ℕ) (user_id code sealed secret : String) (key : Bytes) (step : ℕ) (s : Db host)
      (d : UserMfa) (m : Method)
      → find_by_user_id host user_id s ≡ some d
      → d.totp_secret_encrypted ≡ some sealed
      → encryption_key host ≡ ok key
      → decrypt_secret host.node sealed key ≡ ok secret
      → verify_totp host now code secret d.last_used_totp_step ≡ some step
      → (claim_step host user_id (some step) s).0 ≡ ok (some m)
      → Accepted now code d m
          (find_by_user_id host user_id (claim_step host user_id (some step) s).1)
  unfolding claim_step
  claim_step-Accepted now user_id code sealed secret key step s d m found own good opened valid h =
      elim (Result-cases (try_consume_totp_step host user_id step s).0) [
        | inr (e, lost) ↦ absurd (ground arith)
        | inl (false, lost) ↦ absurd (ground arith)
        | inl (true, won) ↦
            let (newer, after) = totp_claimed user_id step s d found won in
            let same : Method.totp ≡ m = ground arith in
            rw (won, after, ← same)
              (Accepted.by_authenticator sealed secret key step own good opened valid newer)
      ]

  decrypt_done :
      (payload secret : String) (s : Db host)
      → (decrypt host payload s).0 ≡ ok secret
      → (key : Bytes) × (encryption_key host ≡ ok key)
        × (decrypt_secret host.node payload key ≡ ok secret)
  unfolding decrypt
  decrypt_done payload secret s h = elim (Result-cases (encryption_key host)) [
    | inr (e, broken) ↦ absurd (ground arith)
    | inl (key, good) ↦ (key, good, ground arith)
  ]

  decrypt_state : (payload : String) (s : Db host) → (decrypt host payload s).1 ≡ s
  unfolding decrypt
  decrypt_state payload s = ground arith

  verify_authenticator_code-Accepted :
      (now : ℕ) (user_id code : String) (secret : Option String) (s : Db host) (d : UserMfa)
      (m : Method)
      → find_by_user_id host user_id s ≡ some d
      → d.totp_secret_encrypted ≡ secret
      → (verify_authenticator_code host now user_id code secret d.last_used_totp_step s).0
        ≡ ok (some m)
      → Accepted now code d m (
          find_by_user_id host user_id
            (verify_authenticator_code host now user_id code secret d.last_used_totp_step s).1)
  unfolding verify_authenticator_code claim_step
  verify_authenticator_code-Accepted now user_id code none s d m found own h = absurd (ground arith)
  verify_authenticator_code-Accepted now user_id code (some sealed) s d m found own h =
      elim (Bool-cases (is_empty sealed)) [
        | inl blank ↦ absurd (ground arith)
        | inr full ↦ elim (Bool-cases (eqb (count (only_digits code)) 6)) [
          | inr malformed ↦ absurd (ground arith)
          | inl formed ↦ elim (Result-cases (decrypt host sealed s).0) [
            | inr (e, broken) ↦ absurd (ground arith)
            | inl (secret, opened) ↦
                elim (Option-cases (verify_totp host now code secret d.last_used_totp_step)) [
                  | inl wrong ↦ absurd (ground arith)
                  | inr (step, valid) ↦
                      let same = decrypt_state sealed s in
                      let (key, good, clear) = decrypt_done sealed secret s opened in
                      rw (full, formed, opened, same, valid)
                        (claim_step-Accepted now user_id code sealed secret key step s d m found own
                          good clear valid (rw (full, formed, opened, same, valid) at h))
                ]
          ]
        ]
      ]

  pub verify_accepts :
      (now : ℕ) (user_id code : String) (s : Db host) (m : Method)
      → (verify host now user_id code s).0 ≡ ok (some m)
      → (d : UserMfa) × (find_by_user_id host user_id s ≡ some d)
        × (d.is_totp_enabled ≡ true)
        × Accepted now code d m (find_by_user_id host user_id (verify host now user_id code s).1)
  unfolding verify verify_with
  verify_accepts now user_id code s m h = elim (Option-cases (find_by_user_id host user_id s)) [
    | inl missing ↦ absurd (ground arith)
    | inr (d, found) ↦ elim (Bool-cases d.is_totp_enabled) [
      | inr off ↦ absurd (ground arith)
      | inl on ↦ elim (Bool-cases (looks_like_backup_code code)) [
        | inl recovery ↦
            let is : verify host now user_id code s ≡ verify_backup_code host now user_id code s =
              rw (found, on, recovery) refl in
            (
              d,
              found,
              on,
              rw is (verify_backup_code-Accepted now user_id code s d m found (rw is at h)),
            )
        | inr other ↦
            let secret = d.totp_secret_encrypted in
            let is : verify host now user_id code s
                ≡ verify_authenticator_code host now user_id code secret d.last_used_totp_step s =
              rw (found, on, other) refl in
            (
              d,
              found,
              on,
              rw is (
                  verify_authenticator_code-Accepted now user_id code secret s d m found refl
                    (rw is at h)),
            )
      ]
    ]
  ]
