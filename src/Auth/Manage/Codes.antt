-- ===== src/Auth/Manage/Codes.antt =====
-- What a code uses up: a time step, or one recovery code.
use saa_s_app_be.Prelude.{
  ℕ, suc, ◌<◌, String, ◌≡◌, refl, ap, sym, ◌∙◌, true, Option, none, some, List, [], ◌∷◌, arith,
  Bool-cases, inl, inr,
}
use saa_s_app_be.Action.{ok}
use saa_s_app_be.Host.{Host}
use saa_s_app_be.Auth.Model.{Db, UserMfa, MfaBackupCode, Method}
use saa_s_app_be.Auth.Repositories.UserMfas.{
  find_by_user_id, is_before, any_unused, is_unused, spend_first,
}
use saa_s_app_be.Crypto.{Bytes, decrypt_secret}
use saa_s_app_be.Auth.Factor.{verify, verify_totp, encryption_key}
use saa_s_app_be.Auth.Factor.Accepted.{Accepted, verify_accepts}
use saa_s_app_be.Auth.Manage.{count_unused, build_status}

-- Spending a recovery code leaves one less.
pub count_unused-spend_first :
    (hash : String) (now : ℕ) (codes : List MfaBackupCode)
    → any_unused hash codes ≡ true
    → count_unused codes ≡ suc (count_unused (spend_first hash now codes))
unfolding count_unused
count_unused-spend_first hash now [] h = absurd (ground arith)
count_unused-spend_first hash now (c ∷ cs) h =
    let later = count_unused-spend_first hash now cs in
    elim (Bool-cases (is_unused hash c)) [
      | inl here ↦ rw here (ground arith)
      | inr elsewhere ↦ rw elsewhere (ground arith)
    ]

-- the last time step that is stored as used
abbrev pub last_step : Option UserMfa → Option ℕ
last_step none = none
last_step (some d) = d.last_used_totp_step

module _ (host : Host) where
  spent_one :
      (now : ℕ) (code : String) (d : UserMfa) (o : Option UserMfa)
      → Accepted host now code d Method.backup_code o
      → (build_status now (some d)).backup_codes_remaining
        ≡ suc (build_status now o).backup_codes_remaining
  unfolding build_status
  spent_one now code d _ (Accepted.by_backup_code key good unused) =
      count_unused-spend_first _ now d.backup_codes unused

  -- When a recovery code is accepted, the number of recovery codes left, as the status shows it, goes
  -- down by one.
  pub backup_code_spent :
      (now : ℕ) (user_id code : String) (s : Db host)
      → (verify host now user_id code s).0 ≡ ok (some Method.backup_code)
      → (build_status now (find_by_user_id host user_id s)).backup_codes_remaining
        ≡ suc
            (build_status now (
              find_by_user_id host user_id
                (verify host now user_id code s).1)).backup_codes_remaining
  backup_code_spent now user_id code s h =
      let (d, found, on, accepted) = verify_accepts host now user_id code s Method.backup_code h in
      rw found (spent_one now code d _ accepted)

  -- The time step at which the code of an authenticator is valid for the secret of a factor, `o` being
  -- what is stored after it was accepted.
  pub record IsClaimed (now : ℕ) (code : String) (d : UserMfa) (o : Option UserMfa) (step : ℕ)
      : Type 0 where
    pub sealed : String
    pub key : Bytes
    pub secret : String
    pub own : d.totp_secret_encrypted ≡ some sealed
    pub good : encryption_key host ≡ ok key
    pub opened : decrypt_secret host.node sealed key ≡ ok secret
    pub valid : verify_totp host now code secret d.last_used_totp_step ≡ some step
    pub newer : is_before step d.last_used_totp_step ≡ true
    pub kept : last_step o ≡ some step

  claimed :
      (now : ℕ) (code : String) (d : UserMfa) (o : Option UserMfa)
      → Accepted host now code d Method.totp o
      → (step : ℕ) × IsClaimed now code d o step
  claimed now code d _
        (Accepted.by_authenticator sealed secret key step own good opened valid newer) =
      (
        step,
        record {
          sealed = sealed;
          key = key;
          secret = secret;
          own = own;
          good = good;
          opened = opened;
          valid = valid;
          newer = newer;
          kept = refl;
        },
      )

  -- When the code of an authenticator is accepted twice for one user, one check directly after the
  -- other and at any times, each code is valid for the secret stored at its check and a time step of
  -- that check, and the time step of the second code is later than that of the first.
  pub totp_never_replayed :
      (now later : ℕ) (user_id code code' : String) (s : Db host)
      → (verify host now user_id code s).0 ≡ ok (some Method.totp)
      → (verify host later user_id code' (verify host now user_id code s).1).0
        ≡ ok (some Method.totp)
      → (d : UserMfa) × (e : UserMfa) × (first : ℕ) × (second : ℕ) × (find_by_user_id host user_id s
          ≡ some d)
        × (find_by_user_id host user_id (verify host now user_id code s).1 ≡ some e)
        × IsClaimed now code d
            (find_by_user_id host user_id (verify host now user_id code s).1)
            first
        × IsClaimed later code' e
            (find_by_user_id host user_id
              (verify host later user_id code' (verify host now user_id code s).1).1)
            second
        × (first < second)
  totp_never_replayed now later user_id code code' s h k =
      let t = (verify host now user_id code s).1 in
      let (d, stored, _, accepted) = verify_accepts host now user_id code s Method.totp h in
      let (e, found, _, accepted') = verify_accepts host later user_id code' t Method.totp k in
      let (first, c) = claimed now code d _ accepted in
      let (second, c') = claimed later code' e _ accepted' in
      let last : e.last_used_totp_step ≡ some first = sym (ap last_step found) ∙ c.kept in
      let newer = c'.newer in
      (d, e, first, second, stored, found, c, c', ground (arith, last, newer))
