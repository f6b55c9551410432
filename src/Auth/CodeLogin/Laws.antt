-- ===== src/Auth/CodeLogin/Laws.antt =====
-- What a request for a sign-in code tells, and what its decoy allows.
use saa_s_app_be.Prelude.{
  ℕ, ◌+◌, ◌*◌, String, ◌≡◌, refl, ◌∙◌, true, false, Option, none, some, arith, Bool-cases, inl, inr,
  eq_refl, ◌<◌, leb, if◌then◌else◌, [], ◌∷◌,
}
use saa_s_app_be.Text.Token.{OpaqueToken, format_token, parse_token-format_token}
use saa_s_app_be.Action.{◌>>=◌, ok, err}
use saa_s_app_be.Host.{Host}
use saa_s_app_be.Auth.Model.{Db, User, MfaChallenge, Draw, Method}
use saa_s_app_be.Auth.Repositories.Users
use saa_s_app_be.Auth.Challenge.{
  issue, issued, load, check_challenge, invalid_challenge, expired_challenge,
}
use saa_s_app_be.Auth.Challenge.Laws.{stored}
use saa_s_app_be.Auth.Challenge.Issued.{
  IsTokenParts, kept, kept_room, ticket, issue_answer, stored-issue,
}
use saa_s_app_be.Auth.Login.{RequestLoginCodeDto, MfaRequired}
use saa_s_app_be.Auth.CodeLogin.{
  request_login_code, code_challenge, eligible_user, get_email_code_ttl_minutes, send_code,
}
use saa_s_app_be.Auth.SecondFactor.{complete, verify_mfa_challenge}
use saa_s_app_be.Auth.SecondFactor.Budget.{stored_of_challenges}
use saa_s_app_be.Auth.Repositories.MfaChallenges.{delete_by_jti}

module _ (host : Host) where
  -- the user whose sign-in the code would complete
  abbrev pub target : RequestLoginCodeDto → Db host → Option User
  target dto s =
      eligible_user host dto (Users.find_by_email host (Users.normal_email host dto.email) s) s

  -- the answer to every request
  abbrev pub code_answer : (now : ℕ) → Draw → MfaRequired
  code_answer now draw = record {
    challenge_token = format_token draw.jti draw.secret;
    methods = Method.email_code ∷ [];
    expires_at = now + get_email_code_ttl_minutes host * 60000;
  }

  ticket-code_challenge :
      (now : ℕ) (draw : Draw) (dto : RequestLoginCodeDto) (u : Option User)
      → ticket host now draw (code_challenge host draw dto u) ≡ record {
        challenge_token = format_token draw.jti draw.secret;
        expires_at = now + get_email_code_ttl_minutes host * 60000;
      }
  unfolding ticket code_challenge
  ticket-code_challenge now draw dto none = refl
  ticket-code_challenge now draw dto (some u) = refl

  send_code_answer :
      (draw : Draw) (email : String) (u : Option User) (s : Db host)
      → (send_code host draw email u s).0 ≡ ok tt
  unfolding send_code
  send_code_answer draw email none s = refl
  send_code_answer draw email (some u) s = refl

  challenges-send_code :
      (draw : Draw) (email : String) (u : Option User) (s : Db host)
      → (send_code host draw email u s).1.challenges ≡ s.challenges
  unfolding send_code
  challenges-send_code draw email none s = refl
  challenges-send_code draw email (some u) s = refl

  -- The answer to a request for a sign-in code is the same for every email address, known or not,
  -- eligible or not: it depends on the time and the drawn values alone, if the drawn identifier is
  -- free.
  pub request_login_code_answer :
      (now : ℕ) (draw : Draw) (dto : RequestLoginCodeDto) (s : Db host)
      → stored host draw.jti s ≡ none
      → (request_login_code host now draw dto s).0 ≡ ok (code_answer now draw)
  unfolding request_login_code
  request_login_code_answer now draw dto s free =
      let input = code_challenge host draw dto (target dto s) in
      let t = (issue host now draw input s).1 in
      rw
        (
          issue_answer host now draw input s free,
          send_code_answer draw (Users.normal_email host dto.email) (target dto s) t,
          ticket-code_challenge now draw dto (target dto s),
        )
        refl

  -- the challenge that a request stores
  kept_code : (now : ℕ) → Draw → RequestLoginCodeDto → Db host → MfaChallenge
  kept_code now draw dto s = kept host now draw (code_challenge host draw dto (target dto s))

  challenges-request_login_code :
      (now : ℕ) (draw : Draw) (dto : RequestLoginCodeDto) (s : Db host)
      → stored host draw.jti s ≡ none
      → (request_login_code host now draw dto s).1.challenges
        ≡ (issue host now draw (code_challenge host draw dto (target dto s)) s).1.challenges
  unfolding request_login_code
  challenges-request_login_code now draw dto s free =
      let input = code_challenge host draw dto (target dto s) in
      let t = (issue host now draw input s).1 in
      let email = Users.normal_email host dto.email in
      rw (issue_answer host now draw input s free, send_code_answer draw email (target dto s) t)
        (challenges-send_code draw email (target dto s) t)

  stored-request_login_code :
      (now : ℕ) (draw : Draw) (dto : RequestLoginCodeDto) (s : Db host)
      → stored host draw.jti s ≡ none
      → stored host draw.jti (request_login_code host now draw dto s).1
        ≡ some (kept_code now draw dto s)
  unfolding kept_code
  stored-request_login_code now draw dto s free =
      let input = code_challenge host draw dto (target dto s) in
      stored_of_challenges host (issue host now draw input s).1
        (request_login_code host now draw dto s).1
        (challenges-request_login_code now draw dto s free) draw.jti
      ∙ stored-issue host now draw input draw.jti s free
      ∙ (rw (eq_refl draw.jti) refl)

  complete-nameless :
      (now : ℕ) (draw : Draw) (c : MfaChallenge) (code : String) (s : Db host)
      → c.user_id ≡ none
      → (complete host now draw c code s).0 ≡ err invalid_challenge
  unfolding complete
  complete-nameless now draw c code s nameless = rw nameless refl

  -- Loading and completing a challenge that names no user.
  nameless_step :
      (later : ℕ) (draw : Draw) (p : OpaqueToken) (c : MfaChallenge) (code : String) (s : Db host)
      → c.consumed_at ≡ none
      → c.attempt_count < c.max_attempts
      → host.bcrypt_compare p.secret c.secret_hash ≡ true
      → c.user_id ≡ none
      → ((check_challenge host later p c >>= λ d. complete host later draw d code) s).0
        ≡ err (if leb c.expires_at later then expired_challenge else invalid_challenge)
  unfolding check_challenge delete_by_jti
  nameless_step later draw p c code s unspent room fits nameless =
      let left : leb c.max_attempts c.attempt_count ≡ false = ground arith in
      elim (Bool-cases (leb c.expires_at later)) [
        | inl late ↦ rw (unspent, late) refl
        | inr early ↦
            simp (unspent, early, left, fits, complete-nameless later draw c code s nameless)
      ]

  -- the challenge of a request that no user stands behind
  decoy : (now : ℕ) → Draw → RequestLoginCodeDto → MfaChallenge
  decoy now draw dto = kept host now draw (code_challenge host draw dto none)

  decoy_facts :
      (now : ℕ) (draw : Draw) (dto : RequestLoginCodeDto)
      → (decoy now draw dto).consumed_at ≡ none
        × ((decoy now draw dto).user_id ≡ none)
        × ((decoy now draw dto).secret_hash ≡ host.bcrypt_hash draw.salt draw.secret)
        × ((decoy now draw dto).expires_at ≡ (code_answer now draw).expires_at)
  unfolding decoy kept code_challenge issued
  decoy_facts now draw dto = (refl, refl, refl, refl)

  -- The decoy of a request that no user stands behind cannot be completed: every code, at any time,
  -- is refused as expired or as no longer valid, if the drawn identifier is free and the drawn texts
  -- are not empty and hold no dot and no white space.
  pub decoy_refused :
      (now later : ℕ) (draw draw' : Draw) (dto : RequestLoginCodeDto) (code : String) (s : Db host)
      → target dto s ≡ none
      → stored host draw.jti s ≡ none
      → IsTokenParts draw.jti draw.secret
      → (verify_mfa_challenge host later draw'
          (code_answer now draw).challenge_token
          code
          (request_login_code host now draw dto s).1).0
        ≡ err (
            if leb (code_answer now draw).expires_at later
            then expired_challenge
            else invalid_challenge)
  unfolding verify_mfa_challenge load kept_code decoy
  decoy_refused now later draw draw' dto code s nobody free parts =
      let parses =
        parse_token-format_token draw.jti draw.secret parts.jti_text parts.secret_text
          parts.jti_filled parts.secret_filled in
      let (unspent, nameless, hashed, expires) = decoy_facts now draw dto in
      let t = (request_login_code host now draw dto s).1 in
      let found : stored host draw.jti t ≡ some (decoy now draw dto) =
        stored-request_login_code now draw dto s free ∙ (rw nobody refl) in
      let fits : host.bcrypt_compare draw.secret (decoy now draw dto).secret_hash ≡ true =
        rw hashed (host.compare-hash draw.salt draw.secret) in
      rw (parses, found, ← expires)
        (nameless_step later draw' (record { jti = draw.jti; secret = draw.secret })
          (decoy now draw dto) code t unspent
          (kept_room host now draw (code_challenge host draw dto none)) fits nameless)
