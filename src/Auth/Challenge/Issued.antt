-- ===== src/Auth/Challenge/Issued.antt =====
-- What `issue` stores, and that `load` accepts it.
use saa_s_app_be.Prelude.{
  ℕ, ◌+◌, ◌*◌, ◌<◌, String, ◌≡◌, refl, ◌∙◌, false, Option, none, some, arith, eq_iff, eq_refl, ◌==◌,
  is_empty, or_default, leb, if◌then◌else◌,
}
use saa_s_app_be.Text.Laws.{IsTokenText}
use saa_s_app_be.Text.Token.{format_token, parse_token-format_token}
use saa_s_app_be.Action.{ok}
use saa_s_app_be.Host.{Host}
use saa_s_app_be.Auth.Config.{Parsed, or_fallback, parse_int, read_positive_integer}
use saa_s_app_be.Auth.Model.{Db, MfaChallenge, Draw}
use saa_s_app_be.Auth.Repositories.MfaChallenges.{stored_user_id, create, find_by_jti_with_code}
use saa_s_app_be.Auth.Challenge.{
  IssueChallengeInput, IssuedChallenge, issue, issued, load, check_challenge, get_max_attempts,
  get_ttl_minutes,
}
use saa_s_app_be.Auth.Challenge.Laws.{stored}

or_fallback_positive : (p : Parsed) (n : ℕ) → 0 < n → 0 < or_fallback p n
or_fallback_positive p n h = ground arith

read_positive_integer_positive : (o : Option String) (n : ℕ) → 0 < n → 0 < read_positive_integer o n
unfolding read_positive_integer
read_positive_integer_positive none n h = or_fallback_positive (parse_int "") n h
read_positive_integer_positive (some raw) n h = or_fallback_positive (parse_int raw) n h

-- A pair of texts that `format_token` puts together so that they can be taken apart.
pub record IsTokenParts (jti secret : String) : Type 0 where
  pub jti_text : IsTokenText jti
  pub secret_text : IsTokenText secret
  pub jti_filled : is_empty jti ≡ false
  pub secret_filled : is_empty secret ≡ false

module _ (host : Host) (now : ℕ) (draw : Draw) (input : IssueChallengeInput) where
  -- the document as it is stored
  unfoldable pub kept : MfaChallenge
  unfolding issued
  kept = record (issued host now draw input) {
    user_id = stored_user_id host.is_object_id input.user_id;
  }

  unfoldable pub ticket : IssuedChallenge
  ticket = record {
    challenge_token = format_token draw.jti draw.secret;
    expires_at = now + or_default input.ttl_minutes (get_ttl_minutes host) * 60000;
  }

  pub kept_room : kept.attempt_count < kept.max_attempts
  unfolding kept get_max_attempts
  kept_room = read_positive_integer_positive (host.config "MFA_MAX_VERIFY_ATTEMPTS") 5 (omega arith)

  pub kept_jti : kept.jti ≡ draw.jti
  unfolding kept
  kept_jti = refl

  -- `issue` succeeds exactly if the drawn identifier is free, and says what it stored.
  pub issue_answer :
      (s : Db host) → stored host draw.jti s ≡ none → (issue host now draw input s).0 ≡ ok ticket
  unfolding issue issued create find_by_jti_with_code ticket kept
  issue_answer s free = ground (arith, host.mongo.insert_done draw.jti kept s.challenges)

  pub issue-eq-ok :
      (s : Db host) (r : IssuedChallenge)
      → (issue host now draw input s).0 ≡ ok r
      → (r ≡ ticket) × (stored host draw.jti s ≡ none)
  unfolding issue issued create find_by_jti_with_code ticket kept
  issue-eq-ok s r h =
      let done = host.mongo.insert_done draw.jti kept s.challenges in
      (ground (arith, done), ground (arith, done))

  pub stored-issue :
      (j : String) (s : Db host)
      → stored host draw.jti s ≡ none
      → stored host j (issue host now draw input s).1
        ≡ (if draw.jti == j then some kept else stored host j s)
  unfolding issue issued create find_by_jti_with_code kept
  stored-issue j s free = ground (
    arith,
    eq_iff draw.jti j,
    host.mongo.insert_done draw.jti kept s.challenges,
    host.mongo.find-insert j draw.jti kept s.challenges,
  )

  check_challenge-kept :
      (later : ℕ) (s : Db host)
      → later < ticket.expires_at
      → check_challenge host later (record { jti = draw.jti; secret = draw.secret }) kept s
        ≡ (ok kept, s)
  unfolding check_challenge kept ticket
  check_challenge-kept later s early =
      let late : leb kept.expires_at later ≡ false = ground arith in
      let used : leb kept.max_attempts kept.attempt_count ≡ false = ground (arith, kept_room) in
      rw (late, used, host.compare-hash draw.salt draw.secret) refl

  -- The token of a challenge that was just issued is accepted by `load` at any time before it
  -- expires, as the challenge that was stored, if the drawn identifier and secret are not empty and
  -- hold no dot and no white space.
  pub load-issue :
      (later : ℕ) (s : Db host) (r : IssuedChallenge)
      → IsTokenParts draw.jti draw.secret
      → (issue host now draw input s).0 ≡ ok r
      → later < r.expires_at
      → (load host later r.challenge_token (issue host now draw input s).1).0 ≡ ok kept
  unfolding load ticket
  load-issue later s r parts h early =
      let (same, free) = issue-eq-ok s r h in
      let t = (issue host now draw input s).1 in
      let parses =
        parse_token-format_token draw.jti draw.secret parts.jti_text parts.secret_text
          parts.jti_filled parts.secret_filled in
      let found : stored host draw.jti t ≡ some kept =
        stored-issue draw.jti s free ∙ (rw (eq_refl draw.jti) refl) in
      rw (same, parses, found, check_challenge-kept later t (rw same at early)) refl
