-- ===== src/Auth/SecondFactor/Once.antt =====
-- A challenge is redeemed at most once.
use saa_s_app_be.Prelude.{
  ℕ, String, ◌≡◌, refl, ap, ◌∙◌, true, Option, none, some, arith, Option-cases, inl, inr, eq_refl,
  List, [], ◌∷◌, is_some,
}
use saa_s_app_be.Text.Token.{OpaqueToken, parse_token}
use saa_s_app_be.Action.{Result-cases, ok, err}
use saa_s_app_be.Host.{Host}
use saa_s_app_be.Mongo.{updated}
use saa_s_app_be.Auth.Model.{Db, User, MfaChallenge, Method, Draw}
use saa_s_app_be.Auth.Repositories.MfaChallenges.{is_unspent, spent_at}
use saa_s_app_be.Auth.Challenge.{invalid_challenge, load, check_challenge, consume, clear_for_user}
use saa_s_app_be.Auth.Challenge.Laws.{
  stored, load-IsLive, load_state, register_failed_attempt-throws, stored-consume,
  clear_for_user_answer,
}
use saa_s_app_be.Auth.Session.{AuthSession, issue_token_pair}
use saa_s_app_be.Auth.Session.Laws.{challenges-issue_token_pair}
use saa_s_app_be.Auth.SecondFactor.{finish, complete, verify_mfa_challenge}
use saa_s_app_be.Auth.SecondFactor.Laws.{CompleteCase, complete_cases}
use saa_s_app_be.Auth.SecondFactor.Budget.{
  IsSound, is_spent, Ages-is_spent, Aged, Aged-clear_for_user, Aged-challenges,
}
use saa_s_app_be.Auth.SecondFactor.Guesses.{Guess, guess, run, guess_step, guess-IsSound}

updated-is_spent :
    (now : ℕ) (o : Option MfaChallenge) → is_spent (updated is_unspent (spent_at now) o) ≡ true
updated-is_spent now none = refl
updated-is_spent now (some c) = ground arith

module _ (host : Host) where
  spent-consume :
      (now : ℕ) (c : MfaChallenge) (s : Db host)
      → is_spent (stored host c.jti (consume host now c s).1) ≡ true
  spent-consume now c s =
      rw (stored-consume host now c.jti c s, eq_refl c.jti)
        (updated-is_spent now (stored host c.jti s))

  spent_later :
      (j : String) (s t : Db host)
      → Aged host s t
      → is_spent (stored host j s) ≡ true
      → is_spent (stored host j t) ≡ true
  spent_later j s t aged = Ages-is_spent (stored host j s) (stored host j t) (aged j)

  spent-redeem :
      (now : ℕ) (draw : Draw) (c : MfaChallenge) (user : User) (user_id : String) (method : Method)
      (s : Db host) (r : AuthSession)
      → (finish host now draw c user user_id (some method) s).0 ≡ ok r
      → is_spent (stored host c.jti (finish host now draw c user user_id (some method) s).1) ≡ true
  unfolding finish
  spent-redeem now draw c user user_id method s r h = elim (Result-cases (consume host now c s).0) [
    | inr (e, lost) ↦ absurd (ground arith)
    | inl (_, won) ↦
        let t = (consume host now c s).1 in
        let u = (issue_token_pair host now draw user none t).1 in
        elim (Result-cases (issue_token_pair host now draw user none t).0) [
          | inr (e, refused) ↦ absurd (ground arith)
          | inl (x, issued) ↦
              rw (won, issued, clear_for_user_answer host user_id u)
                (spent_later c.jti u (clear_for_user host user_id u).1
                  (Aged-clear_for_user host user_id u)
                  (spent_later c.jti t u
                    (Aged-challenges host t u
                      (challenges-issue_token_pair host now draw user none t))
                    (spent-consume now c s)))
        ]
  ]

  spent-complete :
      (now : ℕ) (draw : Draw) (c : MfaChallenge) (code : String) (s : Db host) (r : AuthSession)
      → (complete host now draw c code s).0 ≡ ok r
      → is_spent (stored host c.jti (complete host now draw c code s).1) ≡ true
  unfolding finish
  spent-complete now draw c code s r h = elim (complete_cases host now draw c code s) [
    | CompleteCase.stopped e _ at ↦ absurd (ground arith)
    | CompleteCase.failed user_id e _ at ↦ absurd (ground arith)
    | CompleteCase.reached user_id user none checked at ↦
        absurd (register_failed_attempt-throws host c _ r (rw at at h))
    | CompleteCase.reached user_id user (some method) checked at ↦
        rw at (spent-redeem now draw c user user_id method _ r (rw at at h))
  ]

  spent-run :
      (jti : String) (gs : List Guess) (s : Db host)
      → IsSound host s
      → is_spent (stored host jti s) ≡ true
      → is_spent (stored host jti (run host gs s)) ≡ true
  unfolding run
  spent-run jti [] s sound h = h
  spent-run jti (g ∷ gs) s sound h =
      spent-run jti gs (guess host g s).1 (guess-IsSound host g s sound)
        (spent_later jti s (guess host g s).1 (guess_step host jti g s sound).1 h)

  load-spent :
      (now : ℕ) (token : String) (s : Db host) (p : OpaqueToken)
      → parse_token token ≡ some p
      → is_spent (stored host p.jti s) ≡ true
      → (load host now token s).0 ≡ err invalid_challenge
  unfolding load check_challenge
  load-spent now token s p parses h = elim (Option-cases (stored host p.jti s)) [
    | inl missing ↦ rw (parses, missing) refl
    | inr (c, found) ↦
        let spent : is_some c.consumed_at ≡ true = rw found at h in rw (parses, found, spent) refl
  ]

  guess-spent :
      (g : Guess) (s : Db host) (p : OpaqueToken)
      → parse_token g.challenge_token ≡ some p
      → is_spent (stored host p.jti s) ≡ true
      → (guess host g s).0 ≡ err invalid_challenge
  unfolding guess verify_mfa_challenge
  guess-spent g s p parses h = rw (load-spent g.now g.challenge_token s p parses h) refl

  spent-guess :
      (g : Guess) (s : Db host) (r : AuthSession)
      → IsSound host s
      → (guess host g s).0 ≡ ok r
      → (p : OpaqueToken) × (parse_token g.challenge_token ≡ some p)
        × (is_spent (stored host p.jti (guess host g s).1) ≡ true)
  unfolding guess verify_mfa_challenge
  spent-guess g s r sound h = elim (Result-cases (load host g.now g.challenge_token s).0) [
    | inr (e, refused) ↦ absurd (ground arith)
    | inl (c, loads) ↦
        let live = load-IsLive host g.now g.challenge_token s c loads in
        let key = sound.keyed live.parsed.jti c live.is_stored in
        let same = load_state host g.now g.challenge_token s c loads in
        (
          live.parsed,
          live.parses,
          rw (loads, same, ← key)
              (spent-complete g.now g.draw c g.code s r (rw (loads, same) at h)),
        )
  ]

  -- A challenge token is redeemed at most once: after a call of `verifyMfaChallenge` that returned a
  -- session, and after any further calls with any tokens, every call with the same token is refused
  -- as no longer valid, if the stored challenges were sound at the start.
  pub redeemed_once :
      (g again : Guess) (gs : List Guess) (s : Db host) (r : AuthSession)
      → IsSound host s
      → (guess host g s).0 ≡ ok r
      → again.challenge_token ≡ g.challenge_token
      → (guess host again (run host gs (guess host g s).1)).0 ≡ err invalid_challenge
  redeemed_once g again gs s r sound h same =
      let (p, parses, spent) = spent-guess g s r sound h in
      guess-spent again (run host gs (guess host g s).1) p (ap parse_token same ∙ parses)
        (spent-run p.jti gs (guess host g s).1 (guess-IsSound host g s sound) spent)
