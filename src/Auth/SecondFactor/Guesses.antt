-- ===== src/Auth/SecondFactor/Guesses.antt =====
-- A sequence of calls of `verifyMfaChallenge`, and how many of its wrong codes one challenge takes.
use saa_s_app_be.Prelude.{
  ℕ, ◌+◌, ◌≤◌, ◌<◌, String, ◌≡◌, ap, ◌∙◌, Bool, true, false, ◌&&◌, Option, none, some, arith,
  Bool-cases, inl, inr, eq_iff, ◌==◌, List, [], ◌∷◌,
}
use saa_s_app_be.Text.Token.{OpaqueToken, parse_token}
use saa_s_app_be.Action.{Exception, Result, Result-cases, ok, err}
use saa_s_app_be.Host.{Host}
use saa_s_app_be.Auth.Model.{Db, MfaChallenge, Draw}
use saa_s_app_be.Auth.Challenge.{load, register_failed_attempt}
use saa_s_app_be.Auth.Challenge.Laws.{
  stored, load-IsLive, load_state, stored-register_failed_attempt,
}
use saa_s_app_be.Auth.Session.{AuthSession}
use saa_s_app_be.Auth.SecondFactor.{finish, complete, verify_for, verify_mfa_challenge}
use saa_s_app_be.Auth.SecondFactor.Laws.{CompleteCase, complete_cases, challenges-verify_for}
use saa_s_app_be.Auth.SecondFactor.Budget.{
  remaining, IsSound, Ages-remaining, Aged, Aged-complete, stored_of_challenges,
}
use saa_s_app_be.Auth.SecondFactor.Messages.{is_wrong_answer, redeem_message}
use saa_s_app_be.Auth.SecondFactor.Sound.{IsSound-Aged, load-err}

-- One call of `verifyMfaChallenge`.
pub record Guess : Type 0 where
  pub now : ℕ
  pub draw : Draw
  pub challenge_token : String
  pub code : String

abbrev names_challenge : String → Option OpaqueToken → Bool
names_challenge jti none = false
names_challenge jti (some parsed) = parsed.jti == jti

abbrev weight : Bool → ℕ
weight true = 1
weight false = 0

module _ (host : Host) where
  unfoldable pub guess : Guess → Db host → Result AuthSession × Db host
  guess g = verify_mfa_challenge host g.now g.draw g.challenge_token g.code

  -- whether a call is answered as a wrong code for the challenge
  unfoldable pub is_wrong_guess : String → Guess → Db host → Bool
  unfolding guess
  is_wrong_guess jti g s =
      names_challenge jti (parse_token g.challenge_token) && is_wrong_answer (guess g s).0

  -- the wrong codes that a sequence of calls tries against the challenge
  unfoldable pub count_wrong : String → List Guess → Db host → ℕ
  unfolding guess is_wrong_guess
  count_wrong jti [] s = 0
  count_wrong jti (g ∷ gs) s = weight (is_wrong_guess jti g s) + count_wrong jti gs (guess g s).1

  quiet :
      (b w : Bool) (before after : ℕ)
      → w ≡ false
      → after ≤ before
      → weight (b && w) + after ≤ before
  quiet b w before after h k = ground arith

  counted :
      (b w : Bool) (before after : ℕ) → weight b + after ≤ before → weight (b && w) + after ≤ before
  counted true true before after k = k
  counted true false before after k = omega arith
  counted false w before after k = k

  module _ (now : ℕ) (draw : Draw) (c : MfaChallenge) (code : String) where
    failed_step :
        (j : String) (s t : Db host)
        → stored host c.jti s ≡ some c
        → c.attempt_count < c.max_attempts
        → t.challenges ≡ s.challenges
        → weight (c.jti == j)
            + remaining (stored host j (register_failed_attempt host {A = AuthSession} c t).1)
          ≤ remaining (stored host j s)
    failed_step j s t is_stored room same = elim (Bool-cases (c.jti == j)) [
      | inr other ↦
          rw
            (
              stored-register_failed_attempt host AuthSession j c t,
              other,
              stored_of_challenges host s t same j,
            )
            (omega arith)
      | inl this ↦
          let at : stored host j s ≡ some c = rw (← (eq_iff c.jti j).0 this) is_stored in
          rw
            (
              stored-register_failed_attempt host AuthSession j c t,
              this,
              stored_of_challenges host s t same j,
              at,
            )
            (ground arith)
    ]

    complete_step :
        (j : String) (s : Db host)
        → stored host c.jti s ≡ some c
        → c.attempt_count < c.max_attempts
        → weight (c.jti == j && is_wrong_answer (complete host now draw c code s).0)
            + remaining (stored host j (complete host now draw c code s).1)
          ≤ remaining (stored host j s)
    unfolding finish
    complete_step j s is_stored room =
        let fewer =
          Ages-remaining (stored host j s) (stored host j (complete host now draw c code s).1)
            (Aged-complete host now draw c code s is_stored j) in
        elim (complete_cases host now draw c code s) [
          | CompleteCase.stopped e other at ↦ quiet (c.jti == j) _ _ _ (rw at other) fewer
          | CompleteCase.failed user_id e other at ↦ quiet (c.jti == j) _ _ _ (rw at other) fewer
          | CompleteCase.reached user_id user (some method) checked at ↦
              quiet (c.jti == j) _ _ _
                (rw at (redeem_message host now draw c user user_id method _)) fewer
          | CompleteCase.reached user_id user none checked at ↦
              let t = (verify_for host now c user_id code s).1 in
              rw at (
                counted (c.jti == j) _ _ _ (
                  failed_step j s t is_stored room
                    (challenges-verify_for host now c user_id code s)))
        ]

  loaded_step :
      (jti : String) (g : Guess) (s : Db host) (c : MfaChallenge)
      → IsSound host s
      → (load host g.now g.challenge_token s).0 ≡ ok c
      → (weight (is_wrong_guess jti g s) + remaining (stored host jti (guess g s).1)
          ≤ remaining (stored host jti s))
        × Aged host s (guess g s).1
  unfolding guess is_wrong_guess verify_mfa_challenge
  loaded_step jti g s c sound loads =
      let live = load-IsLive host g.now g.challenge_token s c loads in
      let key = sound.keyed live.parsed.jti c live.is_stored in
      let here : stored host c.jti s ≡ some c = ap (λ k. stored host k s) key ∙ live.is_stored in
      rw (live.parses, loads, load_state host g.now g.challenge_token s c loads, ← key)
        (
          complete_step g.now g.draw c g.code jti s here live.has_attempts,
          Aged-complete host g.now g.draw c g.code s here,
        )

  refused_step :
      (jti : String) (g : Guess) (s : Db host) (e : Exception)
      → IsSound host s
      → (load host g.now g.challenge_token s).0 ≡ err e
      → (weight (is_wrong_guess jti g s) + remaining (stored host jti (guess g s).1)
          ≤ remaining (stored host jti s))
        × Aged host s (guess g s).1
  unfolding guess is_wrong_guess verify_mfa_challenge
  refused_step jti g s e sound refused =
      let (other, aged) = load-err host g.now g.challenge_token s e sound refused in
      rw refused (
        quiet (names_challenge jti (parse_token g.challenge_token)) _ _ _ other
            (Ages-remaining _ _ (aged jti)),
        aged,
      )

  pub guess_step :
      (jti : String) (g : Guess) (s : Db host)
      → IsSound host s
      → (weight (is_wrong_guess jti g s) + remaining (stored host jti (guess g s).1)
          ≤ remaining (stored host jti s))
        × Aged host s (guess g s).1
  guess_step jti g s sound = elim (Result-cases (load host g.now g.challenge_token s).0) [
    | inl (c, loads) ↦ loaded_step jti g s c sound loads
    | inr (e, refused) ↦ refused_step jti g s e sound refused
  ]

  unfoldable pub run : List Guess → Db host → Db host
  run [] s = s
  run (g ∷ gs) s = run gs (guess g s).1

  -- Verifying a second factor keeps the stored challenges sound: each stands under its own
  -- identifier and has an attempt left.
  pub guess-IsSound : (g : Guess) (s : Db host) → IsSound host s → IsSound host (guess g s).1
  guess-IsSound g s sound = IsSound-Aged host s (guess g s).1 sound (guess_step "" g s sound).1

  -- Over any sequence of calls of `verifyMfaChallenge`, with any tokens and codes and at any times,
  -- the wrong codes answered for one challenge are at most the attempts that its stored record still
  -- allows at the start, if the stored challenges are sound then.
  pub count_wrong_bounded :
      (jti : String) (gs : List Guess) (s : Db host)
      → IsSound host s
      → count_wrong jti gs s ≤ remaining (stored host jti s)
  unfolding count_wrong
  count_wrong_bounded jti [] s sound = omega arith
  count_wrong_bounded jti (g ∷ gs) s sound =
      let now_left = (guess_step jti g s sound).0 in
      let later = count_wrong_bounded jti gs (guess g s).1 (guess-IsSound g s sound) in omega arith
