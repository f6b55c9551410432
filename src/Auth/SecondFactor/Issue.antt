-- ===== src/Auth/SecondFactor/Issue.antt =====
-- A fresh challenge: it is sound, and its budget is the configured number of attempts.
use saa_s_app_be.Prelude.{
  ℕ, ◌≤◌, ◌<◌, String, ◌≡◌, refl, ap, sym, ◌∙◌, none, some, arith, Bool-cases, inl, inr, eq_iff,
  eq_refl, ◌==◌, List,
}
use saa_s_app_be.Action.{ok}
use saa_s_app_be.Host.{Host}
use saa_s_app_be.Auth.Model.{Db, MfaChallenge, Draw}
use saa_s_app_be.Auth.Challenge.{
  IssueChallengeInput, IssuedChallenge, issue, issued, get_max_attempts,
}
use saa_s_app_be.Auth.Challenge.Laws.{stored}
use saa_s_app_be.Auth.Challenge.Issued.{kept, kept_room, kept_jti, issue-eq-ok, stored-issue}
use saa_s_app_be.Auth.SecondFactor.Budget.{IsSound, remaining}
use saa_s_app_be.Auth.SecondFactor.Guesses.{Guess, count_wrong, count_wrong_bounded}

module _ (host : Host) (now : ℕ) (draw : Draw) (input : IssueChallengeInput) where
  after_issue :
      (s : Db host) (j : String) (c : MfaChallenge)
      → IsSound host s
      → stored host draw.jti s ≡ none
      → stored host j (issue host now draw input s).1 ≡ some c
      → (c.jti ≡ j) × (c.attempt_count < c.max_attempts)
  after_issue s j c sound free h = elim (Bool-cases (draw.jti == j)) [
    | inr other ↦
        let was : stored host j s ≡ some c =
          ground (arith, stored-issue host now draw input j s free) in
        (sound.keyed j c was, sound.has_attempts j c was)
    | inl this ↦
        let same : kept host now draw input ≡ c =
          ground (arith, stored-issue host now draw input j s free) in
        (
          ap (λ d. d.jti) (sym same) ∙ kept_jti host now draw input ∙ (eq_iff draw.jti j).0 this,
          rw (← same) (kept_room host now draw input),
        )
  ]

  -- `issue` keeps the stored challenges sound.
  pub issue-IsSound :
      (s : Db host) (r : IssuedChallenge)
      → IsSound host s
      → (issue host now draw input s).0 ≡ ok r
      → IsSound host (issue host now draw input s).1
  issue-IsSound s r sound h =
      let free = (issue-eq-ok host now draw input s r h).1 in
      record {
        keyed = λ j c e. (after_issue s j c sound free e).0;
        has_attempts = λ j c e. (after_issue s j c sound free e).1;
      }

  remaining-kept : remaining (some (kept host now draw input)) ≡ get_max_attempts host
  unfolding kept issued
  remaining-kept = ground arith

  -- Of a challenge that was just issued, any sequence of calls of `verifyMfaChallenge` gets at most
  -- the configured number of wrong codes answered, whatever the tokens, the codes and the times are,
  -- if the stored challenges were sound before.
  pub issued_budget :
      (s : Db host) (r : IssuedChallenge) (gs : List Guess)
      → IsSound host s
      → (issue host now draw input s).0 ≡ ok r
      → count_wrong host draw.jti gs (issue host now draw input s).1 ≤ get_max_attempts host
  issued_budget s r gs sound h =
      let t = (issue host now draw input s).1 in
      let bound = count_wrong_bounded host draw.jti gs t (issue-IsSound s r sound h) in
      let free = (issue-eq-ok host now draw input s r h).1 in
      let found : stored host draw.jti t ≡ some (kept host now draw input) =
        stored-issue host now draw input draw.jti s free ∙ (rw (eq_refl draw.jti) refl) in
      let left : remaining (stored host draw.jti t) ≡ get_max_attempts host =
        ap remaining found ∙ remaining-kept in
      omega arith
