-- ===== src/Auth/SecondFactor/Budget.antt =====
-- The budget of guesses of a challenge: how many wrong codes can be tried against it.
use saa_s_app_be.Prelude.{
  ℕ, ◌+◌, ◌-◌, ◌≤◌, ◌<◌, String, ◌≡◌, refl, ap, ◌∙◌, Bool, true, Option, none, some, arith,
  Bool-cases, inl, inr, eq_iff, ◌==◌, leb, is_some,
}
use saa_s_app_be.Action.{Result-cases}
use saa_s_app_be.Host.{Host}
use saa_s_app_be.Mongo.{updated, spared}
use saa_s_app_be.Auth.Model.{Db, User, MfaChallenge, Method, Draw}
use saa_s_app_be.Auth.Repositories.MfaChallenges.{
  has_user, is_unspent, spent_at, find_by_jti_with_code,
}
use saa_s_app_be.Auth.Challenge.{consume, clear_for_user, register_failed_attempt}
use saa_s_app_be.Auth.Challenge.Laws.{
  stored, after_failure, stored-register_failed_attempt, stored-consume, stored-clear_for_user,
  clear_for_user_answer,
}
use saa_s_app_be.Auth.Session.{AuthSession, issue_token_pair}
use saa_s_app_be.Auth.Session.Laws.{challenges-issue_token_pair}
use saa_s_app_be.Auth.SecondFactor.{finish, complete, verify_for}
use saa_s_app_be.Auth.SecondFactor.Laws.{CompleteCase, complete_cases, challenges-verify_for}

-- how many wrong codes a stored challenge can still take
abbrev pub remaining : Option MfaChallenge → ℕ
remaining none = 0
remaining (some c) = c.max_attempts - c.attempt_count

-- Every stored challenge stands under its own identifier, with attempts left.
pub record IsSound (host : Host) (s : Db host) : Type 0 where
  pub keyed : (j : String) (c : MfaChallenge) → stored host j s ≡ some c → c.jti ≡ j
  pub has_attempts :
      (j : String) (c : MfaChallenge) → stored host j s ≡ some c → c.attempt_count < c.max_attempts

-- How a stored challenge may change: it may go, and what is left of it keeps its identifier and its
-- limit, has at least as many attempts counted, has one left, and stays spent.
abbrev pub Ages : Option MfaChallenge → Option MfaChallenge → Type 0
Ages before none = Unit
Ages none (some d) = ⊥
Ages (some c) (some d) =
    (d.jti ≡ c.jti)
    × (d.max_attempts ≡ c.max_attempts)
    × (c.attempt_count ≤ d.attempt_count)
    × (c.attempt_count < c.max_attempts → d.attempt_count < d.max_attempts)
    × (is_some c.consumed_at ≡ true → is_some d.consumed_at ≡ true)

-- A challenge that cannot be redeemed any more: it is gone, or it is spent.
abbrev pub is_spent : Option MfaChallenge → Bool
is_spent none = true
is_spent (some c) = is_some c.consumed_at

pub Ages-refl : (o : Option MfaChallenge) → Ages o o
Ages-refl none = tt
Ages-refl (some c) = (refl, refl, omega arith, (λ h. h), (λ h. h))

Ages-trans : (a b c : Option MfaChallenge) → Ages a b → Ages b c → Ages a c
Ages-trans a b none h k = tt
Ages-trans a none (some d) h k = absurd k
Ages-trans none (some x) (some d) h k = absurd h
Ages-trans (some y) (some x) (some d) h k =
    (k.0 ∙ h.0, k.1 ∙ h.1, omega arith, (λ l. k.3 (h.3 l)), (λ l. k.4 (h.4 l)))

pub Ages-remaining : (a b : Option MfaChallenge) → Ages a b → remaining b ≤ remaining a
Ages-remaining a none h = omega arith
Ages-remaining none (some d) h = absurd h
Ages-remaining (some c) (some d) h = omega arith

pub Ages-is_spent : (a b : Option MfaChallenge) → Ages a b → is_spent a ≡ true → is_spent b ≡ true
Ages-is_spent a none h k = refl
Ages-is_spent none (some d) h k = absurd h
Ages-is_spent (some c) (some d) h k = h.4 k

Ages-updated : (now : ℕ) (o : Option MfaChallenge) → Ages o (updated is_unspent (spent_at now) o)
Ages-updated now none = tt
Ages-updated now (some c) = ground arith

Ages-spared : (u : String) (o : Option MfaChallenge) → Ages o (spared (has_user u) o)
Ages-spared u none = tt
Ages-spared u (some c) = elim (Bool-cases (has_user u c)) [
  | inl gone ↦ rw gone tt
  | inr kept ↦ rw kept (Ages-refl (some c))
]

-- A failed attempt against a challenge that is stored under the same limit.
Ages-after_failure :
    (budget : ℕ) (o : Option MfaChallenge)
    → ((c : MfaChallenge) → o ≡ some c → c.max_attempts ≡ budget)
    → Ages o (after_failure budget o)
Ages-after_failure budget none h = tt
Ages-after_failure budget (some c) h = elim (Bool-cases (leb budget (c.attempt_count + 1))) [
  | inl full ↦ rw full tt
  | inr room ↦ rw room (refl, refl, omega arith, (λ l. ground (arith, h c refl)), (λ l. l))
]

module _ (host : Host) where
  -- All challenges age from one state to the next.
  abbrev pub Aged : Db host → Db host → Type 0
  Aged s t = (j : String) → Ages (stored host j s) (stored host j t)

  Aged-consume : (now : ℕ) (c : MfaChallenge) (s : Db host) → Aged s (consume host now c s).1
  Aged-consume now c s j = elim (Bool-cases (c.jti == j)) [
    | inl same ↦ rw (stored-consume host now j c s, same) (Ages-updated now (stored host j s))
    | inr other ↦ rw (stored-consume host now j c s, other) (Ages-refl (stored host j s))
  ]

  pub Aged-clear_for_user : (u : String) (s : Db host) → Aged s (clear_for_user host u s).1
  Aged-clear_for_user u s j = elim (Bool-cases (host.is_object_id u)) [
    | inl valid ↦ rw (stored-clear_for_user host j u s, valid) (Ages-spared u (stored host j s))
    | inr invalid ↦ rw (stored-clear_for_user host j u s, invalid) (Ages-refl (stored host j s))
  ]

  pub stored_of_challenges :
      (s t : Db host)
      → t.challenges ≡ s.challenges
      → (j : String) → stored host j t ≡ stored host j s
  unfolding find_by_jti_with_code
  stored_of_challenges s t same j = ap (host.mongo.find_one j) same

  pub Aged-challenges : (s t : Db host) → t.challenges ≡ s.challenges → Aged s t
  unfolding find_by_jti_with_code
  Aged-challenges s t same j = rw same (Ages-refl (host.mongo.find_one j s.challenges))

  Aged-trans : (s t u : Db host) → Aged s t → Aged t u → Aged s u
  Aged-trans s t u h k j =
      Ages-trans (stored host j s) (stored host j t) (stored host j u) (h j) (k j)

  module _ (now : ℕ) (draw : Draw) (c : MfaChallenge) where
    Aged-redeem :
        (user : User) (user_id : String) (method : Method) (s : Db host)
        → Aged s (finish host now draw c user user_id (some method) s).1
    unfolding finish
    Aged-redeem user user_id method s = elim (Result-cases (consume host now c s).0) [
      | inr (e, lost) ↦ rw lost (Aged-consume now c s)
      | inl (_, won) ↦
          let t = (consume host now c s).1 in
          let u = (issue_token_pair host now draw user none t).1 in
          let to_u =
            Aged-trans s t u (Aged-consume now c s)
              (Aged-challenges t u (challenges-issue_token_pair host now draw user none t)) in
          elim (Result-cases (issue_token_pair host now draw user none t).0) [
            | inr (e, refused) ↦ rw (won, refused) to_u
            | inl (r, issued) ↦
                rw (won, issued, clear_for_user_answer host user_id u)
                  (Aged-trans s u (clear_for_user host user_id u).1 to_u
                    (Aged-clear_for_user user_id u))
          ]
    ]

    Aged-fail :
        (A : Type 0) (s : Db host)
        → ((d : MfaChallenge) → stored host c.jti s ≡ some d → d.max_attempts ≡ c.max_attempts)
        → Aged s (register_failed_attempt host {A = A} c s).1
    Aged-fail A s same_limit j = elim (Bool-cases (c.jti == j)) [
      | inl same ↦
          rw (stored-register_failed_attempt host A j c s, same)
            (Ages-after_failure c.max_attempts (stored host j s)
              (λ d e. same_limit d (ap (λ k. stored host k s) ((eq_iff c.jti j).0 same) ∙ e)))
      | inr other ↦
          rw (stored-register_failed_attempt host A j c s, other) (Ages-refl (stored host j s))
    ]

    Aged-finish :
        (user : User) (user_id : String) (method : Option Method) (s : Db host)
        → stored host c.jti s ≡ some c
        → Aged s (finish host now draw c user user_id method s).1
    unfolding finish
    Aged-finish user user_id none s is_stored =
        Aged-fail AuthSession s (λ d e. ground (arith, e, is_stored))
    Aged-finish user user_id (some method) s is_stored = Aged-redeem user user_id method s

    -- What the rest of `verifyMfaChallenge` does to the challenges, for a challenge that is stored.
    pub Aged-complete :
        (code : String) (s : Db host)
        → stored host c.jti s ≡ some c
        → Aged s (complete host now draw c code s).1
    Aged-complete code s is_stored = elim (complete_cases host now draw c code s) [
      | CompleteCase.stopped e _ at ↦ rw at (λ j. Ages-refl (stored host j s))
      | CompleteCase.failed user_id e _ at ↦
          rw at (Aged-challenges s _ (challenges-verify_for host now c user_id code s))
      | CompleteCase.reached user_id user method checked at ↦
          let t = (verify_for host now c user_id code s).1 in
          let same = challenges-verify_for host now c user_id code s in
          rw at (
            Aged-trans s t _ (Aged-challenges s t same)
              (Aged-finish user user_id method t (stored_of_challenges s t same c.jti ∙ is_stored)))
    ]
