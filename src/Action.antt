-- ===== src/Action.antt =====
-- A service method: it may throw, and what it wrote before the throw stays written. So the state
-- comes back beside the exception.
use saa_s_app_be.Prelude.{
  ℕ, String, ◌≡◌, refl, ◌⊎◌, inl, inr, Bool, true, false, Option, none, some,
}

-- The message of an exception, with the numbers that the source puts into it.
pub data Message : Type 0 where
  text : String → Message
  attempts_remaining : ℕ → Message
  plan_maximum : ℕ → String → Message
  storage_quota : (quota_mb used_bytes : ℕ) → Message
  -- a text that names an object
  about : (what name : String) → Message

-- The exceptions of NestJS by class, and a plain `Error`.
pub data Exception : Type 0 where
  bad_request unauthorized forbidden not_found conflict internal plain : Message → Exception
  -- the rejection of a promise of a remote service
  remote : Message → Exception

-- What a broken configuration or a broken stored value throws.
abbrev pub is_fault : Exception → Bool
is_fault (internal m) = true
is_fault (plain m) = true
is_fault _ = false

pub data Result (A : Type 0) : Type 0 where
  ok : A → Result A
  err : Exception → Result A

abbrev pub Action : Type 0 → Type 0 → Type 0
Action S A = S → Result A × S

module _ {S A : Type 0} where
  abbrev pub pure : A → Action S A
  pure a s = (ok a, s)

  abbrev pub throw : Exception → Action S A
  throw e s = (err e, s)

  abbrev pub gets : (S → A) → Action S A
  gets f s = (ok (f s), s)

  abbrev pub lift : Result A → Action S A
  lift r s = (r, s)

  -- a value that may be missing, and what is thrown then
  abbrev pub or_throw : Option A → Exception → Action S A
  or_throw none e s = (err e, s)
  or_throw (some a) e s = (ok a, s)

module _ {S : Type 0} where
  abbrev pub modify : (S → S) → Action S Unit
  modify f s = (ok tt, f s)

  abbrev pub throw_if : Bool → Exception → Action S Unit
  throw_if true e s = (err e, s)
  throw_if false e s = (ok tt, s)

  abbrev pub when : Bool → Action S Unit → Action S Unit
  when true m = m
  when false m = pure tt

module _ {S A B : Type 0} where
  abbrev pub continue : Result A → (A → Action S B) → Action S B
  continue (ok a) f s = f a s
  continue (err e) f s = (err e, s)

  infixl 5 ◌>>=◌
  abbrev pub ◌>>=◌ : Action S A → (A → Action S B) → Action S B
  ◌>>=◌ m f s = let (r, s') = m s in continue r f s'

module _ {S B : Type 0} where
  infixl 5 ◌>>◌
  abbrev pub ◌>>◌ : Action S Unit → Action S B → Action S B
  m >> k = m >>= λ _. k

-- `m.catch(() => {})`: the exception is dropped and its writes stay.
module _ {S : Type 0} where
  abbrev pub ignore : Result Unit × S → Result Unit × S
  ignore (_, s) = (ok tt, s)

-- Inversion of a bind that returned.
module _ {S A B : Type 0} where
  pub >>=-eq-ok :
      (m : Action S A) (f : A → Action S B) (s : S) {b : B}
      → ((m >>= f) s).0 ≡ ok b
      → (a : A) × ((m s).0 ≡ ok a) × ((f a (m s).1).0 ≡ ok b)
  >>=-eq-ok m f s {b} h = go (m s).0 refl h
    where
      go :
          (r : Result A)
          → (m s).0 ≡ r
          → (continue r f (m s).1).0 ≡ ok b
          → (a : A) × ((m s).0 ≡ ok a) × ((f a (m s).1).0 ≡ ok b)
      go (ok a) e k = (a, e, k)
      go (err x) e k = cc

module _ {A : Type 0} where
  pub Result-cases : (r : Result A) → ((a : A) × (r ≡ ok a)) ⊎ ((e : Exception) × (r ≡ err e))
  Result-cases (ok a) = inl (a, refl)
  Result-cases (err e) = inr (e, refl)
