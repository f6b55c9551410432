-- ===== src/Mongo/Sort.antt =====
-- `.sort(...)` of a query, as an interface: the server returns the documents of the query, each as
-- often as it is found, and is free in the order of those that compare equal, so that two queries with
-- the same sort may order them differently.
use saa_s_app_be.Prelude.{
  ℕ, ◌+◌, ◌≡◌, Bool, true, not, List, [], ◌∷◌, arith, if◌then◌else◌, Bool-cases, inl, inr,
}
use saa_s_app_be.Mongo.{All}

-- how many elements of a list fit
abbrev pub count_if : {A : Type 0} → (A → Bool) → List A → ℕ
count_if fits [] = 0
count_if fits (x ∷ xs) = (if fits x then 1 else 0) + count_if fits xs

-- The order of one query.
pub record Sorting (D : Type 0) : Type 0 where
  pub arrange : (D → D → Bool) → List D → List D
  pub count-arrange :
      (before : D → D → Bool) (xs : List D) (fits : D → Bool)
      → count_if fits (arrange before xs) ≡ count_if fits xs

module _ {A : Type 0} (fits : A → Bool) where
  none_unfit : (xs : List A) → All (λ x. fits x ≡ true) xs → count_if (λ x. not (fits x)) xs ≡ 0
  none_unfit [] h = ground arith
  none_unfit (x ∷ xs) h = let (first, _) = h in ground (arith, none_unfit xs h.1)

  count_if-All : (xs : List A) → count_if (λ x. not (fits x)) xs ≡ 0 → All (λ x. fits x ≡ true) xs
  count_if-All [] h = tt
  count_if-All (x ∷ xs) h = elim (Bool-cases (fits x)) [
    | inl fit ↦ (fit, count_if-All xs (ground arith))
    | inr unfit ↦ absurd (ground arith)
  ]

  -- A sort returns nothing but what the query finds.
  pub arrange-All :
      (order : Sorting A) (before : A → A → Bool) (xs : List A)
      → All (λ x. fits x ≡ true) xs
      → All (λ x. fits x ≡ true) (order.arrange before xs)
  arrange-All order before xs h =
      let same = order.count-arrange before xs (λ x. not (fits x)) in
      let nothing = none_unfit xs h in
      count_if-All (order.arrange before xs) (ground (arith, same, nothing))
