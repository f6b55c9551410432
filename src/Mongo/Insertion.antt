-- ===== src/Mongo/Insertion.antt =====
-- An order of a query in memory, by insertion: it shows that the law of `Sorting` can hold, and it runs
-- in the tests.
use saa_s_app_be.Prelude.{
  ◌≡◌, refl, Bool, List, [], ◌∷◌, arith, if◌then◌else◌, Bool-cases, inl, inr,
}
use saa_s_app_be.Mongo.Sort.{Sorting, count_if}

module _ {D : Type 0} where
  unfoldable insert_sorted : (D → D → Bool) → D → List D → List D
  insert_sorted before x [] = x ∷ []
  insert_sorted before x (y ∷ ys) =
      let rest = insert_sorted before x ys in if before x y then x ∷ y ∷ ys else y ∷ rest

  unfoldable pub sorted : (D → D → Bool) → List D → List D
  unfolding insert_sorted
  sorted before [] = []
  sorted before (x ∷ xs) = insert_sorted before x (sorted before xs)

  module _ (before : D → D → Bool) (fits : D → Bool) where
    count-insert_sorted :
        (x : D) (xs : List D) → count_if fits (insert_sorted before x xs) ≡ count_if fits (x ∷ xs)
    unfolding insert_sorted
    count-insert_sorted x [] = refl
    count-insert_sorted x (y ∷ ys) = elim (Bool-cases (before x y)) [
      | inl first ↦ rw first refl
      | inr later ↦ let rest = count-insert_sorted x ys in rw later (ground arith)
    ]

    pub count-sorted : (xs : List D) → count_if fits (sorted before xs) ≡ count_if fits xs
    unfolding sorted
    count-sorted [] = refl
    count-sorted (x ∷ xs) =
        let rest = count-sorted xs in
        let here = count-insert_sorted x (sorted before xs) in ground arith

  abbrev pub by_insertion : Sorting D
  by_insertion = record {
    arrange = sorted;
    count-arrange = λ before xs fits. count-sorted before fits xs;
  }
