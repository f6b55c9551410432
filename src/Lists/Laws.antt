-- ===== src/Lists/Laws.antt =====
-- The items of a set of texts: none twice, and the same items.
use saa_s_app_be.Prelude.{
  String, ◌==◌, ◌≡◌, refl, Bool, true, false, not, ◌&&◌, ◌||◌, List, [], ◌∷◌, ◌++◌, arith, eq_iff,
  eq_refl,
}
use saa_s_app_be.Lists.{has, without, unique, filled_items}

-- no text twice
abbrev pub distinct : List String → Bool
distinct [] = true
distinct (x ∷ xs) = not (has x xs) && distinct xs

pub has-without :
    (s x : String) (xs : List String) → has s (without x xs) ≡ (not (x == s) && has s xs)
has-without s x [] = ground arith
has-without s x (y ∷ ys) = ground (arith, has-without s x ys, eq_iff y x, eq_iff y s, eq_iff x s)

distinct-without :
    (x : String) (xs : List String) → distinct xs ≡ true → distinct (without x xs) ≡ true
distinct-without x [] h = refl
distinct-without x (y ∷ ys) h = ground (arith, distinct-without x ys, has-without y x ys)

-- A set of texts has the texts of the list.
pub has-unique : (s : String) (xs : List String) → has s (unique xs) ≡ has s xs
unfolding unique
has-unique s [] = refl
has-unique s (x ∷ xs) = ground (arith, has-unique s xs, has-without s x (unique xs))

-- A set of texts has none twice.
pub distinct-unique : (xs : List String) → distinct (unique xs) ≡ true
unfolding unique
distinct-unique [] = refl
distinct-unique (x ∷ xs) = ground (
  arith,
  eq_refl x,
  distinct-without x (unique xs) (distinct-unique xs),
  has-without x x (unique xs),
)

pub has-append : (s : String) (xs ys : List String) → has s (xs ++ ys) ≡ (has s xs || has s ys)
has-append s [] ys = refl
has-append s (x ∷ xs) ys = ground (arith, has-append s xs ys)

without_absent : (x : String) (xs : List String) → has x xs ≡ false → without x xs ≡ xs
without_absent x [] h = refl
without_absent x (y ∷ ys) h = ground (arith, without_absent x ys)

-- A list with none twice is its own set.
pub unique-distinct : (xs : List String) → distinct xs ≡ true → unique xs ≡ xs
unfolding unique
unique-distinct [] h = refl
unique-distinct (x ∷ xs) h = ground (arith, unique-distinct xs, without_absent x xs)

-- No text that is filled is empty.
pub has-filled_items : (xs : List String) → has "" (filled_items xs) ≡ false
unfolding filled_items
has-filled_items [] = refl
has-filled_items (x ∷ xs) = ground (arith, has-filled_items xs)
