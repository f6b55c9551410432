-- ===== src/Mongo/Memory.antt =====
-- A driver in memory: a list of keys that may be present, and the documents by their key. It shows
-- that the laws of `Driver` can hold together, and it runs in the tests and the examples.
use saa_s_app_be.Prelude.{
  ℕ, ◌+◌, String, ◌≡◌, refl, Bool, true, false, not, ◌||◌, Option, none, some, List, [], ◌∷◌, arith,
  ◌==◌, eq_iff, is_some, if◌then◌else◌, Option-cases, Bool-cases, inl, inr, ◌∙◌,
}
use saa_s_app_be.Mongo.{All, Driver, holds, updated, inserted, upserted, spared}

abbrev pub Store : Type 0 → Type 0
Store D = List String × (String → Option D)

abbrev pub empty : {D : Type 0} → Store D
empty = ([], λ k. none)

abbrev occurs : String → List String → Bool
occurs k [] = false
occurs k (x ∷ xs) = (k == x) || occurs k xs

module _ {D : Type 0} where
  abbrev put : String → Option D → Store D → Store D
  put k d (ks, f) = (k ∷ ks, λ j. if k == j then d else f j)

  abbrev at : String → Store D → Option D
  at k (ks, f) = f k

  abbrev matching : (D → Bool) → Option D → Option D
  matching p none = none
  matching p (some d) = if p d then some d else none

  abbrev or_else : Option D → Option D → Option D
  or_else none o = o
  or_else (some d) o = some d

  abbrev search_keys : (D → Bool) → List String → (String → Option D) → Option D
  search_keys p [] f = none
  search_keys p (k ∷ ks) f = or_else (matching p (f k)) (search_keys p ks f)

  abbrev count_doomed : (D → Bool) → List String → (String → Option D) → ℕ
  count_doomed p [] f = 0
  count_doomed p (k ∷ ks) f = (if holds p (f k) then 1 else 0) + count_doomed p ks f

  matching-fits : (p : D → Bool) (o : Option D) (d : D) → matching p o ≡ some d → p d ≡ true
  matching-fits p none d e = cc
  matching-fits p (some x) d e = ground arith

  matching-some : (p : D → Bool) (o : Option D) (d : D) → matching p o ≡ some d → o ≡ some d
  matching-some p none d e = cc
  matching-some p (some x) d e = ground arith

  pub search_keys-fits :
      (p : D → Bool) (ks : List String) (f : String → Option D) (d : D)
      → search_keys p ks f ≡ some d
      → p d ≡ true
  search_keys-fits p [] f d e = cc
  search_keys-fits p (k ∷ ks) f d e = elim (Option-cases (matching p (f k))) [
    | inl miss ↦ search_keys-fits p ks f d (rw miss at e)
    | inr (x, hit) ↦ matching-fits p (f k) d (hit ∙ (rw hit at e))
  ]

  pub search_keys-stored :
      (p : D → Bool) (ks : List String) (f : String → Option D) (d : D)
      → search_keys p ks f ≡ some d
      → (k : String) × (f k ≡ some d)
  search_keys-stored p [] f d e = cc
  search_keys-stored p (k ∷ ks) f d e = elim (Option-cases (matching p (f k))) [
    | inl miss ↦ search_keys-stored p ks f d (rw miss at e)
    | inr (x, hit) ↦ (k, matching-some p (f k) d (hit ∙ (rw hit at e)))
  ]

  abbrev prepend : Option D → List D → List D
  prepend none ds = ds
  prepend (some d) ds = d ∷ ds

  abbrev listed : (D → Bool) → List String → (String → Option D) → List D
  listed p [] f = []
  listed p (k ∷ ks) f =
      let rest = listed p ks f in prepend (matching p (if occurs k ks then none else f k)) rest

  prepend-All :
      (p : D → Bool) (o : Option D) (ds : List D)
      → ((d : D) → o ≡ some d → p d ≡ true)
      → All (λ d. p d ≡ true) ds
      → All (λ d. p d ≡ true) (prepend o ds)
  prepend-All p none ds h k = k
  prepend-All p (some d) ds h k = (h d refl, k)

  pub listed_fits :
      (p : D → Bool) (ks : List String) (f : String → Option D)
      → All (λ d. p d ≡ true) (listed p ks f)
  listed_fits p [] f = tt
  listed_fits p (k ∷ ks) f =
      let o = if occurs k ks then none else f k in
      prepend-All p (matching p o) (listed p ks f) (matching-fits p o) (listed_fits p ks f)

  pub at-put :
      (j k : String) (d : Store D → Option D) (e : Option D → Option D) (c : Store D)
      → d c ≡ e (at k c)
      → at j (put k (d c) c) ≡ (if k == j then e (at j c) else at j c)
  at-put j k d e c h = elim (Bool-cases (k == j)) [
    | inl same ↦ rw same (rw (← (eq_iff k j).0 same) h)
    | inr other ↦ rw other refl
  ]

abbrev pub memory : Driver
memory = record {
  Coll = Store;
  find_one = at;
  find_where = λ p c. search_keys p c.0 c.1;
  insert = λ k d c. (put k (inserted d (at k c)) c, not (is_some (at k c)));
  update_one = λ k g f c. (put k (updated g f (at k c)) c, holds g (at k c));
  upsert = λ k d f c. put k (upserted d f (at k c)) c;
  delete_one = λ k c. put k none c;
  delete_many = λ p c. ((c.0, λ k. spared p (c.1 k)), count_doomed p c.0 c.1);
  find_many = λ p c. listed p c.0 c.1;
  update_many = λ p f c. (c.0, λ k. updated p f (c.1 k));
  find_many_fits = λ p c. listed_fits p c.0 c.1;
  find-update_many = λ j p f c. refl;
  find-insert = λ j k d c. at-put j k (λ s. inserted d (at k s)) (inserted d) c refl;
  insert_done = λ k d c. refl;
  find-update_one = λ j k g f c. at-put j k (λ s. updated g f (at k s)) (updated g f) c refl;
  update_one_done = λ k g f c. refl;
  find-upsert = λ j k d f c. at-put j k (λ s. upserted d f (at k s)) (upserted d f) c refl;
  find-delete_one = λ j k c. refl;
  find-delete_many = λ j p c. refl;
  find_where_fits = λ p c. search_keys-fits p c.0 c.1;
  find_where_stored = λ p c. search_keys-stored p c.0 c.1;
}
