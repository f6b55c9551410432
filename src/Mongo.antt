-- ===== src/Mongo.antt =====
-- The MongoDB collections behind the repositories, as an interface: the driver and the server are
-- not code of this repository. A collection is seen through its unique key (`jti`, `userId`, `_id`,
-- `tenantId`), and each operation below is one atomic write to one document, or one bulk delete.
pub mod Memory
pub mod Laws
pub mod Sort
pub mod Insertion
use saa_s_app_be.Prelude.{
  ℕ, String, ◌≡◌, Bool, true, false, not, Option, none, some, List, [], ◌∷◌, ◌==◌, is_some,
  if◌then◌else◌,
}

module _ {D : Type 0} where
  -- The document that an operation leaves, for the document that it finds.
  abbrev pub holds : (D → Bool) → Option D → Bool
  holds guard none = false
  holds guard (some d) = guard d

  abbrev pub updated : (D → Bool) → (D → D) → Option D → Option D
  updated guard change none = none
  updated guard change (some d) = some (if guard d then change d else d)

  abbrev pub inserted : D → Option D → Option D
  inserted d none = some d
  inserted d (some old) = some old

  abbrev pub upserted : D → (D → D) → Option D → Option D
  upserted fresh change none = some (change fresh)
  upserted fresh change (some d) = some (change d)

  abbrev pub spared : (D → Bool) → Option D → Option D
  spared doomed none = none
  spared doomed (some d) = if doomed d then none else some d

-- A predicate of all elements of a list.
abbrev pub All {ℓ} : {A : Type ℓ} → (A → Type 0) → List A → Type 0
All P [] = Unit
All P (x ∷ xs) = P x × All P xs

pub record Driver : Type 1 where
  pub Coll : Type 0 → Type 0
  -- `findOne({ key })`
  pub find_one : {D : Type 0} → String → Coll D → Option D
  -- `findOne(filter)` on other fields
  pub find_where : {D : Type 0} → (D → Bool) → Coll D → Option D
  -- `save()` or `create()`: `false` is a duplicate key
  pub insert : {D : Type 0} → String → D → Coll D → Coll D × Bool
  -- `updateOne` or `findOneAndUpdate` by `{ key, guard }`: whether a document was changed
  pub update_one : {D : Type 0} → String → (D → Bool) → (D → D) → Coll D → Coll D × Bool
  -- the same with `upsert: true` and the defaults of an insert
  pub upsert : {D : Type 0} → String → D → (D → D) → Coll D → Coll D
  -- `deleteOne({ key })`
  pub delete_one : {D : Type 0} → String → Coll D → Coll D
  -- `deleteMany(filter)`, with `deletedCount`
  pub delete_many : {D : Type 0} → (D → Bool) → Coll D → Coll D × ℕ
  -- `find(filter)`, in the order of the server
  pub find_many : {D : Type 0} → (D → Bool) → Coll D → List D
  -- `updateMany(filter)`
  pub update_many : {D : Type 0} → (D → Bool) → (D → D) → Coll D → Coll D
  pub find-insert :
      {D : Type 0} (j k : String) (d : D) (c : Coll D)
      → find_one j (insert k d c).0 ≡ (if k == j then inserted d (find_one j c) else find_one j c)
  pub insert_done :
      {D : Type 0} (k : String) (d : D) (c : Coll D)
      → (insert k d c).1 ≡ not (is_some (find_one k c))
  pub find-update_one :
      {D : Type 0} (j k : String) (g : D → Bool) (f : D → D) (c : Coll D)
      → find_one j (update_one k g f c).0
        ≡ (if k == j then updated g f (find_one j c) else find_one j c)
  pub update_one_done :
      {D : Type 0} (k : String) (g : D → Bool) (f : D → D) (c : Coll D)
      → (update_one k g f c).1 ≡ holds g (find_one k c)
  pub find-upsert :
      {D : Type 0} (j k : String) (d : D) (f : D → D) (c : Coll D)
      → find_one j (upsert k d f c) ≡ (if k == j then upserted d f (find_one j c) else find_one j c)
  pub find-delete_one :
      {D : Type 0} (j k : String) (c : Coll D)
      → find_one j (delete_one k c) ≡ (if k == j then none else find_one j c)
  pub find-delete_many :
      {D : Type 0} (j : String) (p : D → Bool) (c : Coll D)
      → find_one j (delete_many p c).0 ≡ spared p (find_one j c)
  -- what a search by other fields returns is a stored document that fits the filter
  pub find_where_fits :
      {D : Type 0} (p : D → Bool) (c : Coll D) (d : D) → find_where p c ≡ some d → p d ≡ true
  pub find_where_stored :
      {D : Type 0} (p : D → Bool) (c : Coll D) (d : D)
      → find_where p c ≡ some d
      → (k : String) × (find_one k c ≡ some d)
  pub find_many_fits :
      {D : Type 0} (p : D → Bool) (c : Coll D) → All (λ d. p d ≡ true) (find_many p c)
  pub find-update_many :
      {D : Type 0} (j : String) (p : D → Bool) (f : D → D) (c : Coll D)
      → find_one j (update_many p f c) ≡ updated p f (find_one j c)
