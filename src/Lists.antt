-- ===== src/Lists.antt =====
-- `Array.from(new Set(items.map(trim).filter(nonEmpty)))`, which src/workspace and src/file call on
-- URLs and identifiers.
pub mod Laws
use saa_s_app_be.Prelude.{
  ℕ, String, ◌==◌, Bool, true, false, not, ◌||◌, List, [], ◌∷◌, ◌++◌, is_empty, if◌then◌else◌,
}
use saa_s_app_be.Text.{trim}

-- `items.includes(s)`
abbrev pub has : String → List String → Bool
has s [] = false
has s (x ∷ xs) = (x == s) || has s xs

abbrev pub without : String → List String → List String
without s [] = []
without s (x ∷ xs) = let rest = without s xs in if x == s then rest else x ∷ rest

-- `Array.from(new Set(items))`: the first of equal items stays
unfoldable pub unique : List String → List String
unique [] = []
unique (x ∷ xs) = x ∷ without x (unique xs)

-- `items.map((s) => s.trim()).filter((s) => s.length > 0)`
unfoldable pub filled_items : List String → List String
filled_items [] = []
filled_items (x ∷ xs) =
    let rest = filled_items xs in if is_empty (trim x) then rest else trim x ∷ rest
