-- ===== src/Text.antt =====
-- The JavaScript text operations that the services call: `trim`, `split`, and the replacements by
-- `/\D/g` and `/[^0-9a-zA-Z]/g` with `toUpperCase`.
pub mod Laws
pub mod Tests
pub mod Token
use Prim.Native.Char.{Char, code}
use Prim.Native.String
use saa_s_app_be.Prelude.{
  ℕ, ◌-◌, String, Bool, true, false, ◌&&◌, ◌||◌, not, Option, none, some, List, [], ◌∷◌, leb, eqb,
  is_empty, if◌then◌else◌,
}

-- the white space and line terminators of ECMAScript
unfoldable pub is_space : ℕ → Bool
is_space c =
    leb 9 c && leb c 13
    || eqb c 32
    || eqb c 0xa0
    || eqb c 0x1680
    || leb 0x2000 c && leb c 0x200a
    || eqb c 0x2028
    || eqb c 0x2029
    || eqb c 0x202f
    || eqb c 0x205f
    || eqb c 0x3000
    || eqb c 0xfeff

unfoldable pub trim_start : String → String
trim_start String.[] = String.[]
trim_start (String.◌∷◌ c s) =
    let rest = trim_start s in if is_space (code c) then rest else String.◌∷◌ c s

pub trim_end : String → String
trim_end String.[] = String.[]
trim_end (String.◌∷◌ c s) =
    let rest = trim_end s in
    if is_space (code c) && is_empty rest then String.[] else String.◌∷◌ c rest

-- `s.trim()`
unfoldable pub trim : String → String
unfolding trim_start trim_end is_space
trim s = trim_end (trim_start s)

abbrev onto_first : Char → List String → List String
onto_first c [] = String.◌∷◌ c String.[] ∷ []
onto_first c (part ∷ parts) = String.◌∷◌ c part ∷ parts

-- `s.split('.')`
unfoldable pub split_dot : String → List String
split_dot String.[] = String.[] ∷ []
split_dot (String.◌∷◌ c s) =
    let parts = split_dot s in if eqb (code c) b'.' then String.[] ∷ parts else onto_first c parts

abbrev pub is_digit : ℕ → Bool
is_digit c = leb b'0' c && leb c b'9'

-- `code.replace(/\D/g, '')`
unfoldable pub only_digits : String → String
only_digits String.[] = String.[]
only_digits (String.◌∷◌ c s) =
    let rest = only_digits s in if is_digit (code c) then String.◌∷◌ c rest else rest

abbrev is_upper : ℕ → Bool
is_upper c = leb b'A' c && leb c b'Z'

abbrev is_lower : ℕ → Bool
is_lower c = leb b'a' c && leb c b'z'

abbrev to_upper : ℕ → ℕ
to_upper c = if is_lower c then c - 32 else c

-- `code.replace(/[^0-9a-zA-Z]/g, '').toUpperCase()`, as code points
unfoldable pub upper_alphanumeric : String → List ℕ
upper_alphanumeric String.[] = []
upper_alphanumeric (String.◌∷◌ c s) =
    let rest = upper_alphanumeric s in
    if is_digit (code c) || is_upper (code c) || is_lower (code c)
    then to_upper (code c) ∷ rest
    else rest

-- `s.startsWith(prefix)`
unfoldable pub starts_with : (prefix s : String) → Bool
starts_with String.[] s = true
starts_with (String.◌∷◌ p ps) String.[] = false
starts_with (String.◌∷◌ p ps) (String.◌∷◌ c cs) =
    let rest = starts_with ps cs in if eqb (code p) (code c) then rest else false

-- no character of the text is white space
unfoldable pub has_no_space : String → Bool
has_no_space String.[] = true
has_no_space (String.◌∷◌ c s) =
    let rest = has_no_space s in if is_space (code c) then false else rest

-- The rest of a text behind a word, whose ASCII letters may have either case; the word is in lower
-- case.
unfoldable pub behind_word : (word s : String) → Option String
behind_word String.[] s = some s
behind_word (String.◌∷◌ w ws) String.[] = none
behind_word (String.◌∷◌ w ws) (String.◌∷◌ c cs) =
    let rest = behind_word ws cs in
    if eqb (to_upper (code w)) (to_upper (code c)) then rest else none
