-- ===== src/Crypto/Sample/Letters.antt =====
-- Bytes written with the letters `a` and `b`.
use Prim.Native.Char.{code}
use native.Mathlib.Nat.{add-zero}
use saa_s_app_be.Prelude.{
  ◌∙◌, ℕ, zero, suc, ◌+◌, String, ◌≡◌, refl, arith, List, [], ◌∷◌, eqb, if◌then◌else◌,
}
use saa_s_app_be.Text.{is_space}
use saa_s_app_be.Text.Laws.{IsTokenText}

letter_run : ℕ → String → String
letter_run zero rest = String.◌∷◌ "b" rest
letter_run (suc n) rest = String.◌∷◌ "a" (letter_run n rest)

unfoldable pub letters : List ℕ → String
unfolding letter_run
letters [] = String.[]
letters (n ∷ ns) = letter_run n (letters ns)

read_letters : ℕ → String → List ℕ
read_letters n String.[] = []
read_letters n (String.◌∷◌ c s) =
    let more = read_letters (suc n) s in
    let next = read_letters 0 s in if eqb (code c) b'a' then more else n ∷ next

unfoldable pub from_letters : String → List ℕ
unfolding read_letters
from_letters s = read_letters 0 s

read_letters-run :
    (k n : ℕ) (s : String) → read_letters k (letter_run n s) ≡ (n + k) ∷ read_letters 0 s
unfolding read_letters letter_run
read_letters-run k zero s = ground arith
read_letters-run k (suc n) s = ground (arith, read_letters-run (suc k) n s)

pub from_letters-letters : (ns : List ℕ) → from_letters (letters ns) ≡ ns
unfolding from_letters letters
from_letters-letters [] = refl
from_letters-letters (n ∷ ns) =
    read_letters-run 0 n (letters ns) ∙ cc (add-zero n, from_letters-letters ns)

letter_run-IsTokenText : (n : ℕ) (s : String) → IsTokenText s → IsTokenText (letter_run n s)
unfolding letter_run is_space
letter_run-IsTokenText zero s h = (refl, refl, h)
letter_run-IsTokenText (suc n) s h = (refl, refl, letter_run-IsTokenText n s h)

pub letters-IsTokenText : (ns : List ℕ) → IsTokenText (letters ns)
unfolding letters
letters-IsTokenText [] = tt
letters-IsTokenText (n ∷ ns) = letter_run-IsTokenText n (letters ns) (letters-IsTokenText ns)
