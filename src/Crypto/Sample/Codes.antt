-- ===== src/Crypto/Sample/Codes.antt =====
-- A text as the numbers of its characters, and back.
use Prim.Native.Char.{Char, char, code, nul, IsLt, IsScalar}
use Prim.Native.Nat.{compare, Ordering}
use text.Mathlib.TextEquality.{Char-path}
use saa_s_app_be.Prelude.{ℕ, String, ◌≡◌, refl, List, [], ◌∷◌}

abbrev Both : Ordering → Ordering → Type 0
Both Ordering.lt o = IsLt o
Both Ordering.eq _ = ⊥
Both Ordering.gt _ = ⊥

abbrev Scalar : Ordering → Ordering → Ordering → Type 0
Scalar Ordering.lt _ _ = Unit
Scalar Ordering.eq o p = Both o p
Scalar Ordering.gt o p = Both o p

dec_IsLt : (o : Ordering) → Dec (IsLt o)
dec_IsLt Ordering.lt = yes tt
dec_IsLt Ordering.eq = no (λ h. h)
dec_IsLt Ordering.gt = no (λ h. h)

dec_both : (o p : Ordering) → Dec (Both o p)
dec_both Ordering.lt p = dec_IsLt p
dec_both Ordering.eq p = no (λ h. h)
dec_both Ordering.gt p = no (λ h. h)

dec_scalar : (o p q : Ordering) → Dec (Scalar o p q)
dec_scalar Ordering.lt p q = yes tt
dec_scalar Ordering.eq p q = dec_both p q
dec_scalar Ordering.gt p q = dec_both p q

dec_IsScalar : (n : ℕ) → Dec (IsScalar n)
dec_IsScalar n = dec_scalar (compare n 55296) (compare 57343 n) (compare n 1114112)

pick : (n : ℕ) → Dec (IsScalar n) → Char
pick n (yes h) = char n h
pick n (no _) = nul

unfoldable pub char_of : ℕ → Char
unfolding pick dec_IsScalar dec_scalar dec_both dec_IsLt
char_of n = pick n (dec_IsScalar n)

pick-code : (n : ℕ) (h : IsScalar n) (d : Dec (IsScalar n)) → code (pick n d) ≡ n
unfolding pick
pick-code n h (yes _) = refl
pick-code n h (no k) = absurd (k h)

char_of-code : (c : Char) → char_of (code c) ≡ c
unfolding char_of
char_of-code (char n h) = Char-path _ _ (pick-code n h (dec_IsScalar n))

unfoldable pub codes : String → List ℕ
codes String.[] = []
codes (String.◌∷◌ c s) = code c ∷ codes s

unfoldable pub text_of : List ℕ → String
text_of [] = String.[]
text_of (n ∷ ns) = String.◌∷◌ (char_of n) (text_of ns)

pub text_of-codes : (s : String) → text_of (codes s) ≡ s
unfolding text_of codes
text_of-codes String.[] = refl
text_of-codes (String.◌∷◌ c s) = cc (char_of-code c, text_of-codes s)
