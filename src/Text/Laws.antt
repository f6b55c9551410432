-- ===== src/Text/Laws.antt =====
-- Texts made of token characters: splitting at dots and trimming leave them whole.
use Prim.Native.Char.{code}
use Prim.Native.String.{◌++◌}
use text.Mathlib.TextLemmas.{nil-append, cons-append}
use saa_s_app_be.Prelude.{String, ◌≡◌, refl, [], ◌∷◌, eqb, false}
use saa_s_app_be.Text.{is_space, trim, trim_start, trim_end, split_dot}

-- No dot and no white space, as in a UUID or in a base64url text.
abbrev pub IsTokenText : String → Type 0
IsTokenText String.[] = Unit
IsTokenText (String.◌∷◌ c s) =
    (eqb (code c) b'.' ≡ false) × (is_space (code c) ≡ false) × IsTokenText s

split_dot-dot : (rest : String) → split_dot ("." ++ rest) ≡ "" ∷ split_dot rest
split_dot-dot rest = rw (cons-append "." "" rest, nil-append rest) (unfold split_dot in refl)

pub split_dot-append :
    (part rest : String)
    → IsTokenText part
    → split_dot (part ++ ("." ++ rest)) ≡ part ∷ split_dot rest
unfolding split_dot
split_dot-append String.[] rest h = rw nil-append (split_dot-dot rest)
split_dot-append (String.◌∷◌ c part) rest h = rw (cons-append, h.0, split_dot-append part rest h.2)

pub split_dot-IsTokenText : (part : String) → IsTokenText part → split_dot part ≡ part ∷ []
unfolding split_dot
split_dot-IsTokenText String.[] h = refl
split_dot-IsTokenText (String.◌∷◌ c part) h = rw (h.0, split_dot-IsTokenText part h.2) refl

-- The whole token has no white space, though it has a dot.
abbrev HasNoSpace : String → Type 0
HasNoSpace String.[] = Unit
HasNoSpace (String.◌∷◌ c s) = (is_space (code c) ≡ false) × HasNoSpace s

HasNoSpace-append : (s t : String) → HasNoSpace s → HasNoSpace t → HasNoSpace (s ++ t)
HasNoSpace-append String.[] t h k = rw nil-append k
HasNoSpace-append (String.◌∷◌ c s) t h k = rw cons-append (h.0, HasNoSpace-append s t h.1 k)

IsTokenText-HasNoSpace : (s : String) → IsTokenText s → HasNoSpace s
IsTokenText-HasNoSpace String.[] h = tt
IsTokenText-HasNoSpace (String.◌∷◌ c s) h = (h.1, IsTokenText-HasNoSpace s h.2)

trim_start-HasNoSpace : (s : String) → HasNoSpace s → trim_start s ≡ s
unfolding trim_start
trim_start-HasNoSpace String.[] h = refl
trim_start-HasNoSpace (String.◌∷◌ c s) h = rw h.0 refl

trim_end-HasNoSpace : (s : String) → HasNoSpace s → trim_end s ≡ s
unfolding trim_end
trim_end-HasNoSpace String.[] h = refl
trim_end-HasNoSpace (String.◌∷◌ c s) h = rw (h.0, trim_end-HasNoSpace s h.1) refl

trim-HasNoSpace : (s : String) → HasNoSpace s → trim s ≡ s
unfolding trim
trim-HasNoSpace s h = rw (trim_start-HasNoSpace s h) (trim_end-HasNoSpace s h)

dot-HasNoSpace : HasNoSpace "."
unfolding is_space
dot-HasNoSpace = (refl, tt)

pub trim-token :
    (jti secret : String)
    → IsTokenText jti
    → IsTokenText secret
    → trim (jti ++ ("." ++ secret)) ≡ jti ++ ("." ++ secret)
trim-token jti secret h k = trim-HasNoSpace (jti ++ ("." ++ secret)) (
    HasNoSpace-append jti ("." ++ secret) (IsTokenText-HasNoSpace jti h)
      (HasNoSpace-append "." secret dot-HasNoSpace (IsTokenText-HasNoSpace secret k)))
