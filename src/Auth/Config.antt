-- ===== src/Auth/Config.antt =====
-- Numbers read from the environment: `Number.parseInt(text, 10)` and `readPositiveInteger`.
use Prim.Native.Char.{code}
use saa_s_app_be.Prelude.{
  ℕ, ◌+◌, ◌-◌, ◌*◌, String, Option, none, some, eqb, ltb, is_empty, or_default, if◌then◌else◌,
}
use saa_s_app_be.Text.{is_digit, trim, trim_start}

-- `NaN`, a number, or a number with a minus sign
pub data Parsed : Type 0 where
  nan : Parsed
  number : ℕ → Parsed
  negative : ℕ → Parsed

parse_digits : Option ℕ → String → Option ℕ
parse_digits acc String.[] = acc
parse_digits acc (String.◌∷◌ c s) =
    let next : Option ℕ = elim acc [
      | none ↦ some (code c - 48)
      | some n ↦ some (n * 10 + (code c - 48))
    ] in
    let more = parse_digits next s in if is_digit (code c) then more else acc

abbrev as_number : Option ℕ → Parsed
as_number none = nan
as_number (some n) = number n

abbrev as_negative : Option ℕ → Parsed
as_negative none = nan
as_negative (some n) = negative n

parse_signed : String → Parsed
unfolding parse_digits
parse_signed String.[] = nan
parse_signed (String.◌∷◌ c s) =
    if eqb (code c) b'-'
    then as_negative (parse_digits none s)
    else if eqb (code c) b'+'
    then as_number (parse_digits none s)
    else as_number (parse_digits none (String.◌∷◌ c s))

unfoldable pub parse_int : String → Parsed
unfolding parse_signed
parse_int raw = parse_signed (trim_start raw)

-- `Number.isFinite(parsed) && parsed > 0 ? parsed : fallback`
abbrev pub or_fallback : Parsed → ℕ → ℕ
or_fallback nan fallback = fallback
or_fallback (number n) fallback = if ltb 0 n then n else fallback
or_fallback (negative n) fallback = fallback

-- `configService.get<string>(key) ?? ''` in front of it
unfoldable pub read_positive_integer : Option String → ℕ → ℕ
unfolding parse_int
read_positive_integer none fallback = or_fallback (parse_int "") fallback
read_positive_integer (some raw) fallback = or_fallback (parse_int raw) fallback

-- the seconds of a unit of `/^(\d+)(m|h|d)$/`, at the end of the text
abbrev unit_seconds : ℕ → Option ℕ
unit_seconds c =
    if eqb c b'm'
    then some 60
    else if eqb c b'h'
    then some 3600
    else if eqb c b'd'
    then some 86400
    else none

abbrev times : Option ℕ → Option ℕ → Option ℕ
times (some n) (some unit) = some (n * unit)
times _ _ = none

match_lifetime : Option ℕ → String → Option ℕ
match_lifetime acc String.[] = none
match_lifetime acc (String.◌∷◌ c s) =
    let next : Option ℕ = elim acc [
      | none ↦ some (code c - 48)
      | some n ↦ some (n * 10 + (code c - 48))
    ] in
    let more = match_lifetime next s in
    if is_digit (code c)
    then more
    else if is_empty s
    then times acc (unit_seconds (code c))
    else none

abbrev or_seconds : Option ℕ → ℕ → ℕ
or_seconds none n = n
or_seconds (some seconds) n = seconds

-- `getAccessExpiresInSeconds` of auth.service.ts
unfoldable pub access_expires_in_seconds : Option String → ℕ
unfolding match_lifetime parse_int
access_expires_in_seconds configured =
    let raw = or_default configured "15m" in
    or_seconds (match_lifetime none (trim raw)) (or_fallback (parse_int raw) 900)
