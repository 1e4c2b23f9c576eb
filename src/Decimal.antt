-- ===== src/Decimal.antt =====
-- Numbers as texts: what `int`, `Decimal` and `str` of the standard library make of them. An amount
-- that is read is exact; `cut` makes a count of 10⁻⁸ dollars of it.
pub mod Printed
pub mod Cut
use vip_channel_management_s.Prelude.{
  ℕ, zero, suc, ◌+◌, ◌-◌, ◌*◌, ◌/◌, ◌%◌, ◌^◌, Bool, true, false, not, ◌&&◌, ◌||◌, Option, none,
  some, Text, take, drop, [], ◌∷◌, ◌==◌, leb, select, codes, eq_text, map, if◌then◌else◌,
}
use vip_channel_management_s.Prelude.Int.{ℤ, pos, negsuc, ◌+ℤ◌}
use vip_channel_management_s.Uid.{strip}
use vip_channel_management_s.Uid.Characters.{digit_value}

-- the number of its digits so far, their value, and the rest of the text
pub record Digits : Type 0 where
  pub count : ℕ
  pub value : ℕ
  pub rest : Text

-- the digits at the head of a text, read on from a value
unfoldable pub read_digits : Text → ℕ → ℕ → Digits
read_digits [] count value = record { count = count; value = value; rest = [] }
read_digits (c ∷ cs) count value = elim (digit_value c) [
  | none ↦ record { count = count; value = value; rest = c ∷ cs }
  | some d ↦ read_digits cs (suc count) (value * 10 + d)
]

-- a leading sign: whether it is a minus, and what follows
unfoldable pub read_sign : Text → Bool × Text
read_sign [] = (false, [])
read_sign (c ∷ cs) =
    if c == 45 then (true, cs) else if c == 43 then (false, cs) else (false, c ∷ cs)

abbrev pub negated : ℕ → ℤ
negated zero = pos 0
negated (suc n) = negsuc n

abbrev pub signed : Bool → ℕ → ℤ
signed minus n = if minus then negated n else pos n

-- a point and the digits after it, read on
unfoldable pub read_fraction : Digits → Digits
unfolding read_digits
read_fraction d = elim d.rest [
  | [] ↦ record d { count = 0 }
  | c ∷ cs ↦ if c == 46 then read_digits cs 0 d.value else record d { count = 0 }
]

-- an exponent up to the end of the text; `none` where something else stands there
unfoldable pub read_exponent : Text → Option (Bool × ℕ)
unfolding read_sign read_digits
read_exponent [] = some (false, 0)
read_exponent (c ∷ cs) =
    let (minus, digits) = read_sign cs in
    let d = read_digits digits 0 0 in
    if (c == 69 || c == 101) && (not (d.count == 0) && eq_text d.rest [])
    then some (minus, d.value)
    else none

-- a finite Decimal: `coefficient`·10^(- `places`)
pub record Amount : Type 0 where
  pub coefficient : ℤ
  pub places : ℕ

-- `value`·10^(e - `places`), as an amount without its sign
abbrev pub scaled : ℕ → ℕ → Bool × ℕ → ℕ × ℕ
scaled value places (false, e) =
    if leb places e then (value * 10 ^ (e - places), 0) else (value, places - e)
scaled value places (true, e) = (value, places + e)

abbrev pub amount : Bool → ℕ × ℕ → Amount
amount minus (value, places) = record { coefficient = signed minus value; places = places }

unfoldable pub times : ℤ → ℕ → ℤ
times (pos n) k = pos (n * k)
times (negsuc n) k = negated (suc n * k)

-- The sum of two amounts. The rounding of the decimal context to 28 digits is left out.
abbrev pub add : Amount → Amount → Amount
add a b = record {
  coefficient = times a.coefficient (10 ^ b.places) +ℤ times b.coefficient (10 ^ a.places);
  places = a.places + b.places;
}

unfoldable pub floor_div : ℤ → ℕ → ℤ
floor_div (pos n) d = pos (n / d)
floor_div (negsuc n) d = negsuc (n / d)

-- the whole counts of 10⁻⁸ in an amount
unfoldable pub cut : Amount → ℤ
unfolding floor_div times
cut a = floor_div (times a.coefficient (10 ^ 8)) (10 ^ a.places)

-- What `Decimal` reads: a number, one of Infinity and NaN, or nothing.
pub data Read : Type 0 where
  number : Amount → Read
  not_finite refused : Read

abbrev pub lower : ℕ → ℕ
lower c = if leb 65 c && leb c 90 then c + 32 else c

-- `nan` or `snan` and digits
abbrev pub is_nan : Text → Bool
is_nan s =
    (eq_text (take 3 s) (codes "nan") && eq_text (read_digits (drop 3 s) 0 0).rest [])
    || (eq_text (take 4 s) (codes "snan") && eq_text (read_digits (drop 4 s) 0 0).rest [])

abbrev pub is_special : Text → Bool
is_special s = eq_text s (codes "inf") || (eq_text s (codes "infinity") || is_nan s)

abbrev pub finite : Bool → Digits → Digits → Read
finite minus whole all =
    if whole.count + all.count == 0 then refused else elim (read_exponent all.rest) [
      | none ↦ refused
      | some e ↦ number (amount minus (scaled all.value all.count e))
    ]

-- `Decimal(text)`: white space around it and underscores in it are left out
unfoldable pub decimal : Text → Read
unfolding read_sign read_digits read_fraction read_exponent strip
decimal text =
    let (minus, body) = read_sign (select (λ c. not (c == 95)) (strip text)) in
    let whole = read_digits body 0 0 in
    if is_special (map lower body) then not_finite else finite minus whole (read_fraction whole)

-- `str` of a natural number; each division takes a digit, so that `suc n` rounds are enough
unfoldable pub digits_from : ℕ → ℕ → Text → Text
digits_from zero n acc = acc
digits_from (suc fuel) n acc = elim (leb 10 n) [
  | false ↦ (48 + n) ∷ acc
  | true ↦ digits_from fuel (n / 10) ((48 + n % 10) ∷ acc)
]

unfoldable pub digits : ℕ → Text
unfolding digits_from
digits n = digits_from (suc n) n []
