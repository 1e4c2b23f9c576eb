-- ===== src/Messages/Amounts.antt =====
-- `format_amount` of app/domain/messages.py: an amount rounded up to cents, without trailing zeros,
-- as `str` of a Decimal prints it.
use mathlib.Core.List.{reverse}
use vip_channel_management_s.Prelude.{
  ℕ, zero, suc, ◌+◌, ◌-◌, ◌*◌, ◌/◌, ◌≤◌, ◌<◌, Bool, true, false, [], ◌∷◌, ◌++◌, ◌==◌, ltb, Text,
  codes, length, take, drop, if◌then◌else◌, arith, ◌≡◌, refl,
}
use vip_channel_management_s.Prelude.Int.{ℤ, pos, negsuc, pos_part, neg_part}
use vip_channel_management_s.Decimal.{digits, signed, negated}

-- `value.quantize(Decimal("0.01"), rounding=ROUND_CEILING)`: whether the sign is a minus, and cents
abbrev pub quantized : ℤ → Bool × ℕ
quantized (pos n) = (false, (n + 999999) / 1000000)
quantized (negsuc n) = (true, suc n / 1000000)

-- how many zeros a text begins with, and what follows them
unfoldable pub leading_zeros : Text → ℕ × Text
leading_zeros [] = (0, [])
leading_zeros (c ∷ cs) =
    let (count, rest) = leading_zeros cs in if c == 48 then (suc count, rest) else (0, c ∷ cs)

-- `normalize()`: the digits of the coefficient, and how many zeros were taken from the cents
unfoldable pub normalized : ℕ → ℕ × Text
unfolding leading_zeros
normalized zero = (2, codes "0")
normalized (suc n) =
    let (count, rest) = leading_zeros (reverse (digits (suc n))) in (count, reverse rest)

unfoldable pub zeros : ℕ → Text
zeros zero = []
zeros (suc n) = 48 ∷ zeros n

-- digits with so many of them after the point
unfoldable pub pointed : ℕ → Text → Text
unfolding zeros
pointed zero ds = ds
pointed (suc p) ds =
    if ltb (suc p) (length ds)
    then take (length ds - suc p) ds ++ (46 ∷ drop (length ds - suc p) ds)
    else codes "0." ++ (zeros (suc p - length ds) ++ ds)

-- the scientific notation that `str` takes for a positive exponent
unfoldable pub scientific : ℕ → Text → Text
scientific exponent [] = []
scientific exponent (d ∷ []) = d ∷ codes "E+" ++ digits exponent
scientific exponent (d ∷ ds) = d ∷ 46 ∷ ds ++ codes "E+" ++ digits (exponent + length ds)

unfoldable pub printed : ℕ × Text → Text
unfolding pointed scientific
printed (count, ds) = if ltb 2 count then scientific (count - 2) ds else pointed (2 - count) ds

abbrev pub with_sign : Bool → Text → Text
with_sign minus text = if minus then 45 ∷ text else text

-- `format_amount`
unfoldable pub format_amount : ℤ → Text
unfolding normalized printed
format_amount value =
    let (minus, cents) = quantized value in with_sign minus (printed (normalized cents))

negated_parts : (m : ℕ) → (pos_part (negated m) ≡ 0) × (neg_part (negated m) ≡ m)
negated_parts zero = (refl, refl)
negated_parts (suc m) = (refl, refl)

-- What is shown is at least the amount, and less than a cent above it.
pub quantized-ceiling :
    (value : ℤ)
    → let shown = signed (quantized value).0 ((quantized value).1 * 1000000) in
      (pos_part value + neg_part shown ≤ pos_part shown + neg_part value)
      × (pos_part shown + neg_part value < pos_part value + neg_part shown + 1000000)
quantized-ceiling (pos n) = (omega arith, omega arith)
quantized-ceiling (negsuc n) =
    let (p, q) = negated_parts (suc n / 1000000 * 1000000) in
    (omega (arith, p, q), omega (arith, p, q))
