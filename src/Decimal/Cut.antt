-- ===== src/Decimal/Cut.antt =====
-- Cutting an amount to 10⁻⁸ dollars does not change how it compares with a count of 10⁻⁸ dollars.
use vip_channel_management_s.Prelude.{refl, ◌≡◌, ◌≤◌, zero, ℕ, suc, ◌<◌, ◌*◌, ◌^◌, ◌/◌, ◌↔◌, arith}
use vip_channel_management_s.Prelude.Int.{pos_part, neg_part, ℤ, pos, negsuc, ◌≤ℤ◌}
use native.Mathlib.Nat.{le-div_iff_mul-le, div-lt_iff_lt-mul}
use vip_channel_management_s.Decimal.{Amount, times, floor_div, cut, negated}

negated_parts : (n : ℕ) → (pos_part (negated n) ≡ 0) × (neg_part (negated n) ≡ n)
negated_parts zero = (refl, refl)
negated_parts (suc n) = (refl, refl)

floor_div_iff : (m x : ℤ) (d : ℕ) → 0 < d → (m ≤ℤ floor_div x d) ↔ (times m d ≤ℤ x)
unfolding floor_div times
floor_div_iff (pos m) (pos x) d h =
    let k : (m ≤ x / d) ↔ (m * d ≤ x) = le-div_iff_mul-le h in
    (λ p. omega (arith, k.0 (omega (arith, p))), λ p. omega (arith, k.1 (omega (arith, p))))
floor_div_iff (pos m) (negsuc x) d h =
    (λ p. absurd (omega (arith, p)), λ p. absurd (omega (arith, p)))
floor_div_iff (negsuc m) (pos x) d h =
    let (a, b) = negated_parts (suc m * d) in (λ p. omega (arith, a), λ p. omega arith)
floor_div_iff (negsuc m) (negsuc x) d h =
    let (a, b) = negated_parts (suc m * d) in
    let k : (x / d < suc m) ↔ (x < suc m * d) = div-lt_iff_lt-mul h in
    (
      λ p. omega (arith, a, b, k.0 (omega (arith, p))),
      λ p. omega (arith, k.1 (omega (arith, a, b, p))),
    )

zero-lt-pow : (n : ℕ) → 0 < 10 ^ n
zero-lt-pow zero = omega arith
zero-lt-pow (suc n) = omega (arith, zero-lt-pow n)

pub cut_iff :
    (m : ℤ) (a : Amount) → (m ≤ℤ cut a) ↔ (times m (10 ^ a.places) ≤ℤ times a.coefficient (10 ^ 8))
unfolding cut
cut_iff m a = floor_div_iff m (times a.coefficient (10 ^ 8)) (10 ^ a.places) (zero-lt-pow a.places)
