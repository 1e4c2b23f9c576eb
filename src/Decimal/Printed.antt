-- ===== src/Decimal/Printed.antt =====
-- A number that `str` prints is the one that `int` reads.
use vip_channel_management_s.Prelude.{
  none, Option, Bool, ap, ◌&&◌, leb→le, ℕ, zero, suc, ◌+◌, ◌*◌, ◌/◌, ◌%◌, ◌<◌, ◌≡◌, refl, ◌∙◌, some,
  [], ◌∷◌, Text, leb, arith, Bool-cases, inl, inr, true, false,
}
use vip_channel_management_s.Decimal.{read_digits, digits_from, digits, Digits}
use vip_channel_management_s.Uid.Characters.{digit_value}

digit_value-digit : (d : ℕ) → d < 10 → digit_value (48 + d) ≡ some d
unfolding digit_value
digit_value-digit d h =
    let t : (leb 48 (48 + d) && leb (48 + d) 57) ≡ true = ground arith in
    rw t (ap some (omega arith))

read_digits-digit :
    (d : ℕ) (acc : Text) (count value : ℕ)
    → d < 10
    → read_digits ((48 + d) ∷ acc) count value ≡ read_digits acc (suc count) (value * 10 + d)
unfolding read_digits
read_digits-digit d acc count value h =
    ap
      (λ (o : Option ℕ). elim o as (λ _. Digits) [
        | none ↦ record { count = count; value = value; rest = (48 + d) ∷ acc }
        | some x ↦ read_digits acc (suc count) (value * 10 + x)
      ])
      (digit_value-digit d h)

-- one round, by the outcome of its test
round :
    (fuel n : ℕ) (acc : Text) (b : Bool)
    → leb 10 n ≡ b
    → digits_from (suc fuel) n acc ≡ elim b as (λ _. Text) [
      | false ↦ (48 + n) ∷ acc
      | true ↦ digits_from fuel (n / 10) ((48 + n % 10) ∷ acc)
    ]
unfolding digits_from
round fuel n acc b e =
    ap
      (λ (x : Bool). elim x as (λ _. Text) [
        | false ↦ (48 + n) ∷ acc
        | true ↦ digits_from fuel (n / 10) ((48 + n % 10) ∷ acc)
      ])
      e

-- The digits of a number, read before a rest, leave the number and the rest.
read_digits-digits_from :
    (fuel n : ℕ) (acc : Text) (count : ℕ)
    → n < fuel
    → (more : ℕ) × (read_digits (digits_from fuel n acc) count 0 ≡ read_digits acc more n)
read_digits-digits_from zero n acc count h = absurd (omega arith)
read_digits-digits_from (suc fuel) n acc count h = elim (Bool-cases (leb 10 n)) [
  | inl e ↦
      let (more, p) =
        read_digits-digits_from fuel (n / 10) ((48 + n % 10) ∷ acc) count
          (omega (arith, leb→le 10 n e)) in
      (
        suc more,
        ap (λ l. read_digits l count 0) (round fuel n acc true e)
            ∙ (p
                ∙ (read_digits-digit (n % 10) acc more (n / 10) (omega arith)
                    ∙ ap (read_digits acc (suc more)) (omega arith))),
      )
  | inr e ↦ (
    suc count,
    ap (λ l. read_digits l count 0) (round fuel n acc false e)
        ∙ (read_digits-digit n acc count 0 (ground arith)
            ∙ ap (read_digits acc (suc count)) (omega arith)),
  )
]

ended : (more n : ℕ) → read_digits [] more n ≡ record { count = more; value = n; rest = [] }
unfolding read_digits
ended more n = refl

-- The rounds that `str` is given are enough: the text of a number is read back as the number, to its
-- end.
pub read_digits-digits :
    (n : ℕ) → ((read_digits (digits n) 0 0).value ≡ n) × ((read_digits (digits n) 0 0).rest ≡ [])
unfolding digits
read_digits-digits n =
    let (more, p) = read_digits-digits_from (suc n) n [] 0 (omega arith) in
    (ap (λ d. d.value) (p ∙ ended more n), ap (λ d. d.rest) (p ∙ ended more n))
