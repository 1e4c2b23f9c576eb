-- ===== src/Tests/Amounts.antt =====
-- Amounts as the bot shows them.
use vip_channel_management_s.Prelude.{◌≡◌, refl, codes}
use vip_channel_management_s.Prelude.Int.{pos, negsuc}
use vip_channel_management_s.Messages.Amounts.{
  format_amount, normalized, leading_zeros, printed, pointed, scientific, zeros,
}
use vip_channel_management_s.Decimal.{digits, digits_from}

-- 0.101 is rounded up
rounded : format_amount (pos 10100000) ≡ codes "0.11"
unfolding format_amount normalized leading_zeros printed pointed scientific zeros digits digits_from
rounded = refl

tens : format_amount (pos 12350000000) ≡ codes "123.5"
unfolding format_amount normalized leading_zeros printed pointed scientific zeros digits digits_from
tens = refl

small : format_amount (pos 1) ≡ codes "0.01"
unfolding format_amount normalized leading_zeros printed pointed scientific zeros digits digits_from
small = refl

-- an amount of 300 is shown in scientific notation
hundreds : format_amount (pos 30000000000) ≡ codes "3E+2"
unfolding format_amount normalized leading_zeros printed pointed scientific zeros digits digits_from
hundreds = refl

thousands : format_amount (pos 125000000000) ≡ codes "1.25E+3"
unfolding format_amount normalized leading_zeros printed pointed scientific zeros digits digits_from
thousands = refl

nothing : format_amount (pos 0) ≡ codes "0"
unfolding format_amount normalized leading_zeros printed pointed scientific zeros digits digits_from
nothing = refl

below : format_amount (negsuc 0) ≡ codes "-0"
unfolding format_amount normalized leading_zeros printed pointed scientific zeros digits digits_from
below = refl
