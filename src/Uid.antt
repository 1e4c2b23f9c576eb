-- ===== src/Uid.antt =====
-- app/domain/uid.py: the identifier of an exchange account, as a user types it. A text is the list
-- of its code points.
pub mod Characters
pub mod Normal
use mathlib.Core.List.{reverse}
use vip_channel_management_s.Prelude.{
  ℕ, zero, suc, ◌+◌, ◌-◌, Bool, true, false, not, ◌&&◌, ◌||◌, Option, none, some, Text, [], ◌∷◌,
  map, select, leb, ◌==◌, if◌then◌else◌,
}
use vip_channel_management_s.Uid.Characters.{is_decimal, is_digit, is_space}

-- `_TRANSLATION`: the Persian digits begin at U+06F0, the Arabic ones at U+0660.
unfoldable pub fold_digit : ℕ → ℕ
fold_digit c =
    if leb 1776 c && leb c 1785
    then c - 1776 + 48
    else if leb 1632 c && leb c 1641
    then c - 1632 + 48
    else c

-- `\s`, the ASCII comma, U+066C, U+060C, `_` and `-`
unfoldable pub is_separator : ℕ → Bool
unfolding is_space
is_separator c = is_space c || (c == 44 || (c == 1644 || (c == 1548 || (c == 95 || c == 45))))

unfoldable pub left_strip : Text → Text
unfolding is_space
left_strip [] = []
left_strip (c ∷ cs) = if is_space c then left_strip cs else c ∷ cs

-- `str.strip`
unfoldable pub strip : Text → Text
unfolding left_strip
strip s = reverse (left_strip (reverse (left_strip s)))

unfoldable pub normalize_uid : Option Text → Text
unfolding fold_digit is_separator strip
normalize_uid none = []
normalize_uid (some raw) = strip (select (λ c. not (is_separator c)) (map fold_digit raw))

-- `\d{n}$`: the anchor also matches before a newline that ends the text.
unfoldable pub digits_to_end : ℕ → Text → Bool
digits_to_end zero [] = true
digits_to_end zero (c ∷ []) = c == 10
digits_to_end zero (c ∷ d ∷ rest) = false
digits_to_end (suc n) [] = false
digits_to_end (suc n) (c ∷ rest) = is_decimal c && digits_to_end n rest

unfoldable pub is_valid_bitunix_uid : Text → Bool
unfolding digits_to_end
is_valid_bitunix_uid candidate = digits_to_end 9 candidate

all_digits : Text → Bool
unfolding is_digit
all_digits [] = true
all_digits (c ∷ cs) = is_digit c && all_digits cs

-- `str.isdigit`
unfoldable pub isdigit : Text → Bool
unfolding all_digits
isdigit [] = false
isdigit (c ∷ cs) = all_digits (c ∷ cs)
