-- ===== src/Uid/Characters.antt =====
-- The character classes of the standard library that app/domain/uid.py and
-- app/services/bot_conversation.py use, from the Unicode 15.0 tables.
use vip_channel_management_s.Prelude.{
  ℕ, Option, none, some, ◌-◌, ◌%◌, if◌then◌else◌, Bool, ◌&&◌, ◌||◌, List, [], ◌∷◌, leb, any,
}

abbrev pub in_ranges : List (ℕ × ℕ) → ℕ → Bool
in_ranges ranges c = any (λ r. leb r.0 c && leb c r.1) ranges

-- category Nd, which `\d` matches
decimal_ranges : List (ℕ × ℕ)
decimal_ranges =
    (48, 57)
    ∷ (1632, 1641)
    ∷ (1776, 1785)
    ∷ (1984, 1993)
    ∷ (2406, 2415)
    ∷ (2534, 2543)
    ∷ (2662, 2671)
    ∷ (2790, 2799)
    ∷ (2918, 2927)
    ∷ (3046, 3055)
    ∷ (3174, 3183)
    ∷ (3302, 3311)
    ∷ (3430, 3439)
    ∷ (3558, 3567)
    ∷ (3664, 3673)
    ∷ (3792, 3801)
    ∷ (3872, 3881)
    ∷ (4160, 4169)
    ∷ (4240, 4249)
    ∷ (6112, 6121)
    ∷ (6160, 6169)
    ∷ (6470, 6479)
    ∷ (6608, 6617)
    ∷ (6784, 6793)
    ∷ (6800, 6809)
    ∷ (6992, 7001)
    ∷ (7088, 7097)
    ∷ (7232, 7241)
    ∷ (7248, 7257)
    ∷ (42528, 42537)
    ∷ (43216, 43225)
    ∷ (43264, 43273)
    ∷ (43472, 43481)
    ∷ (43504, 43513)
    ∷ (43600, 43609)
    ∷ (44016, 44025)
    ∷ (65296, 65305)
    ∷ (66720, 66729)
    ∷ (68912, 68921)
    ∷ (69734, 69743)
    ∷ (69872, 69881)
    ∷ (69942, 69951)
    ∷ (70096, 70105)
    ∷ (70384, 70393)
    ∷ (70736, 70745)
    ∷ (70864, 70873)
    ∷ (71248, 71257)
    ∷ (71360, 71369)
    ∷ (71472, 71481)
    ∷ (71904, 71913)
    ∷ (72016, 72025)
    ∷ (72784, 72793)
    ∷ (73040, 73049)
    ∷ (73120, 73129)
    ∷ (73552, 73561)
    ∷ (92768, 92777)
    ∷ (92864, 92873)
    ∷ (93008, 93017)
    ∷ (120782, 120831)
    ∷ (123200, 123209)
    ∷ (123632, 123641)
    ∷ (124144, 124153)
    ∷ (125264, 125273)
    ∷ (130032, 130041)
    ∷ []

-- `str.isdigit` also takes the digits that are not decimal, such as superscripts.
other_digit_ranges : List (ℕ × ℕ)
other_digit_ranges =
    (178, 179)
    ∷ (185, 185)
    ∷ (4969, 4977)
    ∷ (6618, 6618)
    ∷ (8304, 8304)
    ∷ (8308, 8313)
    ∷ (8320, 8329)
    ∷ (9312, 9320)
    ∷ (9332, 9340)
    ∷ (9352, 9360)
    ∷ (9450, 9450)
    ∷ (9461, 9469)
    ∷ (9471, 9471)
    ∷ (10102, 10110)
    ∷ (10112, 10120)
    ∷ (10122, 10130)
    ∷ (68160, 68163)
    ∷ (69216, 69224)
    ∷ (69714, 69722)
    ∷ (127232, 127242)
    ∷ []

-- `\s` and `str.isspace`
space_ranges : List (ℕ × ℕ)
space_ranges =
    (9, 13)
    ∷ (28, 32)
    ∷ (133, 133)
    ∷ (160, 160)
    ∷ (5760, 5760)
    ∷ (8192, 8202)
    ∷ (8232, 8233)
    ∷ (8239, 8239)
    ∷ (8287, 8287)
    ∷ (12288, 12288)
    ∷ []

unfoldable pub is_decimal : ℕ → Bool
unfolding decimal_ranges
is_decimal c = in_ranges decimal_ranges c

place_in : List (ℕ × ℕ) → ℕ → Option ℕ
place_in [] c = none
place_in (r ∷ rs) c =
    let rest = place_in rs c in if leb r.0 c && leb c r.1 then some ((c - r.0) % 10) else rest

-- The value of a decimal digit of any script: each range holds digits in blocks of ten from zero.
unfoldable pub digit_value : ℕ → Option ℕ
unfolding place_in decimal_ranges
digit_value c = place_in decimal_ranges c

unfoldable pub is_digit : ℕ → Bool
unfolding is_decimal other_digit_ranges
is_digit c = is_decimal c || in_ranges other_digit_ranges c

unfoldable pub is_space : ℕ → Bool
unfolding space_ranges
is_space c = in_ranges space_ranges c
