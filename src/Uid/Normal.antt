-- ===== src/Uid/Normal.antt =====
-- What `normalize_uid` and `is_valid_bitunix_uid` of app/domain/uid.py guarantee.
use mathlib.Core.Bool.{false≢true}
use mathlib.Core.List.{reverse, reverse-cons, reverse-reverse}
use vip_channel_management_s.Prelude.{
  ℕ, zero, suc, ◌+◌, ◌≡◌, refl, ap, ◌∙◌, true, false, not, Bool-cases, inl, inr, Option, none, some,
  Text, [], ◌∷◌, ◌++◌, map, select, length, All, arith, ==_iff, sym, leb, ◌&&◌, ◌-◌, ◌≢◌,
  if◌then◌else◌,
}
use vip_channel_management_s.Uid.Characters.{is_space, is_decimal}
use vip_channel_management_s.Uid.{
  fold_digit, is_separator, left_strip, strip, normalize_uid, digits_to_end, is_valid_bitunix_uid,
}

-- Neither a separator nor a Persian or Arabic digit.
abbrev pub IsFolded : ℕ → Type 0
IsFolded c = (is_separator c ≡ false) × (fold_digit c ≡ c)

fold_digit_idem : (c : ℕ) → fold_digit (fold_digit c) ≡ fold_digit c
unfolding fold_digit
fold_digit_idem c = ground arith

select-IsFolded : (s : Text) → All IsFolded (select (λ c. not (is_separator c)) (map fold_digit s))
select-IsFolded [] = tt
select-IsFolded (c ∷ cs) = elim (Bool-cases (is_separator (fold_digit c))) [
  | inl gone ↦ rw gone (select-IsFolded cs)
  | inr kept ↦ rw kept ((kept, fold_digit_idem c), select-IsFolded cs)
]

is_space_of_separator : (c : ℕ) → is_separator c ≡ false → is_space c ≡ false
unfolding is_separator
is_space_of_separator c h = ground arith

left_strip_of_IsFolded : (s : Text) → All IsFolded s → left_strip s ≡ s
unfolding left_strip
left_strip_of_IsFolded [] h = refl
left_strip_of_IsFolded (c ∷ cs) h = rw (is_space_of_separator c h.0.0) refl

All-append : (xs ys : Text) → All IsFolded xs → All IsFolded ys → All IsFolded (xs ++ ys)
All-append [] ys h k = k
All-append (x ∷ xs) ys h k = (h.0, All-append xs ys h.1 k)

All-reverse : (xs : Text) → All IsFolded xs → All IsFolded (reverse xs)
All-reverse [] h = h
All-reverse (x ∷ xs) h =
    rw reverse-cons (All-append (reverse xs) (x ∷ []) (All-reverse xs h.1) (h.0, tt))

strip_of_IsFolded : (s : Text) → All IsFolded s → strip s ≡ s
unfolding strip
strip_of_IsFolded s h =
    rw (left_strip_of_IsFolded s h)
      (rw (left_strip_of_IsFolded (reverse s) (All-reverse s h)) (reverse-reverse s))

map_of_IsFolded : (s : Text) → All IsFolded s → map fold_digit s ≡ s
map_of_IsFolded [] h = refl
map_of_IsFolded (c ∷ cs) h = cc (h.0.1, map_of_IsFolded cs h.1)

select_of_IsFolded : (s : Text) → All IsFolded s → select (λ c. not (is_separator c)) s ≡ s
select_of_IsFolded [] h = refl
select_of_IsFolded (c ∷ cs) h = rw h.0.0 (ap (◌∷◌ c) (select_of_IsFolded cs h.1))

abbrev selected : Text → Text
selected s = select (λ c. not (is_separator c)) s

abbrev kept : Text → Text
kept s = selected (map fold_digit s)

normalize-eq-kept : (s : Text) → normalize_uid (some s) ≡ kept s
unfolding normalize_uid
normalize-eq-kept s = strip_of_IsFolded (kept s) (select-IsFolded s)

newline_separates : (c : ℕ) → c ≡ 10 → is_separator c ≢ false
unfolding is_separator
newline_separates c e h = false≢true (sym h ∙ ap is_separator e)

digits_to_end-IsFolded :
    (n : ℕ) (s : Text)
    → All IsFolded s
    → digits_to_end n s ≡ true
    → (length s ≡ n) × All (λ c. is_decimal c ≡ true) s
unfolding digits_to_end
digits_to_end-IsFolded zero [] h e = (refl, tt)
digits_to_end-IsFolded zero (c ∷ []) h e = absurd (newline_separates c ((==_iff c 10).0 e) h.0.0)
digits_to_end-IsFolded zero (c ∷ d ∷ r) h e = cc
digits_to_end-IsFolded (suc n) [] h e = cc
digits_to_end-IsFolded (suc n) (c ∷ r) h e = ground (arith, digits_to_end-IsFolded n r h.1)

-- What `normalize_uid` returns holds no separator, no white space and no Persian or Arabic digit.
pub normalize_uid-IsFolded : (raw : Option Text) → All IsFolded (normalize_uid raw)
unfolding normalize_uid
normalize_uid-IsFolded none = tt
normalize_uid-IsFolded (some s) =
    rw (strip_of_IsFolded (kept s) (select-IsFolded s)) (select-IsFolded s)

-- A text without separators and foreign digits is left as it is.
normalize_of_IsFolded : (s : Text) → All IsFolded s → normalize_uid (some s) ≡ s
unfolding normalize_uid
normalize_of_IsFolded s h =
    rw (map_of_IsFolded s h) (rw (select_of_IsFolded s h) (strip_of_IsFolded s h))

-- Normalising twice is normalising once.
pub normalize_uid_idem :
    (raw : Option Text) → normalize_uid (some (normalize_uid raw)) ≡ normalize_uid raw
normalize_uid_idem raw = normalize_of_IsFolded (normalize_uid raw) (normalize_uid-IsFolded raw)

-- The text with its ASCII digits written in the script whose digits begin at `zero_digit`.
abbrev pub in_script : ℕ → ℕ → ℕ
in_script zero_digit c = if leb 48 c && leb c 57 then c - 48 + zero_digit else c

fold-in_script_persian : (c : ℕ) → fold_digit (in_script 1776 c) ≡ fold_digit c
unfolding fold_digit
fold-in_script_persian c = ground arith

fold-in_script_arabic : (c : ℕ) → fold_digit (in_script 1632 c) ≡ fold_digit c
unfolding fold_digit
fold-in_script_arabic c = ground arith

map-map_of_eq : (f g : ℕ → ℕ) (s : Text) → ((c : ℕ) → f (g c) ≡ f c) → map f (map g s) ≡ map f s
map-map_of_eq f g [] h = refl
map-map_of_eq f g (c ∷ cs) h = cc (h c, map-map_of_eq f g cs h)

-- A UID typed with Persian digits, or with Arabic ones, is the UID typed with ASCII digits,
-- whatever separators stand among them.
pub digits_of_any_script :
    (s : Text)
    → (normalize_uid (some (map (in_script 1776) s)) ≡ normalize_uid (some s))
      × (normalize_uid (some (map (in_script 1632) s)) ≡ normalize_uid (some s))
digits_of_any_script s = (
  rw (normalize-eq-kept, normalize-eq-kept)
      (ap selected (map-map_of_eq fold_digit (in_script 1776) s fold-in_script_persian)),
  rw (normalize-eq-kept, normalize-eq-kept)
      (ap selected (map-map_of_eq fold_digit (in_script 1632) s fold-in_script_arabic)),
)

-- A normalised UID that is accepted has exactly nine characters, all of them decimal digits.
pub valid_of_normal :
    (raw : Option Text)
    → is_valid_bitunix_uid (normalize_uid raw) ≡ true
    → (length (normalize_uid raw) ≡ 9) × All (λ c. is_decimal c ≡ true) (normalize_uid raw)
unfolding is_valid_bitunix_uid
valid_of_normal raw h = digits_to_end-IsFolded 9 (normalize_uid raw) (normalize_uid-IsFolded raw) h
