-- ===== src/Tables/Writes.antt =====
-- What a write through a session leaves alone, and that it keeps the unique constraints.
use vip_channel_management_s.Prelude.{
  ℕ, Bool, true, false, not, Bool-cases, inl, inr, ◌||◌, List, [], ◌∷◌, ◌≡◌, refl, ◌==◌, select,
  any, arith, some,
}
use vip_channel_management_s.Tables.Interface.{Table, IsTable}
use vip_channel_management_s.Tables.{put_row, same_row, conflicts, first}

module _ {A : Type 0} (tbl : Table A) where
  -- Writing a row of tenant `t` changes no row of another tenant.
  pub select-put_row :
      (t : ℕ) (a : A) (xs : List A)
      → tbl.tenant a ≡ t
      → select (λ r. not (tbl.tenant r == t)) (put_row tbl a xs)
        ≡ select (λ r. not (tbl.tenant r == t)) xs
  unfolding put_row
  select-put_row t a [] h = ground arith
  select-put_row t a (b ∷ bs) h = ground (arith, select-put_row t a bs)

  -- Two rows that the constraints do not allow together.
  abbrev pub clashes : A → A → Bool
  clashes a b = same_row tbl a b || conflicts tbl a b

  abbrev pub IsKeyed : List A → Type 0
  IsKeyed [] = Unit
  IsKeyed (a ∷ xs) = (any (clashes a) xs ≡ false) × IsKeyed xs

  pub any-put_row :
      (p : A → Bool) (a : A) (xs : List A)
      → any p xs ≡ false
      → p a ≡ false
      → any p (put_row tbl a xs) ≡ false
  unfolding put_row
  any-put_row p a [] h k = ground arith
  any-put_row p a (b ∷ bs) h k = ground (arith, any-put_row p a bs)

  pub any-put_row_found :
      (p : A → Bool) (a : A) (xs : List A) → p a ≡ true → any p (put_row tbl a xs) ≡ true
  unfolding put_row
  any-put_row_found p a [] h = ground arith
  any-put_row_found p a (b ∷ bs) h = ground (arith, any-put_row_found p a bs)

  same_row_refl : (a : A) → same_row tbl a a ≡ true
  same_row_refl a = ground arith

  -- The row that was written is the one that is found under its identity.
  pub put_row-found :
      (a : A) (xs : List A) → first (select (same_row tbl a) (put_row tbl a xs)) ≡ some a
  unfolding put_row
  put_row-found a [] = rw (same_row_refl a) refl
  put_row-found a (b ∷ bs) = elim (Bool-cases (same_row tbl a b)) [
    | inl same ↦ rw (same, same_row_refl a) refl
    | inr other ↦ rw (other, other) (put_row-found a bs)
  ]

  any-clashes_replace :
      (a b : A) (xs : List A)
      → same_row tbl a b ≡ true
      → any (clashes b) xs ≡ false
      → any (conflicts tbl a) xs ≡ false
      → any (clashes a) xs ≡ false
  any-clashes_replace a b [] s h k = refl
  any-clashes_replace a b (c ∷ cs) s h k = ground (arith, any-clashes_replace a b cs)

  clashes_back :
      IsTable tbl
      → (a b : A) → same_row tbl a b ≡ false
      → conflicts tbl a b ≡ false
      → clashes b a ≡ false
  clashes_back laws a b s k = ground (arith, laws.same_key_comm a b)

  -- A write that the unique constraint lets through keeps the constraint.
  pub put_row-IsKeyed :
      IsTable tbl
      → (a : A) (xs : List A) → IsKeyed xs
      → any (conflicts tbl a) xs ≡ false
      → IsKeyed (put_row tbl a xs)
  unfolding put_row
  put_row-IsKeyed laws a [] h k = (refl, tt)
  put_row-IsKeyed laws a (b ∷ bs) h k = elim (Bool-cases (same_row tbl a b)) [
    | inl same ↦ rw same (any-clashes_replace a b bs same h.0 (ground arith), h.1)
    | inr other ↦ rw other (
      any-put_row (clashes b) a bs h.0 (clashes_back laws a b other (ground arith)),
      put_row-IsKeyed laws a bs h.1 (ground arith),
    )
  ]
