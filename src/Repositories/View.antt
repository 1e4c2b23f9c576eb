-- ===== src/Repositories/View.antt =====
-- The abstract store that a scoped table is for one tenant: what is found under each identifier.
-- Rows of other tenants, the order of the rows and their place in the database are forgotten.
use vip_channel_management_s.Prelude.{
  ℕ, Bool, true, false, not, ◌&&◌, Option, none, some, List, [], ◌∷◌, ◌≡◌, refl, ◌==◌, select, any,
  arith, if◌then◌else◌,
}
use vip_channel_management_s.Tables.Interface.{Table}
use vip_channel_management_s.Tables.{put_row}
use vip_channel_management_s.Repositories.{deletes}

abbrev pub is_some : {A : Type 0} → Option A → Bool
is_some none = false
is_some (some a) = true

module _ {A : Type 0} (tbl : Table A) where
  -- the row of tenant `t` with this identifier
  abbrev pub mine : ℕ → ℕ → A → Bool
  mine t id r = t == tbl.tenant r && tbl.row_id r == id

  unfoldable pub view : ℕ → List A → ℕ → Option A
  view t [] id = none
  view t (r ∷ rows) id = let rest = view t rows id in if mine t id r then some r else rest

  -- the store after a row was written, and after one was removed
  unfoldable pub stored : A → (ℕ → Option A) → ℕ → Option A
  stored a store id = if tbl.row_id a == id then some a else store id

  unfoldable pub removed : ℕ → (ℕ → Option A) → ℕ → Option A
  removed gone store id = if gone == id then none else store id

  pub view-put_row :
      (t : ℕ) (a : A) (xs : List A) (id : ℕ)
      → (t == tbl.tenant a) ≡ true
      → view t (put_row tbl a xs) id ≡ stored a (view t xs) id
  unfolding view stored put_row
  view-put_row t a [] id h = ground arith
  view-put_row t a (x ∷ xs) id h = ground (arith, view-put_row t a xs id)

  pub view-delete :
      (t gone : ℕ) (xs : List A) (id : ℕ)
      → view t (select (λ r. not (deletes tbl (some t) t gone r)) xs) id
        ≡ removed gone (view t xs) id
  unfolding view removed
  view-delete t gone [] id = ground arith
  view-delete t gone (x ∷ xs) id = ground (arith, view-delete t gone xs id)

  pub any-deletes :
      (t gone : ℕ) (xs : List A) → any (deletes tbl (some t) t gone) xs ≡ is_some (view t xs gone)
  unfolding view
  any-deletes t gone [] = refl
  any-deletes t gone (x ∷ xs) = ground (arith, any-deletes t gone xs)
