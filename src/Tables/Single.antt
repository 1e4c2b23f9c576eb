-- ===== src/Tables/Single.antt =====
-- A query for a key finds at most one row, so that `scalar_one_or_none` does not raise.
use vip_channel_management_s.Prelude.{
  ℕ, Bool, true, false, Option, none, some, List, [], ◌∷◌, ◌≡◌, refl, ap, ◌∙◌, ◌==◌, ◌&&◌, select,
  All, Bool-cases, inl, inr, arith, any,
}
use vip_channel_management_s.Errors.{ok}
use vip_channel_management_s.World.{World, ◌>>=◌}
use vip_channel_management_s.Tables.{scalar_one_or_none, query, in_scope, same_row, conflicts}
use vip_channel_management_s.Tables.Interface.{Table}
use vip_channel_management_s.Tables.Lookup.{seen, seen-cons, seen-none}
use vip_channel_management_s.Tables.Writes.{IsKeyed, clashes}
use vip_channel_management_s.Repositories.{one_or_none}

abbrev pub AllOption : {A : Type 0} → (A → Type 0) → Option A → Type 0
AllOption P none = Unit
AllOption P (some a) = P a

module _ {A : Type 0} (tbl : Table A) (t : ℕ) (test : A → Bool)
    (key : (a b : A) → test a ≡ true → test b ≡ true → tbl.same_key a b ≡ true) where
  apart :
      (a : A) (xs : List A)
      → any (clashes tbl a) xs ≡ false
      → (any (same_row tbl a) xs ≡ false) × (any (conflicts tbl a) xs ≡ false)
  apart a [] h = (refl, refl)
  apart a (x ∷ xs) h =
      (ground (arith, (apart a xs (ground arith)).0), ground (arith, (apart a xs (ground arith)).1))

  seen-single :
      (P : A → Type 0) (xs : List A)
      → IsKeyed tbl xs
      → All P xs
      → (o : Option A) × (scalar_one_or_none (seen tbl t test xs) ≡ ok o) × AllOption P o
  seen-single P [] k h = (none, unfold seen in refl, tt)
  seen-single P (x ∷ xs) k h = elim (Bool-cases ((t == tbl.tenant x) && test x)) [
    | inl e ↦
        let s = apart x xs k.0 in
        let passed : test x ≡ true = ground arith in
        let alone : seen tbl t test xs ≡ [] =
          seen-none tbl t test x (ground arith) passed (λ b p. key x b passed p) xs s.0 s.1 in
        (some x, ap scalar_one_or_none (seen-cons tbl t test x xs) ∙ rw (e, alone) refl, h.0)
    | inr e ↦
        let (o, found, p) = seen-single P xs k.1 h.1 in
        (o, ap scalar_one_or_none (seen-cons tbl t test x xs) ∙ rw e found, p)
  ]

  -- In a session of tenant `t` such a query returns, changes nothing, and what it finds is a row of
  -- the table.
  pub one_or_none-single :
      (P : A → Type 0) (w : World)
      → w.bound ≡ some t
      → IsKeyed tbl (tbl.rows w.db)
      → All P (tbl.rows w.db)
      → (o : Option A) × (one_or_none tbl test w ≡ (ok o, w)) × AllOption P o
  unfolding one_or_none query ◌>>=◌ seen
  one_or_none-single P w b k h =
      let (o, found, p) = seen-single P (tbl.rows w.db) k h in
      (
        o,
        (λ i. (
          (ap
                  (λ u.
                    scalar_one_or_none
                      (select test (select (λ r. in_scope u (tbl.tenant r)) (tbl.rows w.db))))
                  b
                ∙ found)
              i,
          w,
        )),
        p,
      )
