-- ===== src/Tables/Lookup.antt =====
-- What a query finds: the rows that pass its test, and after a write the row that was written.
use vip_channel_management_s.World.{◌>>=◌}
use vip_channel_management_s.Tables.Interface.{Table, IsTable}
use vip_channel_management_s.Tables.Writes.{IsKeyed, clashes}
use vip_channel_management_s.Tables.{
  put_row, same_row, conflicts, flush_row, query, in_scope, scalar_one_or_none,
}
use vip_channel_management_s.Prelude.{
  sym, subst, some, ◌≡◌, refl, Bool-cases, inl, inr, true, false, arith, [], any, ap, ◌==◌, ◌∷◌,
  ◌&&◌, ◌∙◌, if◌then◌else◌, ℕ, Bool, List, select,
}
use vip_channel_management_s.World.{World}
use vip_channel_management_s.Errors.{Result, ok}
use vip_channel_management_s.Tables.Constraints.{IsConstrained, AllKeyed}
use vip_channel_management_s.Repositories.{one_or_none}

module _ {A : Type 0} (tbl : Table A) where
  -- The rows that a session of tenant `t` finds.
  unfoldable pub seen : ℕ → (A → Bool) → List A → List A
  seen t test xs = select test (select (λ r. t == tbl.tenant r) xs)

  pub seen-cons :
      (t : ℕ) (test : A → Bool) (b : A) (bs : List A)
      → seen t test (b ∷ bs)
        ≡ (if (t == tbl.tenant b) && test b then b ∷ seen t test bs else seen t test bs)
  unfolding seen
  seen-cons t test b bs = elim (Bool-cases (t == tbl.tenant b)) [
    | inl e ↦ rw e refl
    | inr e ↦ rw e refl
  ]

  module _ (t : ℕ) (test : A → Bool) (a : A) (mine : (t == tbl.tenant a) ≡ true)
      (passed : test a ≡ true) (key : (b : A) → test b ≡ true → tbl.same_key a b ≡ true) where
    -- A row that is found either is the one to be written or is in conflict with it.
    found_clashes :
        (b : A)
        → same_row tbl a b ≡ false
        → conflicts tbl a b ≡ false
        → ((t == tbl.tenant b) && test b) ≡ false
    found_clashes b s c = ground (arith, key b)

    pub seen-none :
        (xs : List A)
        → any (same_row tbl a) xs ≡ false
        → any (conflicts tbl a) xs ≡ false
        → seen t test xs ≡ []
    seen-none [] s c = unfold seen in refl
    seen-none (b ∷ bs) s c =
        seen-cons t test b bs
        ∙ rw (found_clashes b (ground arith) (ground arith))
            (seen-none bs (ground arith) (ground arith))

    same_of_clashes :
        (b : A) (xs : List A)
        → same_row tbl a b ≡ true
        → any (clashes tbl b) xs ≡ false
        → any (same_row tbl a) xs ≡ false
    same_of_clashes b [] s h = refl
    same_of_clashes b (c ∷ cs) s h = ground (arith, same_of_clashes b cs)

    -- After the write the query finds the written row and no other.
    pub seen-put_row :
        (xs : List A)
        → IsKeyed tbl xs
        → any (conflicts tbl a) xs ≡ false
        → seen t test (put_row tbl a xs) ≡ a ∷ []
    unfolding put_row
    seen-put_row [] k c = seen-cons t test a [] ∙ rw (mine, passed) (unfold seen in refl)
    seen-put_row (b ∷ bs) k c = elim (Bool-cases (same_row tbl a b)) [
      | inl same ↦ rw same (
          seen-cons t test a bs
          ∙ rw (mine, passed)
              (ap (λ l. a ∷ l) (seen-none bs (same_of_clashes b bs same k.0) (ground arith))))
      | inr other ↦ rw other (
          seen-cons t test b (put_row tbl a bs)
          ∙ rw (found_clashes b other (ground arith)) (seen-put_row bs k.1 (ground arith)))
    ]

  -- A flush that returned has met the policy and the constraint, and has written the row.
  pub record Written (t : ℕ) (a r : A) (w w' : World) : Type 0 where
    pub mine : (t == tbl.tenant a) ≡ true
    pub free : any (conflicts tbl a) (tbl.rows w.db) ≡ false
    pub result : a ≡ r
    pub world : record w { db = tbl.write (put_row tbl a (tbl.rows w.db)) w.db } ≡ w'

  pub flush_row-Written :
      (t : ℕ) (a r : A) (w w' : World)
      → w.bound ≡ some t
      → flush_row tbl a w ≡ (ok r, w')
      → Written t a r w w'
  unfolding flush_row
  flush_row-Written t a r w w' b h = elim (Bool-cases (in_scope w.bound (tbl.tenant a))) [
    | inl mine ↦ elim (Bool-cases (any (conflicts tbl a) (tbl.rows w.db))) [
      | inl taken ↦ cc (rw (mine, taken) at h)
      | inr free ↦
          let e : ◌≡◌ {A = Result A × World}
              (ok a, record w { db = tbl.write (put_row tbl a (tbl.rows w.db)) w.db }) (ok r, w') =
            rw (mine, free) at h in
          record {
            mine = sym (ap (λ o. in_scope o (tbl.tenant a)) b) ∙ mine;
            free = free;
            result = cc;
            world = ap (λ q. q.1) e;
          }
    ]
    | inr other ↦ cc (rw other at h)
  ]

  seen_by :
      (t : ℕ) (test : A → Bool) (w : World) (xs : List A)
      → w.bound ≡ some t
      → IsTable tbl
      → one_or_none tbl test (record w { db = tbl.write xs w.db })
        ≡ (scalar_one_or_none (seen t test xs), record w { db = tbl.write xs w.db })
  unfolding one_or_none query seen ◌>>=◌
  seen_by t test w xs b laws = λ i. (
    scalar_one_or_none
        (select test (select (λ r. in_scope (b i) (tbl.tenant r)) (laws.rows-write xs w.db i))),
    record w { db = tbl.write xs w.db },
  )

  -- What a flush returned is what a query for its key finds next.
  pub one_or_none-flush_row :
      IsTable tbl
      → IsConstrained tbl
      → (t : ℕ) (test : A → Bool) (a r : A) (w w' : World) → w.bound ≡ some t
      → AllKeyed w.db
      → test a ≡ true
      → ((b : A) → test b ≡ true → tbl.same_key a b ≡ true)
      → flush_row tbl a w ≡ (ok r, w')
      → one_or_none tbl test w' ≡ (ok (some r), w')
  one_or_none-flush_row laws cons t test a r w w' b k p key h =
      let f : Written t a r w w' = flush_row-Written t a r w w' b h in
      let s : seen t test (put_row tbl a (tbl.rows w.db)) ≡ a ∷ [] =
        seen-put_row t test a f.mine p key (tbl.rows w.db) (cons.of_all w.db k) f.free in
      subst (λ v. one_or_none tbl test v ≡ (ok (some r), v)) f.world
        (seen_by t test w (put_row tbl a (tbl.rows w.db)) b laws ∙ (λ i. (
          (ap scalar_one_or_none s ∙ (λ j. ok (some (f.result j)))) i,
          record w { db = tbl.write (put_row tbl a (tbl.rows w.db)) w.db },
        )))

  pub select-passes :
      (test : A → Bool) (xs ys : List A) (e : A) → select test xs ≡ e ∷ ys → test e ≡ true
  select-passes test [] ys e h = cc
  select-passes test (x ∷ xs) ys e h = elim (Bool-cases (test x)) [
    | inl p ↦ cc (rw p at h)
    | inr f ↦ select-passes test xs ys e (rw f at h)
  ]

  scalar-one : (xs : List A) (e : A) → scalar_one_or_none xs ≡ ok (some e) → xs ≡ e ∷ []
  scalar-one [] e h = cc
  scalar-one (x ∷ []) e h = cc
  scalar-one (x ∷ y ∷ ys) e h = cc

  -- A query changes nothing, and what it finds passes its test.
  pub one_or_none-passes :
      (test : A → Bool) (e : A) (w u : World)
      → one_or_none tbl test w ≡ (ok (some e), u)
      → test e ≡ true
  unfolding one_or_none query ◌>>=◌
  one_or_none-passes test e w u h =
      select-passes test (select (λ r. in_scope w.bound (tbl.tenant r)) (tbl.rows w.db)) [] e (
        scalar-one (select test (select (λ r. in_scope w.bound (tbl.tenant r)) (tbl.rows w.db))) e
          (ap (λ q. q.0) h))

  pub one_or_none-world : (test : A → Bool) (w : World) → (one_or_none tbl test w).1 ≡ w
  unfolding one_or_none query ◌>>=◌
  one_or_none-world test w = refl
