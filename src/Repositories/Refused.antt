-- ===== src/Repositories/Refused.antt =====
-- When the shared repository of app/adapters/persistence/repositories.py refuses a row, told by the
-- abstract store, and that it refuses nothing else.
use vip_channel_management_s.Prelude.{
  ℕ, true, false, Option, some, List, [], ◌∷◌, ◌≡◌, refl, ap, ◌∙◌, ◌==◌, if◌then◌else◌, any, arith,
  Bool-cases, inl, inr,
}
use vip_channel_management_s.Tables.Interface.{Table}
use vip_channel_management_s.Repositories.View.{mine, view}
use vip_channel_management_s.Tables.Writes.{IsKeyed, clashes}
use vip_channel_management_s.Tables.{conflicts, same_row}
use vip_channel_management_s.Repositories.Calls.{RepositoryCall, abstractly}

module _ {A : Type 0} (tbl : Table A) where
  -- Another row of the store has the key of the row.
  pub record Taken (a : A) (store : ℕ → Option A) : Type 0 where
    pub id : ℕ
    pub row : A
    pub there : store id ≡ some row
    pub same_key : tbl.same_key a row ≡ true
    pub other : (tbl.row_id a == id) ≡ false

module _ {A : Type 0} (tbl : Table A) (t : ℕ) where
  view-cons :
      (x : A) (xs : List A) (id : ℕ)
      → view tbl t (x ∷ xs) id ≡ (if mine tbl t id x then some x else view tbl t xs id)
  unfolding view
  view-cons x xs id = refl

  -- What is found under an identifier is a row of the table.
  seen_twice :
      (x c : A) (xs : List A) (id : ℕ)
      → view tbl t xs id ≡ some c
      → mine tbl t id x ≡ true
      → any (same_row tbl x) xs ≡ true
  unfolding view
  seen_twice x c [] id h m = cc
  seen_twice x c (y ∷ ys) id h m = elim (Bool-cases (mine tbl t id y)) [
    | inl e ↦ ground arith
    | inr e ↦
        let rest : any (same_row tbl x) ys ≡ true = seen_twice x c ys id (rw e at h) m in
        ground arith
  ]

  any-clashes :
      (x : A) (xs : List A) → any (clashes tbl x) xs ≡ false → any (same_row tbl x) xs ≡ false
  any-clashes x [] h = refl
  any-clashes x (y ∷ ys) h = ground (arith, any-clashes x ys)

  pub Taken-conflicts :
      (b : A) (xs : List A)
      → (t == tbl.tenant b) ≡ true
      → IsKeyed tbl xs
      → any (conflicts tbl b) xs ≡ true
      → Taken tbl b (view tbl t xs)
  Taken-conflicts b [] m k h = cc
  Taken-conflicts b (x ∷ xs) m k h = elim (Bool-cases (conflicts tbl b x)) [
    | inl e ↦ record {
      id = tbl.row_id x;
      row = x;
      there =
          view-cons x xs (tbl.row_id x)
          ∙ (let f : mine tbl t (tbl.row_id x) x ≡ true = ground arith in rw f refl);
      same_key = ground arith;
      other = ground arith;
    }
    | inr e ↦
        let r : Taken tbl b (view tbl t xs) = Taken-conflicts b xs m k.1 (ground arith) in
        elim (Bool-cases (mine tbl t r.id x)) [
          | inl f ↦ cc (seen_twice x r.row xs r.id r.there f, any-clashes x xs k.0)
          | inr f ↦ record {
            id = r.id;
            row = r.row;
            there = view-cons x xs r.id ∙ rw f r.there;
            same_key = r.same_key;
            other = r.other;
          }
        ]
  ]

  pub conflicts-Taken :
      (b c : A) (xs : List A) (id : ℕ)
      → (t == tbl.tenant b) ≡ true
      → view tbl t xs id ≡ some c
      → tbl.same_key b c ≡ true
      → (tbl.row_id b == id) ≡ false
      → any (conflicts tbl b) xs ≡ true
  unfolding view
  conflicts-Taken b c [] id m h k o = cc
  conflicts-Taken b c (x ∷ xs) id m h k o = elim (Bool-cases (mine tbl t id x)) [
    | inl e ↦
        let same : x ≡ c = cc (rw e at h) in
        let f : tbl.same_key b x ≡ true = ap (tbl.same_key b) same ∙ k in ground arith
    | inr e ↦
        let rest : any (conflicts tbl b) xs ≡ true = conflicts-Taken b c xs id m (rw e at h) k o in
        ground arith
  ]

  -- What a call asks of the abstract store so that it returns.
  abbrev pub Allowed : RepositoryCall A → (ℕ → Option A) → Type 0
  Allowed (RepositoryCall.find id) store = Unit
  Allowed (RepositoryCall.put a) store = ¬ Taken tbl (tbl.assign t a) store
  Allowed (RepositoryCall.remove id) store = Unit

  abbrev pub AllAllowed : List (RepositoryCall A) → (ℕ → Option A) → Type 0
  AllAllowed [] store = Unit
  AllAllowed (op ∷ ops) store = Allowed op store × AllAllowed ops (abstractly tbl t op store).1
