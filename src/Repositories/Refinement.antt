-- ===== src/Repositories/Refinement.antt =====
-- That the calls of the shared repository of app/adapters/persistence/repositories.py do what they
-- do on the abstract store.
use vip_channel_management_s.Prelude.{
  ◌==◌, ◌&&◌, ℕ, Bool, true, false, not, Option, some, List, [], ◌∷◌, ◌≡◌, refl, ap, subst, sym,
  ◌∙◌, select, Bool-cases, any, inl, arith, inr,
}
use vip_channel_management_s.Errors.{ok, ok-inj}
use vip_channel_management_s.World.{World, Action, pure, ◌>>=◌}
use vip_channel_management_s.World.Bind.{bind_ok}
use vip_channel_management_s.Tables.{put_row, first, scalar_one_or_none, query, in_scope}
use vip_channel_management_s.Tables.Interface.{Table, IsTable}
use vip_channel_management_s.Tables.Writes.{IsKeyed, put_row-IsKeyed, clashes}
use vip_channel_management_s.Tables.Lookup.{flush_row-Written, Written}
use vip_channel_management_s.Repositories.Calls.{
  RepositoryCall, CallAnswer, Spec, one_call, all_calls, abstractly, replay,
}
use vip_channel_management_s.Repositories.{get_by_id, save, delete, one_or_none, deletes}
use vip_channel_management_s.Repositories.View.{
  view, stored, removed, is_some, view-put_row, view-delete, any-deletes,
}

module _ {A : Type 0} (tbl : Table A) (t : ℕ) where
  -- What a session of tenant `t` keeps between two calls.
  pub record IsReady (w : World) : Type 0 where
    pub bound : w.bound ≡ some t
    pub keyed : IsKeyed tbl (tbl.rows w.db)

  abbrev pub store_of : World → ℕ → Option A
  store_of w = view tbl t (tbl.rows w.db)

  -- Whenever the action returns, the specification gives the same answer and the same store.
  pub record Implements {B : Type 0} (m : Action B) (s : Spec A B) : Type 0 where
    pub holds :
        (w : World) (b : B) (w' : World)
        → IsReady w
        → m w ≡ (ok b, w')
        → IsReady w' × (s (store_of w) ≡ (b, store_of w'))

  pub Implements-pure : {B : Type 0} (b : B) → Implements (pure b) (λ store. (b, store))
  Implements-pure b = record {
    holds = λ w c w' h e.
        let same : w ≡ w' = cc in
        let value : b ≡ c = cc in (subst IsReady same h, λ i. (value i, store_of (same i)));
  }

  pub Implements-bind :
      {B C : Type 0} (m : Action B) (f : B → Action C) (s : Spec A B) (k : B → Spec A C)
      → Implements m s
      → ((b : B) → Implements (f b) (k b))
      → Implements (m >>= f) (λ store. k (s store).0 (s store).1)
  Implements-bind m f s k im ik = record {
    holds = λ w c w' h e.
        let (b, u, e1, e2) = bind_ok m f w e in
        let (hu, s1) = im.holds w b u h e1 in
        let (hw, s2) = (ik b).holds u c w' hu e2 in (hw, ap (λ p. k p.0 p.1) s1 ∙ s2);
  }

module _ {A : Type 0} (tbl : Table A) (t : ℕ) where
  abbrev pub scope_and : ℕ → List A → List A
  scope_and id xs =
      select (λ r. tbl.tenant r == t && tbl.row_id r == id)
        (select (λ r. in_scope (some t) (tbl.tenant r)) xs)

  first-scope_and : (id : ℕ) (xs : List A) → first (scope_and id xs) ≡ view tbl t xs id
  unfolding view
  first-scope_and id [] = refl
  first-scope_and id (x ∷ xs) = elim (Bool-cases (t == tbl.tenant x)) [
    | inl e ↦ elim (Bool-cases (tbl.row_id x == id)) [
      | inl f ↦ let g : (tbl.tenant x == t) ≡ true = ground arith in rw (e, f, g) refl
      | inr f ↦
          let g : (tbl.tenant x == t) ≡ true = ground arith in rw (e, f, g) (first-scope_and id xs)
    ]
    | inr e ↦ rw e (first-scope_and id xs)
  ]

  first-scalar : (xs : List A) (r : Option A) → scalar_one_or_none xs ≡ ok r → first xs ≡ r
  first-scalar [] r h = cc
  first-scalar (x ∷ []) r h = cc
  first-scalar (x ∷ y ∷ xs) r h = cc

  get_by_id-Implements :
      (id : ℕ) → Implements tbl t (get_by_id tbl t id) (λ store. (store id, store))
  unfolding get_by_id one_or_none query ◌>>=◌
  get_by_id-Implements id = record {
    holds = λ w r w' h e.
        let same : w ≡ w' = cc in
        let value : scalar_one_or_none (scope_and id (tbl.rows w.db)) ≡ ok r =
          ap
            (λ o. scalar_one_or_none (
              select (λ r. tbl.tenant r == t && tbl.row_id r == id)
                (select (λ r. in_scope o (tbl.tenant r)) (tbl.rows w.db))))
            (sym h.bound)
          ∙ ap (λ q. q.0) e in
        (
          subst (IsReady tbl t) same h,
          λ i. (
            (sym (first-scope_and id (tbl.rows w.db))
                  ∙ first-scalar (scope_and id (tbl.rows w.db)) r value)
                i,
            store_of tbl t (same i),
          ),
        );
  }

  any-select : (p q : A → Bool) (xs : List A) → any p xs ≡ false → any p (select q xs) ≡ false
  any-select p q [] h = refl
  any-select p q (x ∷ xs) h = ground (arith, any-select p q xs)

  select-IsKeyed : (q : A → Bool) (xs : List A) → IsKeyed tbl xs → IsKeyed tbl (select q xs)
  select-IsKeyed q [] h = tt
  select-IsKeyed q (x ∷ xs) h = elim (Bool-cases (q x)) [
    | inl e ↦ rw e (any-select (clashes tbl x) q xs h.0, select-IsKeyed q xs h.1)
    | inr e ↦ rw e (select-IsKeyed q xs h.1)
  ]

  -- The rows after a write are those that were written.
  IsReady-write :
      IsTable tbl
      → (xs : List A) (w w' : World) → w.bound ≡ some t
      → IsKeyed tbl xs
      → record w { db = tbl.write xs w.db } ≡ w'
      → IsReady tbl t w'
  IsReady-write laws xs w w' b k e =
      subst (IsReady tbl t) e
        (record { bound = b; keyed = subst (IsKeyed tbl) (sym (laws.rows-write xs w.db)) k })

  store_of-write :
      IsTable tbl
      → (xs : List A) (w w' : World) → record w { db = tbl.write xs w.db } ≡ w'
      → view tbl t xs ≡ store_of tbl t w'
  store_of-write laws xs w w' e =
      ap (view tbl t) (sym (laws.rows-write xs w.db)) ∙ ap (store_of tbl t) e

  pub save-Implements :
      IsTable tbl
      → (a : A)
      → Implements tbl t
          (save tbl t a)
          (λ store. (tbl.assign t a, stored tbl (tbl.assign t a) store))
  unfolding save
  save-Implements laws a = record {
    holds = λ w r w' h e.
        let b = tbl.assign t a in
        let f : Written tbl t b r w w' = flush_row-Written tbl t b r w w' h.bound e in
        let xs = put_row tbl b (tbl.rows w.db) in
        let written : stored tbl b (view tbl t (tbl.rows w.db)) ≡ store_of tbl t w' =
          sym (λ i id. view-put_row tbl t b (tbl.rows w.db) id f.mine i)
          ∙ store_of-write laws xs w w' f.world in
        (
          IsReady-write laws xs w w' h.bound
              (put_row-IsKeyed tbl laws b (tbl.rows w.db) h.keyed f.free) f.world,
          λ i. (f.result i, written i),
        );
  }

  delete-Implements :
      IsTable tbl
      → (id : ℕ)
      → Implements tbl t (delete tbl t id) (λ store. (is_some (store id), removed tbl id store))
  unfolding delete
  delete-Implements laws id = record {
    holds = λ w r w' h e.
        let rest : Option ℕ → List A =
          λ o. select (λ r. not (deletes tbl o t id r)) (tbl.rows w.db) in
        let world : record w { db = tbl.write (rest w.bound) w.db } ≡ w' = ap (λ q. q.1) e in
        let gone : any (deletes tbl w.bound t id) (tbl.rows w.db) ≡ r = ok-inj (ap (λ q. q.0) e) in
        let answer : is_some (view tbl t (tbl.rows w.db) id) ≡ r =
          sym (any-deletes tbl t id (tbl.rows w.db))
          ∙ ap (λ o. any (deletes tbl o t id) (tbl.rows w.db)) (sym h.bound)
          ∙ gone in
        let left : removed tbl id (view tbl t (tbl.rows w.db)) ≡ store_of tbl t w' =
          sym (λ i j. view-delete tbl t id (tbl.rows w.db) j i)
          ∙ ap (λ o. view tbl t (rest o)) (sym h.bound)
          ∙ store_of-write laws (rest w.bound) w w' world in
        (
          IsReady-write laws (rest w.bound) w w' h.bound
              (select-IsKeyed (λ r. not (deletes tbl w.bound t id r)) (tbl.rows w.db) h.keyed)
              world,
          λ i. (answer i, left i),
        );
  }

  pub one_call-Implements :
      IsTable tbl
      → (op : RepositoryCall A) → Implements tbl t (one_call tbl t op) (abstractly tbl t op)
  unfolding one_call abstractly
  one_call-Implements laws (RepositoryCall.find id) =
      Implements-bind tbl t (get_by_id tbl t id) (λ r. pure (CallAnswer.row r))
        (λ store. (store id, store)) (λ r store. (CallAnswer.row r, store))
        (get_by_id-Implements id) (λ r. Implements-pure tbl t (CallAnswer.row r))
  one_call-Implements laws (RepositoryCall.put a) =
      Implements-bind tbl t (save tbl t a) (λ r. pure (CallAnswer.written r))
        (λ store. (tbl.assign t a, stored tbl (tbl.assign t a) store))
        (λ r store. (CallAnswer.written r, store)) (save-Implements laws a)
        (λ r. Implements-pure tbl t (CallAnswer.written r))
  one_call-Implements laws (RepositoryCall.remove id) =
      Implements-bind tbl t (delete tbl t id) (λ r. pure (CallAnswer.was_there r))
        (λ store. (is_some (store id), removed tbl id store))
        (λ r store. (CallAnswer.was_there r, store)) (delete-Implements laws id)
        (λ r. Implements-pure tbl t (CallAnswer.was_there r))

  all_calls-Implements :
      IsTable tbl
      → (ops : List (RepositoryCall A)) → Implements tbl t (all_calls tbl t ops) (replay tbl t ops)
  unfolding all_calls replay
  all_calls-Implements laws [] = Implements-pure tbl t []
  all_calls-Implements laws (op ∷ ops) =
      Implements-bind tbl t (one_call tbl t op)
        (λ answer. do answers ← all_calls tbl t ops; pure (answer ∷ answers)) (abstractly tbl t op)
        (λ answer store. let (answers, last) = replay tbl t ops store in (answer ∷ answers, last))
        (one_call-Implements laws op)
        (λ answer.
          Implements-bind tbl t (all_calls tbl t ops) (λ answers. pure (answer ∷ answers))
            (replay tbl t ops) (λ answers store. (answer ∷ answers, store))
            (all_calls-Implements laws ops) (λ answers. Implements-pure tbl t (answer ∷ answers)))

  -- In a session of a tenant, any sequence of finds, saves and deletes of a scoped table that
  -- returns gives the answers of the same calls on the abstract store, a function of the
  -- identifier, and leaves that store behind.
  pub all_calls_refines :
      IsTable tbl
      → (ops : List (RepositoryCall A)) (w : World) (answers : List (CallAnswer A)) (w' : World)
      → IsReady tbl t w
      → all_calls tbl t ops w ≡ (ok answers, w')
      → replay tbl t ops (store_of tbl t w) ≡ (answers, store_of tbl t w')
  all_calls_refines laws ops w answers w' h e =
      ((all_calls-Implements laws ops).holds w answers w' h e).1
