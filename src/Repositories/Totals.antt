-- ===== src/Repositories/Totals.antt =====
-- Sequences of calls of the shared repository of app/adapters/persistence/repositories.py that end:
-- what each call needs to return, and what it raises otherwise.
use vip_channel_management_s.Prelude.{
  ℕ, true, false, List, [], ◌∷◌, ◌≡◌, refl, ap, subst, sym, ◌∙◌, ◌==◌, ◌&&◌, ◌↔◌, if◌then◌else◌,
  any, arith, Bool-cases, inl, inr, select, some,
}
use vip_channel_management_s.Errors.{Error, ok, err}
use vip_channel_management_s.World.{World, Action, pure, ◌>>=◌}
use vip_channel_management_s.World.Bind.{bind_run}
use vip_channel_management_s.Tables.{
  flush_row, put_row, in_scope, conflicts, query, scalar_one_or_none,
}
use vip_channel_management_s.Tables.Interface.{Table, IsTable}
use vip_channel_management_s.Repositories.Refused.{
  Allowed, AllAllowed, Taken, Taken-conflicts, conflicts-Taken,
}
use vip_channel_management_s.Repositories.Calls.{
  RepositoryCall, CallAnswer, one_call, all_calls, replay,
}
use vip_channel_management_s.Repositories.Refinement.{
  IsReady, store_of, all_calls_refines, one_call-Implements, save-Implements, scope_and,
}
use vip_channel_management_s.Repositories.{save, get_by_id, delete, one_or_none}
use vip_channel_management_s.Repositories.View.{mine, view, stored}
use vip_channel_management_s.Tables.Writes.{clashes, IsKeyed}

module _ {A : Type 0} (tbl : Table A) (t : ℕ) (laws : IsTable tbl) where
  assigned : (a : A) → (t == tbl.tenant (tbl.assign t a)) ≡ true
  assigned a = let e : tbl.tenant (tbl.assign t a) ≡ t = laws.tenant-assign t a in ground arith

  assigned_in_scope :
      (a : A) (w : World) → IsReady tbl t w → in_scope w.bound (tbl.tenant (tbl.assign t a)) ≡ true
  assigned_in_scope a w h = ap (λ o. in_scope o (tbl.tenant (tbl.assign t a))) h.bound ∙ assigned a

  save-refuses :
      (a : A) (w : World)
      → IsReady tbl t w
      → any (conflicts tbl (tbl.assign t a)) (tbl.rows w.db) ≡ true
      → save tbl t a w ≡ (err Error.integrity_error, w)
  unfolding save flush_row
  save-refuses a w h e = rw (assigned_in_scope a w h, e) refl

  pub save-writes :
      (a : A) (w : World)
      → IsReady tbl t w
      → any (conflicts tbl (tbl.assign t a)) (tbl.rows w.db) ≡ false
      → save tbl t a w ≡ (
        ok (tbl.assign t a),
        record w { db = tbl.write (put_row tbl (tbl.assign t a) (tbl.rows w.db)) w.db },
      )
  unfolding save flush_row
  save-writes a w h e = rw (assigned_in_scope a w h, e) refl

  -- In a session of a tenant a save is refused, with nothing written, exactly where the abstract
  -- store has another row with the key of the row to be saved.
  pub save-refused_iff :
      (a : A) (w : World)
      → IsReady tbl t w
      → (save tbl t a w ≡ (err Error.integrity_error, w))
        ↔ Taken tbl (tbl.assign t a) (store_of tbl t w)
  save-refused_iff a w h = (
    λ e. elim (Bool-cases (any (conflicts tbl (tbl.assign t a)) (tbl.rows w.db))) [
      | inl c ↦ Taken-conflicts tbl t (tbl.assign t a) (tbl.rows w.db) (assigned a) h.keyed c
      | inr c ↦ cc (ap (λ p. p.0) e, ap (λ p. p.0) (save-writes a w h c))
    ],
    λ k. save-refuses a w h (
        conflicts-Taken tbl t (tbl.assign t a) k.row (tbl.rows w.db) k.id (assigned a) k.there
          k.same_key k.other),
  )

  abbrev Ends : {B : Type 0} → Action B → World → Type 0
  Ends {B} m w = (b : B) × (w' : World) × (m w ≡ (ok b, w'))

  Ends-bind :
      {B C : Type 0} (m : Action B) (f : B → Action C) (w : World)
      → ((b : B) (w' : World) → m w ≡ (ok b, w') → Ends (f b) w')
      → Ends m w
      → Ends (m >>= f) w
  Ends-bind m f w k h =
      let (b, u, e) = h in let (c, w', e2) = k b u e in (c, w', bind_run m f w e ∙ e2)

  scope_and-cons :
      (id : ℕ) (x : A) (xs : List A)
      → scope_and tbl t id (x ∷ xs)
        ≡ (if mine tbl t id x then x ∷ scope_and tbl t id xs else scope_and tbl t id xs)
  scope_and-cons id x xs = elim (Bool-cases (t == tbl.tenant x)) [
    | inl e ↦ let f : (tbl.tenant x == t) ≡ true = ground arith in rw (e, f) refl
    | inr e ↦ rw e refl
  ]

  scope_and-none :
      (id : ℕ) (x : A) (xs : List A)
      → mine tbl t id x ≡ true
      → any (clashes tbl x) xs ≡ false
      → scope_and tbl t id xs ≡ []
  scope_and-none id x [] m h = refl
  scope_and-none id x (y ∷ ys) m h =
      let other : mine tbl t id y ≡ false = ground arith in
      scope_and-cons id y ys ∙ rw other (scope_and-none id x ys m (ground arith))

  scalar-scope_and :
      (id : ℕ) (xs : List A)
      → IsKeyed tbl xs
      → scalar_one_or_none (scope_and tbl t id xs) ≡ ok (view tbl t xs id)
  unfolding view
  scalar-scope_and id [] k = refl
  scalar-scope_and id (x ∷ xs) k =
      ap scalar_one_or_none (scope_and-cons id x xs) ∙ (elim (Bool-cases (mine tbl t id x)) [
        | inl e ↦ rw e (ap (λ l. scalar_one_or_none (x ∷ l)) (scope_and-none id x xs e k.0))
        | inr e ↦ rw e (scalar-scope_and id xs k.1)
      ])

  pub get_by_id-view :
      (id : ℕ) (w : World)
      → IsReady tbl t w
      → get_by_id tbl t id w ≡ (ok (view tbl t (tbl.rows w.db) id), w)
  unfolding get_by_id one_or_none query ◌>>=◌
  get_by_id-view id w h = λ i. (
    (ap
            (λ o. scalar_one_or_none (
              select (λ r. tbl.tenant r == t && tbl.row_id r == id)
                (select (λ r. in_scope o (tbl.tenant r)) (tbl.rows w.db))))
            h.bound
          ∙ scalar-scope_and id (tbl.rows w.db) h.keyed)
        i,
    w,
  )

  save-Ends :
      (a : A) (w : World)
      → IsReady tbl t w
      → ¬ Taken tbl (tbl.assign t a) (store_of tbl t w)
      → Ends (save tbl t a) w
  save-Ends a w h k = elim (Bool-cases (any (conflicts tbl (tbl.assign t a)) (tbl.rows w.db))) [
    | inl c ↦
        elim (k (Taken-conflicts tbl t (tbl.assign t a) (tbl.rows w.db) (assigned a) h.keyed c)) [ ]
    | inr c ↦ (_, _, save-writes a w h c)
  ]

  one_call-Ends :
      (op : RepositoryCall A) (w : World)
      → IsReady tbl t w
      → Allowed tbl t op (store_of tbl t w)
      → Ends (one_call tbl t op) w
  unfolding one_call
  one_call-Ends (RepositoryCall.find id) w h k =
      Ends-bind (get_by_id tbl t id) (λ r. pure (CallAnswer.row r)) w (λ b u e. (_, _, refl))
        (_, _, get_by_id-view id w h)
  one_call-Ends (RepositoryCall.put a) w h k =
      Ends-bind (save tbl t a) (λ r. pure (CallAnswer.written r)) w (λ b u e. (_, _, refl))
        (save-Ends a w h k)
  one_call-Ends (RepositoryCall.remove id) w h k =
      Ends-bind (delete tbl t id) (λ r. pure (CallAnswer.was_there r)) w (λ b u e. (_, _, refl))
        (unfold delete in (_, _, refl))

  all_calls-Ends :
      (ops : List (RepositoryCall A)) (w : World)
      → IsReady tbl t w
      → AllAllowed tbl t ops (store_of tbl t w)
      → Ends (all_calls tbl t ops) w
  unfolding all_calls
  all_calls-Ends [] w h k = (_, _, refl)
  all_calls-Ends (op ∷ ops) w h k =
      Ends-bind (one_call tbl t op)
        (λ answer. do answers ← all_calls tbl t ops; pure (answer ∷ answers)) w
        (λ answer u e.
          let (hu, s) = (one_call-Implements tbl t laws op).holds w answer u h e in
          Ends-bind (all_calls tbl t ops) (λ answers. pure (answer ∷ answers)) u
            (λ b v e2. (_, _, refl))
            (all_calls-Ends ops u hu (subst (AllAllowed tbl t ops) (ap (λ p. p.1) s) k.1)))
        (one_call-Ends op w h k.0)

  -- In a session of a tenant, any sequence of finds, saves and deletes of a scoped table in which
  -- no save meets a taken key of the abstract store returns, with the answers of the same calls on
  -- the abstract store, and leaves that store behind.
  pub all_calls_return :
      (ops : List (RepositoryCall A)) (w : World)
      → IsReady tbl t w
      → AllAllowed tbl t ops (store_of tbl t w)
      → (w' : World) × (all_calls tbl t ops w ≡ (ok (replay tbl t ops (store_of tbl t w)).0, w'))
        × (store_of tbl t w' ≡ (replay tbl t ops (store_of tbl t w)).1)
  all_calls_return ops w h k =
      let (answers, w', e) = all_calls-Ends ops w h k in
      let s = all_calls_refines tbl t laws ops w answers w' h e in
      (w', e ∙ ap (λ p. (ok p.0, w')) (sym s), ap (λ p. p.1) (sym s))

  -- In a session of a tenant, what a save returned is what is found under its identifier next, and
  -- under every other identifier is found what was found before.
  pub save-get_by_id :
      (a r : A) (w w' : World)
      → IsReady tbl t w
      → save tbl t a w ≡ (ok r, w')
      → IsReady tbl t w'
        × ((id : ℕ)
            → get_by_id tbl t id w'
              ≡ (ok (if tbl.row_id r == id then some r else store_of tbl t w id), w'))
  unfolding stored
  save-get_by_id a r w w' h e =
      let (ready, s) = (save-Implements tbl t laws a).holds w r w' h e in
      (
        ready,
        λ id. get_by_id-view id w' ready ∙ (λ i. (
          ok (
              (ap (λ p. p.1 id) (sym s)
                  ∙ ap (λ (b : A). if tbl.row_id b == id then some b else store_of tbl t w id)
                      (ap (λ p. p.0) s))
                i),
          w',
        )),
      )
