-- ===== src/Tables.antt =====
-- Reading and writing the tables through a session: app/core/tenant_scope.py with the row policies
-- of migrations 0002 and 0003, and the unique constraints of app/adapters/persistence/models.
pub mod Interface
pub mod Instances
pub mod Laws
pub mod Writes
pub mod Constraints
pub mod Lookup
pub mod Single
use vip_channel_management_s.Prelude.{
  ℕ, Bool, true, false, not, ◌&&◌, Option, none, some, List, [], ◌∷◌, ◌≡◌, ◌==◌, select, any,
  if◌then◌else◌,
}
use vip_channel_management_s.Errors.{Error, Result, ok, err}
use vip_channel_management_s.Models.{Db}
use vip_channel_management_s.Tables.Interface.{Table}
use vip_channel_management_s.World.{World, Action, ◌>>=◌, lift}

-- The rows that a session sees: `with_loader_criteria` and the row policy both ask for the bound
-- tenant, and with none bound the policy lets nothing through.
abbrev pub in_scope : Option ℕ → ℕ → Bool
in_scope none tenant = false
in_scope (some t) tenant = t == tenant

module _ {A : Type 0} (tbl : Table A) where
  -- one row of the table: the same identifier, of the same tenant
  abbrev pub same_row : A → A → Bool
  same_row a b = tbl.row_id a == tbl.row_id b && tbl.tenant a == tbl.tenant b

  -- another row that the unique constraint forbids beside `a`
  abbrev pub conflicts : A → A → Bool
  conflicts a b = not (same_row a b) && (tbl.same_key a b && tbl.tenant a == tbl.tenant b)

  -- UPDATE of the row, or INSERT where there is none
  unfoldable pub put_row : A → List A → List A
  put_row a [] = a ∷ []
  put_row a (b ∷ bs) = let rest = put_row a bs in if same_row a b then a ∷ bs else b ∷ rest

  -- `session.execute(select(model).where(test))`
  unfoldable pub query : (A → Bool) → Action (List A)
  query test w =
      (ok (select test (select (λ r. in_scope w.bound (tbl.tenant r)) (tbl.rows w.db))), w)

  -- The flush of a new or changed row: the policy's WITH CHECK, the unique constraint, the write.
  unfoldable pub flush_row : A → Action A
  unfolding put_row
  flush_row a w =
      if in_scope w.bound (tbl.tenant a)
      then if any (conflicts a) (tbl.rows w.db)
        then (err Error.integrity_error, w)
        else (ok a, record w { db = tbl.write (put_row a (tbl.rows w.db)) w.db })
      else (err Error.row_security, w)

abbrev pub scalar_one_or_none : {A : Type 0} → List A → Result (Option A)
scalar_one_or_none [] = ok none
scalar_one_or_none (a ∷ []) = ok (some a)
scalar_one_or_none (a ∷ b ∷ rest) = err Error.multiple_results_found

abbrev pub first : {A : Type 0} → List A → Option A
first [] = none
first (a ∷ rest) = some a
