-- ===== src/Repositories/Deleted.antt =====
-- `delete` and `TenantRepository.create` of app/adapters/persistence/repositories.py, and what is
-- found after them.
use vip_channel_management_s.World.{◌>>=◌, World}
use vip_channel_management_s.Prelude.{
  refl, ◌∷◌, [], ◌==◌, ◌&&◌, not, none, inl, inr, Bool-cases, ℕ, Option, List, select, ◌≡◌, some,
  any, arith, subst, false, sym, select-append, eq_text, select-none, eq_text_refl,
}
use vip_channel_management_s.Repositories.{
  delete, deletes, get_by_id, one_or_none, create, get_by_slug, same_tenant,
}
use vip_channel_management_s.Tables.{in_scope, query}
use vip_channel_management_s.Tables.Interface.{Table, IsTable, others}
use vip_channel_management_s.Errors.{ok}
use vip_channel_management_s.Models.{Tenant}
use vip_channel_management_s.Tables.Laws.{==_comm, eq_text_comm}

none_left :
    {A : Type 0} (tbl : Table A) (bound : Option ℕ) (tenant_id entity_id : ℕ) (xs : List A)
    → select
        (λ r. tbl.tenant r == tenant_id && tbl.row_id r == entity_id)
        (select
          (λ r. in_scope bound (tbl.tenant r))
          (select (λ r. not (deletes tbl bound tenant_id entity_id r)) xs))
      ≡ []
none_left tbl bound tenant_id entity_id [] = refl
none_left tbl bound tenant_id entity_id (x ∷ xs) =
    elim (Bool-cases (in_scope bound (tbl.tenant x))) [
      | inl s ↦ elim (Bool-cases (tbl.tenant x == tenant_id && tbl.row_id x == entity_id)) [
        | inl e ↦ rw (s, e) (none_left tbl bound tenant_id entity_id xs)
        | inr e ↦ rw (s, e) (rw (s, e) (none_left tbl bound tenant_id entity_id xs))
      ]
      | inr s ↦ rw s (rw s (none_left tbl bound tenant_id entity_id xs))
    ]

-- After a delete no row with that identifier is found.
pub delete-get_by_id :
    {A : Type 0} (tbl : Table A) (tenant_id entity_id : ℕ) (w : World)
    → IsTable tbl
    → (get_by_id tbl tenant_id entity_id (delete tbl tenant_id entity_id w).1).0 ≡ ok none
unfolding delete get_by_id one_or_none query ◌>>=◌
delete-get_by_id tbl tenant_id entity_id w laws =
    rw
      (
        laws.rows-write
            (select (λ r. not (deletes tbl w.bound tenant_id entity_id r)) (tbl.rows w.db)) w.db,
        none_left tbl w.bound tenant_id entity_id (tbl.rows w.db),
      )
      refl

others_left :
    {A : Type 0} (tbl : Table A) (t tenant_id entity_id : ℕ) (xs : List A)
    → select
        (λ r. not (tbl.tenant r == t))
        (select (λ r. not (deletes tbl (some t) tenant_id entity_id r)) xs)
      ≡ select (λ r. not (tbl.tenant r == t)) xs
others_left tbl t tenant_id entity_id [] = refl
others_left tbl t tenant_id entity_id (x ∷ xs) =
    ground (arith, others_left tbl t tenant_id entity_id xs, ==_comm t (tbl.tenant x))

-- In a session of tenant `t` a delete removes no row of another tenant and no unscoped row,
-- whatever tenant it is given.
pub delete-others :
    {A : Type 0} (tbl : Table A) (t tenant_id entity_id : ℕ) (w : World)
    → IsTable tbl
    → w.bound ≡ some t
    → others t (delete tbl tenant_id entity_id w).1.db ≡ others t w.db
unfolding delete
delete-others tbl t tenant_id entity_id w laws b =
    laws.others-write t
      (select (λ r. not (deletes tbl w.bound tenant_id entity_id r)) (tbl.rows w.db)) w.db
      (subst
        (λ o.
          select (λ r. not (tbl.tenant r == t))
            (select (λ r. not (deletes tbl o tenant_id entity_id r)) (tbl.rows w.db))
          ≡ select (λ r. not (tbl.tenant r == t)) (tbl.rows w.db))
        (sym b) (others_left tbl t tenant_id entity_id (tbl.rows w.db)))

no_slug :
    (tenant : Tenant) (xs : List Tenant)
    → any (same_tenant tenant) xs ≡ false
    → any (λ r. eq_text r.slug tenant.slug) xs ≡ false
no_slug tenant [] h = refl
no_slug tenant (x ∷ xs) h = ground (arith, no_slug tenant xs, eq_text_comm x.slug tenant.slug)

-- A tenant that could be created is the one found under its slug.
pub create-get_by_slug :
    (tenant : Tenant) (w : World)
    → any (same_tenant tenant) w.db.tenants ≡ false
    → (get_by_slug tenant.slug (create tenant w).1).0 ≡ ok (some tenant)
unfolding create get_by_slug
create-get_by_slug tenant w h =
    rw
      (
        h,
        select-append (λ r. eq_text r.slug tenant.slug) w.db.tenants (tenant ∷ []),
        select-none (λ r. eq_text r.slug tenant.slug) w.db.tenants (no_slug tenant w.db.tenants h),
        eq_text_refl tenant.slug,
      )
      refl
