-- ===== src/Migrations/Guarded.antt =====
-- Which tables of a schema the row policies of migrations/versions protect.
use mathlib.Core.Option.{bind}
use vip_channel_management_s.Prelude.{
  Bool, true, false, some, not, [], ◌++◌, ◌≡◌, ◌≢◌, refl, any, ◌&&◌, ◌∙◌, codes, eq_text,
}
use vip_channel_management_s.Migrations.{
  Schema, TableSchema, perform, apply_operation, remove_named, change_named, without_index,
  without_column, with_type, bind,
}
use vip_channel_management_s.Migrations.Policies.{tenant_isolation}
use vip_channel_management_s.Migrations.Frame.{takes, any-append, perform-frame}
use vip_channel_management_s.Migrations.History.{Revision, upgrades, revisions_to, reached}

abbrev pub has_policy : TableSchema → Bool
has_policy t = t.row_security && (t.forced && any (eq_text tenant_isolation) t.policies)

-- A table of rows of tenants that no forced policy protects, other than that of the webhook routes.
abbrev pub unguarded : TableSchema → Bool
unguarded t =
    any (λ c. eq_text c.name (codes "tenant_id")) t.columns
    && (not (has_policy t) && not (eq_text t.name (codes "webhook_routes")))

upgraded :
    (r : Revision)
    → perform (upgrades true (revisions_to r)) []
      ≡ some (reached (perform (upgrades true (revisions_to r)) []))
unfolding perform bind apply_operation remove_named change_named without_index without_column
    with_type
upgraded Revision.r0001 = refl
upgraded Revision.r0002 = refl
upgraded Revision.r0003 = refl
upgraded Revision.r0004 = refl
upgraded Revision.r0005 = refl

guarded_alone :
    (r : Revision)
    → r ≢ Revision.r0001
    → any unguarded (reached (perform (upgrades true (revisions_to r)) [])) ≡ false
unfolding perform bind apply_operation remove_named change_named without_index without_column
    with_type
guarded_alone Revision.r0001 h = elim (h refl) [ ]
guarded_alone Revision.r0002 h = refl
guarded_alone Revision.r0003 h = refl
guarded_alone Revision.r0004 h = refl
guarded_alone Revision.r0005 h = refl

-- On PostgreSQL, when an unmigrated schema has no table and no index of a name that the revisions
-- make, and each of its tables with a column `tenant_id`, but the table of webhook routes, has an
-- enabled and forced row policy: an upgrade to any revision but the first succeeds, and each table
-- with a column `tenant_id` of the schema after it, but the table of webhook routes, has one too.
pub upgrades-guarded :
    (r : Revision) (s : Schema)
    → r ≢ Revision.r0001
    → any (takes s) (upgrades true (revisions_to r)) ≡ false
    → any unguarded s ≡ false
    → (s' : Schema) × (perform (upgrades true (revisions_to r)) s ≡ some s')
      × (any unguarded s' ≡ false)
upgrades-guarded r s k h g =
    let alone = reached (perform (upgrades true (revisions_to r)) []) in
    (
      alone ++ s,
      perform-frame (upgrades true (revisions_to r)) [] s alone h (upgraded r),
      any-append unguarded alone s ∙ rw (guarded_alone r k, g) refl,
    )
