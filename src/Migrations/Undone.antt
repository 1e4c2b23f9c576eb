-- ===== src/Migrations/Undone.antt =====
-- The downgrades of migrations/versions take their upgrades back.
use mathlib.Core.Option.{bind}
use vip_channel_management_s.Prelude.{Bool, true, false, some, [], ◌++◌, ◌≡◌, refl, any, ◌∙◌}
use vip_channel_management_s.Migrations.{
  Schema, perform, apply_operation, remove_named, change_named, without_index, without_column,
  with_type, bind,
}
use vip_channel_management_s.Migrations.Frame.{takes, any-append, perform-frame}
use vip_channel_management_s.Migrations.History.{
  Revision, upgrade, downgrade, upgrades, before, reached,
}

-- what the earlier revisions make of an empty schema
abbrev base : Bool → Revision → Schema
base postgresql r = reached (perform (upgrades postgresql (before r)) [])

base_reached :
    (postgresql : Bool) (r : Revision)
    → perform (upgrades postgresql (before r)) [] ≡ some (base postgresql r)
unfolding perform bind apply_operation remove_named change_named without_index without_column
    with_type
base_reached true Revision.r0001 = refl
base_reached true Revision.r0002 = refl
base_reached true Revision.r0003 = refl
base_reached true Revision.r0004 = refl
base_reached true Revision.r0005 = refl
base_reached false Revision.r0001 = refl
base_reached false Revision.r0002 = refl
base_reached false Revision.r0003 = refl
base_reached false Revision.r0004 = refl
base_reached false Revision.r0005 = refl

undone_alone :
    (postgresql : Bool) (r : Revision)
    → perform (upgrade postgresql r ++ downgrade postgresql r) (base postgresql r)
      ≡ some (base postgresql r)
unfolding perform bind apply_operation remove_named change_named without_index without_column
    with_type
undone_alone true Revision.r0001 = refl
undone_alone true Revision.r0002 = refl
undone_alone true Revision.r0003 = refl
undone_alone true Revision.r0004 = refl
undone_alone true Revision.r0005 = refl
undone_alone false Revision.r0001 = refl
undone_alone false Revision.r0002 = refl
undone_alone false Revision.r0003 = refl
undone_alone false Revision.r0004 = refl
undone_alone false Revision.r0005 = refl

takes-downgrade :
    (postgresql : Bool) (r : Revision) (s : Schema) → any (takes s) (downgrade postgresql r) ≡ false
unfolding takes
takes-downgrade true Revision.r0001 s = refl
takes-downgrade true Revision.r0002 s = refl
takes-downgrade true Revision.r0003 s = refl
takes-downgrade true Revision.r0004 s = refl
takes-downgrade true Revision.r0005 s = refl
takes-downgrade false Revision.r0001 s = refl
takes-downgrade false Revision.r0002 s = refl
takes-downgrade false Revision.r0003 s = refl
takes-downgrade false Revision.r0004 s = refl
takes-downgrade false Revision.r0005 s = refl

-- On PostgreSQL and elsewhere, at the schema that the earlier revisions make of one that has no
-- table and no index of a name that they or the revision make, the upgrade of a revision followed
-- by its downgrade succeeds, statement by statement, and gives that schema back.
pub upgrade-downgrade :
    (postgresql : Bool) (r : Revision) (s : Schema)
    → any (takes s) (upgrades postgresql (before r)) ≡ false
    → any (takes s) (upgrade postgresql r) ≡ false
    → (s' : Schema) × (perform (upgrades postgresql (before r)) s ≡ some s')
      × (perform (upgrade postgresql r ++ downgrade postgresql r) s' ≡ some s')
upgrade-downgrade postgresql r s h k = (
  base postgresql r ++ s,
  perform-frame (upgrades postgresql (before r)) [] s (base postgresql r) h
      (base_reached postgresql r),
  perform-frame (upgrade postgresql r ++ downgrade postgresql r) (base postgresql r) s
      (base postgresql r)
      (any-append (takes s) (upgrade postgresql r) (downgrade postgresql r)
        ∙ rw (k, takes-downgrade postgresql r s) refl)
      (undone_alone postgresql r),
)
