-- ===== src/Migrations/History.antt =====
-- The chain of the revisions of migrations/versions, and what it does to a schema.
use vip_channel_management_s.Prelude.{◌∷◌, Bool, some, List, [], ◌++◌, Option, none}
use vip_channel_management_s.Migrations.{Operation, Schema}
use vip_channel_management_s.Migrations.Revisions.{
  upgrade_0001, upgrade_0002, upgrade_0004, upgrade_0005, downgrade_0001, downgrade_0002,
  downgrade_0004, downgrade_0005,
}
use vip_channel_management_s.Migrations.Stage1.{upgrade_0003, downgrade_0003}

-- The revisions, each after its `down_revision`.
pub data Revision : Type 0 where
  r0001 r0002 r0003 r0004 r0005 : Revision

abbrev pub upgrade : Bool → Revision → List Operation
upgrade postgresql r0001 = upgrade_0001
upgrade postgresql r0002 = upgrade_0002 postgresql
upgrade postgresql r0003 = upgrade_0003 postgresql
upgrade postgresql r0004 = upgrade_0004 postgresql
upgrade postgresql r0005 = upgrade_0005

abbrev pub downgrade : Bool → Revision → List Operation
downgrade postgresql r0001 = downgrade_0001
downgrade postgresql r0002 = downgrade_0002 postgresql
downgrade postgresql r0003 = downgrade_0003 postgresql
downgrade postgresql r0004 = downgrade_0004 postgresql
downgrade postgresql r0005 = downgrade_0005

-- The revisions before one, and with it, by the `down_revision` of each.
abbrev pub before : Revision → List Revision
before r0001 = []
before r0002 = r0001 ∷ []
before r0003 = r0001 ∷ r0002 ∷ []
before r0004 = r0001 ∷ r0002 ∷ r0003 ∷ []
before r0005 = r0001 ∷ r0002 ∷ r0003 ∷ r0004 ∷ []

abbrev pub revisions_to : Revision → List Revision
revisions_to r = before r ++ (r ∷ [])

-- `alembic upgrade` through these revisions
abbrev pub upgrades : Bool → List Revision → List Operation
upgrades postgresql [] = []
upgrades postgresql (r ∷ rs) = upgrade postgresql r ++ upgrades postgresql rs

-- the schema that was reached, or else the empty one
abbrev pub reached : Option Schema → Schema
reached none = []
reached (some s) = s
