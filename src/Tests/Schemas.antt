-- ===== src/Tests/Schemas.antt =====
-- The revisions at a schema with a table of its own.
use vip_channel_management_s.Prelude.{true, false, some, [], ◌∷◌, ◌++◌, ◌≡◌, refl, any, codes}
use vip_channel_management_s.Migrations.{Schema, TableSchema, perform, string}
use vip_channel_management_s.Migrations.Columns.{column}
use vip_channel_management_s.Migrations.Frame.{takes}
use vip_channel_management_s.Migrations.Guarded.{unguarded, upgrades-guarded}
use vip_channel_management_s.Migrations.History.{
  Revision, upgrades, upgrade, downgrade, before, revisions_to,
}
use vip_channel_management_s.Migrations.Undone.{upgrade-downgrade}

-- the table that Alembic keeps for itself
abbrev alembic_version : TableSchema
alembic_version = record {
  name = codes "alembic_version";
  columns = column "version_num" (string 32) false ∷ [];
  primary_key = codes "version_num" ∷ [];
  uniques = [];
  indexes = [];
  row_security = false;
  forced = false;
  policies = [];
}

abbrev start : Schema
start = alembic_version ∷ []

before_free : any (takes start) (upgrades true (before Revision.r0003)) ≡ false
unfolding takes
before_free = refl

free : any (takes start) (upgrade true Revision.r0003) ≡ false
unfolding takes
free = refl

all_free : any (takes start) (upgrades true (revisions_to Revision.r0005)) ≡ false
unfolding takes
all_free = refl

upgrade-downgrade_example :
    (s' : Schema) × (perform (upgrades true (before Revision.r0003)) start ≡ some s')
    × (perform (upgrade true Revision.r0003 ++ downgrade true Revision.r0003) s' ≡ some s')
upgrade-downgrade_example = upgrade-downgrade true Revision.r0003 start before_free free

upgrades-guarded_example :
    (s' : Schema) × (perform (upgrades true (revisions_to Revision.r0005)) start ≡ some s')
    × (any unguarded s' ≡ false)
upgrades-guarded_example = upgrades-guarded Revision.r0005 start (λ e. cc e) all_free refl
