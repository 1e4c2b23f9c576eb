-- ===== src/Migrations/Policies.antt =====
-- The row policies that revisions 0002, 0003 and 0004 of migrations/versions give their tables.
use vip_channel_management_s.Prelude.{List, [], ◌∷◌, Text, codes}
use vip_channel_management_s.Migrations.{
  Operation, enable_row_security, force_row_security, create_policy, drop_policy_if_exists,
  no_force_row_security, disable_row_security,
}

-- the policy's name
abbrev pub tenant_isolation : Text
tenant_isolation = codes "tenant_isolation"

abbrev pub enable_policies : List Text → List Operation
enable_policies [] = []
enable_policies (table ∷ tables) =
    enable_row_security table
    ∷ force_row_security table
    ∷ create_policy tenant_isolation table
    ∷ enable_policies tables

abbrev pub disable_policies : List Text → List Operation
disable_policies [] = []
disable_policies (table ∷ tables) =
    drop_policy_if_exists tenant_isolation table
    ∷ no_force_row_security table
    ∷ disable_row_security table
    ∷ disable_policies tables
