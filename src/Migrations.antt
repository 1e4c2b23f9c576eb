-- ===== src/Migrations.antt =====
-- The statements of migrations/versions, and what they do to a schema: tables with their columns,
-- constraints, indexes and row policies. What they do to the rows is left out.
pub mod Columns
pub mod Policies
pub mod Stage1
pub mod Revisions
pub mod Frame
pub mod History
pub mod Undone
pub mod Guarded
use vip_channel_management_s.Prelude.{
  ℕ, Bool, true, false, not, Option, none, some, List, [], ◌∷◌, ◌++◌, ◌≡◌, Text, codes, eq_text,
  any, map, if◌then◌else◌, ◌||◌, ◌&&◌, select,
}
use mathlib.Core.Option.{bind, map as map_option}
use Prim.Native.String.{String}

pub data ColumnType : Type 0 where
  uuid big_integer integer boolean timestamp : ColumnType
  string : (length : ℕ) → ColumnType
  numeric : (precision : ℕ) → (scale : ℕ) → ColumnType
  enumeration : (name : Text) → (values : List Text) → (length : ℕ) → ColumnType

pub record Column : Type 0 where
  pub name : Text
  pub type : ColumnType
  pub nullable : Bool

pub record UniqueConstraint : Type 0 where
  pub columns : List Text
  pub name : Option Text

pub record Index : Type 0 where
  pub name : Text
  pub columns : List Text
  pub unique : Bool

-- A table of the schema; the row policies by their names.
pub record TableSchema : Type 0 where
  pub name : Text
  pub columns : List Column
  pub primary_key : List Text
  pub uniques : List UniqueConstraint
  pub indexes : List Index
  pub row_security : Bool
  pub forced : Bool
  pub policies : List Text

abbrev pub Schema : Type 0
Schema = List TableSchema

-- `op.create_table`, `op.create_index` and so on, and the statements that `op.execute` sends. Each
-- policy has the predicate that the row's tenant is the published one.
pub data Operation : Type 0 where
  create_table :
      (name : Text) → List Column → (primary_key : List Text) → List UniqueConstraint → Operation
  drop_table : (name : Text) → Operation
  create_index :
      (name : Text) → (table : Text) → (columns : List Text) → (unique : Bool) → Operation
  drop_index : (name : Text) → (table : Text) → Operation
  add_column : (table : Text) → Column → Operation
  drop_column : (table : Text) → (name : Text) → Operation
  alter_column : (table : Text) → (name : Text) → (type : ColumnType) → Operation
  enable_row_security force_row_security : (table : Text) → Operation
  create_policy : (name : Text) → (table : Text) → Operation
  drop_policy_if_exists : (name : Text) → (table : Text) → Operation
  no_force_row_security disable_row_security : (table : Text) → Operation

abbrev pub has_index : Text → TableSchema → Bool
has_index name t = any (λ i. eq_text i.name name) t.indexes

module _ {A : Type 0} (name_of : A → Text) where
  -- Without the first one of that name; `none` where there is none.
  unfoldable pub remove_named : Text → List A → Option (List A)
  remove_named name [] = none
  remove_named name (x ∷ xs) =
      let rest = remove_named name xs in
      if eq_text (name_of x) name then some xs else map_option (λ ys. x ∷ ys) rest

  -- With the first one of that name changed.
  unfoldable pub change_named : Text → (A → Option A) → List A → Option (List A)
  change_named name change [] = none
  change_named name change (x ∷ xs) =
      let rest = change_named name change xs in
      if eq_text (name_of x) name
      then map_option (λ y. y ∷ xs) (change x)
      else map_option (λ ys. x ∷ ys) rest

abbrev pub on_table : Text → (TableSchema → Option TableSchema) → Schema → Option Schema
on_table = change_named (λ t. t.name)

-- What a statement does to its table.
abbrev pub with_index : Index → TableSchema → Option TableSchema
with_index index t = some (record t { indexes = index ∷ t.indexes })

unfoldable pub without_index : Text → TableSchema → Option TableSchema
unfolding remove_named
without_index name t =
    map_option (λ is. record t { indexes = is }) (remove_named (λ i. i.name) name t.indexes)

abbrev pub with_column : Column → TableSchema → Option TableSchema
with_column column t =
    if any (λ c. eq_text c.name column.name) t.columns
    then none
    else some (record t { columns = t.columns ++ (column ∷ []) })

unfoldable pub without_column : Text → TableSchema → Option TableSchema
unfolding remove_named
without_column name t =
    map_option (λ cs. record t { columns = cs }) (remove_named (λ c. c.name) name t.columns)

unfoldable pub with_type : Text → ColumnType → TableSchema → Option TableSchema
unfolding change_named
with_type name type t =
    map_option (λ cs. record t { columns = cs })
      (change_named (λ c. c.name) name (λ c. some (record c { type = type })) t.columns)

abbrev pub with_row_security : Bool → TableSchema → Option TableSchema
with_row_security on t = some (record t { row_security = on })

abbrev pub with_force : Bool → TableSchema → Option TableSchema
with_force on t = some (record t { forced = on })

abbrev pub with_policy : Text → TableSchema → Option TableSchema
with_policy name t =
    if any (eq_text name) t.policies then none else some (record t { policies = name ∷ t.policies })

abbrev pub without_policy : Text → TableSchema → Option TableSchema
without_policy name t = some (record t { policies = select (λ p. not (eq_text p name)) t.policies })

-- A statement that the database refuses gives `none`: a name that is taken, or one that is missing.
unfoldable pub apply_operation : Operation → Schema → Option Schema
unfolding remove_named change_named without_index without_column with_type
apply_operation (create_table name columns primary_key uniques) s =
    if any (λ t. eq_text t.name name) s
    then none
    else some (
        record {
          name = name;
          columns = columns;
          primary_key = primary_key;
          uniques = uniques;
          indexes = [];
          row_security = false;
          forced = false;
          policies = [];
        }
        ∷ s)
apply_operation (drop_table name) s = remove_named (λ t. t.name) name s
apply_operation (create_index name table columns unique) s =
    if any (has_index name) s
    then none
    else on_table table (with_index (record { name = name; columns = columns; unique = unique })) s
apply_operation (drop_index name table) s = on_table table (without_index name) s
apply_operation (add_column table column) s = on_table table (with_column column) s
apply_operation (drop_column table name) s = on_table table (without_column name) s
apply_operation (alter_column table name type) s = on_table table (with_type name type) s
apply_operation (enable_row_security table) s = on_table table (with_row_security true) s
apply_operation (force_row_security table) s = on_table table (with_force true) s
apply_operation (create_policy name table) s = on_table table (with_policy name) s
apply_operation (drop_policy_if_exists name table) s = on_table table (without_policy name) s
apply_operation (no_force_row_security table) s = on_table table (with_force false) s
apply_operation (disable_row_security table) s = on_table table (with_row_security false) s

unfoldable pub perform : List Operation → Schema → Option Schema
unfolding bind
perform [] s = some s
perform (op ∷ ops) s = bind (apply_operation op s) (perform ops)
