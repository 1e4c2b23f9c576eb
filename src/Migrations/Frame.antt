-- ===== src/Migrations/Frame.antt =====
-- A revision of migrations/versions works beside tables that it does not name: what it does to its
-- own tables it does to them in a larger schema too.
use vip_channel_management_s.Prelude.{
  Bool, true, false, Option, some, List, [], ◌∷◌, ◌++◌, ◌≡◌, refl, Text, eq_text, any, arith,
  Bool-cases, inl, inr, ap, ◌∙◌, ◌||◌,
}
use mathlib.Core.Option.{map as map_option, map-eq-some_iff, bind, bind-eq-some_iff}
use vip_channel_management_s.Migrations.{
  Operation, Schema, TableSchema, perform, apply_operation, remove_named, change_named, has_index,
  with_index, on_table, without_index, with_column, without_column, with_type, with_row_security,
  with_force, with_policy, without_policy,
}

-- The statement makes a table or an index of a name that the schema has.
unfoldable pub takes : Schema → Operation → Bool
takes s (Operation.create_table name columns primary_key uniques) = any (λ t. eq_text t.name name) s
takes s (Operation.create_index name table columns unique) = any (has_index name) s
takes s _ = false

pub any-append :
    {A : Type 0} (p : A → Bool) (xs ys : List A) → any p (xs ++ ys) ≡ (any p xs || any p ys)
any-append p [] ys = refl
any-append p (x ∷ xs) ys = ground (arith, any-append p xs ys)

module _ {A : Type 0} (name_of : A → Text) (name : Text) where
  remove_named-frame :
      (f s g : List A)
      → remove_named name_of name f ≡ some g
      → remove_named name_of name (f ++ s) ≡ some (g ++ s)
  unfolding remove_named
  remove_named-frame [] s g h = cc
  remove_named-frame (x ∷ f) s g h = elim (Bool-cases (eq_text (name_of x) name)) [
    | inl e ↦ rw e (let k : f ≡ g = cc (rw e at h) in ap (λ l. some (l ++ s)) k)
    | inr e ↦
        let (ys, e1, e2) =
          (map-eq-some_iff (λ l. x ∷ l) (remove_named name_of name f)).0 (rw e at h) in
        rw e
          (ap (map_option (λ l. x ∷ l)) (remove_named-frame f s ys e1) ∙ ap (λ l. some (l ++ s)) e2)
  ]

  change_named-frame :
      (change : A → Option A) (f s g : List A)
      → change_named name_of name change f ≡ some g
      → change_named name_of name change (f ++ s) ≡ some (g ++ s)
  unfolding change_named
  change_named-frame change [] s g h = cc
  change_named-frame change (x ∷ f) s g h = elim (Bool-cases (eq_text (name_of x) name)) [
    | inl e ↦
        let (y, e1, e2) = (map-eq-some_iff (λ z. z ∷ f) (change x)).0 (rw e at h) in
        rw e (ap (map_option (λ z. z ∷ (f ++ s))) e1 ∙ ap (λ l. some (l ++ s)) e2)
    | inr e ↦
        let (ys, e1, e2) =
          (map-eq-some_iff (λ l. x ∷ l) (change_named name_of name change f)).0 (rw e at h) in
        rw e (
          ap (map_option (λ l. x ∷ l)) (change_named-frame change f s ys e1)
          ∙ ap (λ l. some (l ++ s)) e2)
  ]

on_table-frame :
    (table : Text) (change : TableSchema → Option TableSchema) (f s g : Schema)
    → on_table table change f ≡ some g
    → on_table table change (f ++ s) ≡ some (g ++ s)
on_table-frame table = change_named-frame (λ t. t.name) table

apply_operation-frame :
    (op : Operation) (f s g : Schema)
    → takes s op ≡ false
    → apply_operation op f ≡ some g
    → apply_operation op (f ++ s) ≡ some (g ++ s)
unfolding takes apply_operation
apply_operation-frame (Operation.create_table name columns primary_key uniques) f s g h e =
    elim (Bool-cases (any (λ t. eq_text t.name name) f)) [
      | inl k ↦ cc (rw k at e)
      | inr k ↦
          let free : any (λ t. eq_text t.name name) (f ++ s) ≡ false =
            any-append (λ t. eq_text t.name name) f s ∙ rw (k, h) refl in
          rw free (ap (map_option (λ l. l ++ s)) (rw k at e))
    ]
apply_operation-frame (Operation.create_index name table columns unique) f s g h e =
    elim (Bool-cases (any (has_index name) f)) [
      | inl k ↦ cc (rw k at e)
      | inr k ↦
          let free : any (has_index name) (f ++ s) ≡ false =
            any-append (has_index name) f s ∙ rw (k, h) refl in
          rw free (
            on_table-frame table
              (with_index (record { name = name; columns = columns; unique = unique })) f s g
              (rw k at e))
    ]
apply_operation-frame (Operation.drop_table name) f s g h e =
    remove_named-frame (λ t. t.name) name f s g e
apply_operation-frame (Operation.drop_index name table) f s g h e =
    on_table-frame table (without_index name) f s g e
apply_operation-frame (Operation.add_column table column) f s g h e =
    on_table-frame table (with_column column) f s g e
apply_operation-frame (Operation.drop_column table name) f s g h e =
    on_table-frame table (without_column name) f s g e
apply_operation-frame (Operation.alter_column table name type) f s g h e =
    on_table-frame table (with_type name type) f s g e
apply_operation-frame (Operation.enable_row_security table) f s g h e =
    on_table-frame table (with_row_security true) f s g e
apply_operation-frame (Operation.force_row_security table) f s g h e =
    on_table-frame table (with_force true) f s g e
apply_operation-frame (Operation.create_policy name table) f s g h e =
    on_table-frame table (with_policy name) f s g e
apply_operation-frame (Operation.drop_policy_if_exists name table) f s g h e =
    on_table-frame table (without_policy name) f s g e
apply_operation-frame (Operation.no_force_row_security table) f s g h e =
    on_table-frame table (with_force false) f s g e
apply_operation-frame (Operation.disable_row_security table) f s g h e =
    on_table-frame table (with_row_security false) f s g e

-- Statements that take no name of the schema `s` do beside it what they do without it.
pub perform-frame :
    (ops : List Operation) (f s g : Schema)
    → any (takes s) ops ≡ false
    → perform ops f ≡ some g
    → perform ops (f ++ s) ≡ some (g ++ s)
unfolding perform bind
perform-frame [] f s g h e = ap (map_option (λ l. l ++ s)) e
perform-frame (op ∷ ops) f s g h e =
    let (next, e1, e2) = (bind-eq-some_iff (apply_operation op f) (perform ops)).0 e in
    ap (λ o. bind o (perform ops)) (apply_operation-frame op f s next (ground arith) e1)
    ∙ perform-frame ops next s g (ground arith) e2
