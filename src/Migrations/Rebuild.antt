-- ===== src/Migrations/Rebuild.antt =====
-- The four statements by which a downgrade gives an enum type fewer values (backend/alembic/versions:
-- c3f07a19b842, 4b7c1d90e2aa).
use counselready.Common.{
  ◌≡◌, refl, arith, String, Bool, true, false, not, ◌&&◌, Option, none, some, List, [], ◌∷◌, map,
  if◌then◌else◌,
}
use mathlib.Core.Path.{fun_ext}
use counselready.Common.Table.{any_row}
use text.Mathlib.Text.{◌==◌}
use text.Mathlib.TextEquality.{eq_iff}
use text.Mathlib.TextPositions.{eq_refl}
use counselready.Migrations.Schema.{ColumnType, enumeration, Column, Table, Database}
use counselready.Migrations.Operations.{
  Op, rename_type, create_type, alter_column_type, drop_type, override, table_named, column_named,
  has_column, typed, is_enumeration,
}
use counselready.Migrations.Apply.{
  apply_create_type, apply_drop_type, alter_table, value_of, define_type, forget_type, is_used,
}
use counselready.Migrations.Recast.{
  renamed, map_columns, apply_rename_type, uncastable, retyped, apply_alter_column_type,
}
use counselready.Migrations.Run.{apply, run}
use counselready.Migrations.WellFormed.{IsWellFormed}
use counselready.Migrations.Undo.{unused_type}

-- A column that has the type `e` though it is not the column `c` of the table `n`, or the reverse.
unfoldable pub stray : String → String → String → Table → Column → Bool
stray n c e t k = if table_named n t && column_named c k then not (typed e k) else typed e k

-- Only the column `c` of the table `n` has the type `e`.
unfoldable pub sole_user : String → String → String → Database → Bool
sole_user n c e d =
    not (any_row (λ t. any_row (stray n c e t) t.columns) d.tables)
    && any_row (λ t. table_named n t && has_column c t) d.tables

abbrev pub rebuild : String → String → String → String → List String → List Op
rebuild n c e old values =
    rename_type e old ∷ create_type e values ∷ alter_column_type n c e ∷ drop_type old ∷ []

retype_back : (e old : String) (t : ColumnType) → is_enumeration e t ≡ true → enumeration e ≡ t
unfolding is_enumeration
retype_back e old (enumeration m) h = ground (arith, eq_iff m e)
retype_back e old other h = ground arith

column_kept : (e old : String) (k : Column) → typed e k ≡ false → renamed e old k ≡ k
unfolding typed renamed
column_kept e old k h = rw h refl

column_back :
    (c e old : String) (k : Column)
    → column_named c k ≡ true
    → typed e k ≡ true
    → retyped c e (renamed e old k) ≡ k
unfolding typed renamed retyped column_named
column_back c e old k h h' = ground (arith, retype_back e old k.sql_type)

column_other :
    (c e old : String) (k : Column)
    → column_named c k ≡ false
    → typed e k ≡ false
    → retyped c e (renamed e old k) ≡ k
unfolding typed renamed retyped column_named
column_other c e old k h h' = ground arith

columns_other :
    (n c e old : String) (t : Table) (ks : List Column)
    → table_named n t ≡ false
    → any_row (stray n c e t) ks ≡ false
    → map (renamed e old) ks ≡ ks
unfolding any_row stray
columns_other n c e old t [] h g = refl
columns_other n c e old t (k ∷ ks) h g =
    ground (arith, columns_other n c e old t ks, column_kept e old k)

columns_back :
    (n c e old : String) (t : Table) (ks : List Column)
    → table_named n t ≡ true
    → any_row (stray n c e t) ks ≡ false
    → map (retyped c e) (map (renamed e old) ks) ≡ ks
unfolding any_row stray
columns_back n c e old t [] h g = refl
columns_back n c e old t (k ∷ ks) h g =
    ground (arith, columns_back n c e old t ks, column_back c e old k, column_other c e old k)

tables_back :
    (n c e old : String) (ts : List Table)
    → any_row (λ t. any_row (stray n c e t) t.columns) ts ≡ false
    → alter_table n (map_columns (retyped c e)) (map (map_columns (renamed e old)) ts) ≡ ts
unfolding alter_table map_columns any_row table_named
tables_back n c e old [] h = refl
tables_back n c e old (t ∷ ts) h = ground (
  arith,
  tables_back n c e old ts,
  columns_back n c e old t t.columns,
  columns_other n c e old t t.columns,
)

enums_back :
    (e old : String) (values current : List String) (enums : String → Option (List String))
    → enums e ≡ some current
    → enums old ≡ none
    → override old none
        (override e (some values) (override old (some current) (override e none enums)))
      ≡ override e (some values) enums
unfolding override
enums_back e old values current enums h h' = fun_ext (λ m. ground (arith, eq_iff e m, eq_iff old m))

has_renamed :
    (c e old : String) (ks : List Column)
    → any_row (column_named c) (map (renamed e old) ks) ≡ any_row (column_named c) ks
unfolding any_row renamed column_named
has_renamed c e old [] = refl
has_renamed c e old (k ∷ ks) = ground (arith, has_renamed c e old ks)

columns_there :
    (n c e old : String) (ts : List Table)
    → any_row (λ t. table_named n t && has_column c t) (map (map_columns (renamed e old)) ts)
      ≡ any_row (λ t. table_named n t && has_column c t) ts
unfolding any_row map_columns table_named has_column
columns_there n c e old [] = refl
columns_there n c e old (t ∷ ts) =
    ground (arith, columns_there n c e old ts, has_renamed c e old t.columns)

-- The enum type `e`, which only the column `c` of `n` has, is given other values: every value the
-- rows hold there must be among them.
pub run-rebuild :
    (n c e old : String) (values current : List String) (d : Database)
    → IsWellFormed d
    → sole_user n c e d ≡ true
    → d.enums e ≡ some current
    → d.enums old ≡ none
    → any_row (λ r. uncastable values (value_of c r)) (d.rows n) ≡ false
    → run (rebuild n c e old values) d ≡ some (define_type e values d)
unfolding run apply sole_user apply_rename_type apply_create_type apply_alter_column_type
    apply_drop_type define_type forget_type is_used override
run-rebuild n c e old values current d wf sole h h' fits =
    let stray_none : any_row (λ t. any_row (stray n c e t) t.columns) d.tables ≡ false =
      ground arith in
    let there : any_row (λ t. table_named n t && has_column c t) d.tables ≡ true = ground arith in
    let back = tables_back n c e old d.tables stray_none in
    let other : (e == old) ≡ false = ground (arith, eq_iff e old) in
    let other' : (old == e) ≡ false = ground (arith, eq_iff old e) in
    let enums = enums_back e old values current d.enums h h' in
    let apart = unused_type old d.enums d.tables h' wf.types_defined in
    let same = eq_refl e in
    let same' = eq_refl old in
    let held = columns_there n c e old d.tables in
    rw (h, h', other', same, same, held, there, fits, back, other, same', apart, enums) refl
