-- ===== src/Migrations/Operations.antt =====
-- The operations of `alembic.op` and the SQL that the migrations (backend/alembic/versions) execute,
-- each a partial function on databases: `none` where PostgreSQL refuses the statement.
use counselready.Common.{
  String, Bool, false, not, ◌||◌, if◌then◌else◌, Option, none, some, List, is_none,
}
use text.Mathlib.Text.{◌==◌}
use counselready.Common.Table.{any_row}
use counselready.Migrations.Schema.{
  ColumnType, enumeration, Column, Constraint, foreign_key, check, primary_key, unique, Table,
  Index, Enum, Database,
}

pub data Op : Type 0 where
  create_enum : Enum → Op
  drop_enum : String → Op
  add_value : String → String → Option String → Op
  create_table : Table → Op
  drop_table : String → Op
  create_index : Index → Op
  drop_index : String → String → Op
  add_column : String → Column → Op
  drop_column : String → String → Op
  update_where : String → String → String → String → Op
  delete_where : String → String → List String → Op
  rename_type : String → String → Op
  create_type : String → List String → Op
  alter_column_type : String → String → String → Op
  drop_type : String → Op

infixl 5 ◌>>=◌
abbrev pub ◌>>=◌ : {A B : Type 0} → Option A → (A → Option B) → Option B
none >>= f = none
some a >>= f = f a

-- Membership in a list of names.
unfoldable pub contains : List String → String → Bool
contains names n = any_row (λ m. m == n) names

-- A finite map with one entry replaced.
unfoldable pub override {ℓ} : {A : Type ℓ} → String → A → (String → A) → String → A
override k v f n = if k == n then v else f n

unfoldable pub table_named : String → Table → Bool
table_named n t = t.name == n

unfoldable pub has_table : Database → String → Bool
has_table d n = any_row (table_named n) d.tables

unfoldable pub index_named : String → Index → Bool
index_named n i = i.name == n

unfoldable pub index_on : String → Index → Bool
index_on n i = i.table == n

unfoldable pub column_named : String → Column → Bool
column_named n c = c.name == n

unfoldable pub has_column : String → Table → Bool
has_column n t = any_row (column_named n) t.columns

-- The constraint that PostgreSQL keeps by an index of the same name.
unfoldable pub keeps_index : String → Constraint → Bool
keeps_index n (foreign_key m k) = false
keeps_index n (check m e) = false
keeps_index n (primary_key m cs) = m == n
keeps_index n (unique m cs) = m == n

-- Tables and indexes share one namespace.
unfoldable pub taken : Database → String → Bool
taken d n =
    has_table d n
    || any_row (index_named n) d.indexes
    || any_row (λ t. any_row (keeps_index n) t.constraints) d.tables

-- A constraint whose index would need a name that is taken.
unfoldable pub clashes : Database → Constraint → Bool
clashes d (foreign_key m k) = false
clashes d (check m e) = false
clashes d (primary_key m cs) = taken d m
clashes d (unique m cs) = taken d m

-- A foreign key to the table `n`.
unfoldable pub targets : String → Constraint → Bool
targets n (foreign_key m k) = k.target == n
targets n (check m e) = false
targets n (primary_key m cs) = false
targets n (unique m cs) = false

-- A foreign key to no table of the list.
unfoldable pub dangling : List Table → Constraint → Bool
dangling ts (foreign_key m k) = not (any_row (table_named k.target) ts)
dangling ts (check m e) = false
dangling ts (primary_key m cs) = false
dangling ts (unique m cs) = false

unfoldable pub is_enumeration : String → ColumnType → Bool
is_enumeration n (enumeration m) = m == n
is_enumeration n other = false

unfoldable pub typed : String → Column → Bool
typed n c = is_enumeration n c.sql_type

unfoldable pub uses_type : String → Table → Bool
uses_type n t = any_row (typed n) t.columns

unfoldable pub type_undefined : (String → Option (List String)) → ColumnType → Bool
type_undefined enums (enumeration m) = is_none (enums m)
type_undefined enums other = false

unfoldable pub untyped : (String → Option (List String)) → Column → Bool
untyped enums c = type_undefined enums c.sql_type

-- A constraint that names the column `c` of its table.
unfoldable pub on_column : String → Constraint → Bool
on_column c (foreign_key m k) = contains k.columns c
on_column c (check m e) = false
on_column c (primary_key m cs) = contains cs c
on_column c (unique m cs) = contains cs c

-- A constraint on a column that the table has not.
unfoldable pub misses : List String → Table → Bool
misses cs t = any_row (λ c. not (has_column c t)) cs

unfoldable pub misplaced : Table → Constraint → Bool
misplaced t (foreign_key n k) = misses k.columns t
misplaced t (check n e) = false
misplaced t (primary_key n cs) = misses cs t
misplaced t (unique n cs) = misses cs t
