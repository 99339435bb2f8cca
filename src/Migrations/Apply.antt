-- ===== src/Migrations/Apply.antt =====
-- What each operation of the migrations (backend/alembic/versions) does to a database on PostgreSQL.
use counselready.Common.{
  String, Bool, true, false, not, ◌&&◌, ◌||◌, if◌then◌else◌, Option, none, some, List, [], ◌∷◌,
  ◌++◌, map, is_some, is_none,
}
use text.Mathlib.Text.{◌==◌}
use counselready.Common.Table.{any_row, delete_rows}
use counselready.Migrations.Schema.{Column, Table, Index, Enum, Row, Database}
use counselready.Migrations.Operations.{
  misplaced, contains, override, ◌>>=◌, table_named, has_table, index_named, index_on, column_named,
  has_column, taken, clashes, targets, dangling, uses_type, untyped, on_column,
}

unfoldable pub is_used : String → Database → Bool
is_used n d = any_row (uses_type n) d.tables

unfoldable pub define_type : String → List String → Database → Database
define_type n values d = record d { enums = override n (some values) d.enums }

unfoldable pub forget_type : String → Database → Database
forget_type n d = record d { enums = override n none d.enums }

-- `CREATE TYPE ... AS ENUM`, and `enum.create(bind, checkfirst=True)`, which skips a type that is
-- there.
unfoldable pub apply_create_type : String → List String → Database → Option Database
apply_create_type n values d = if is_some (d.enums n) then none else some (define_type n values d)

unfoldable pub apply_create_enum : Enum → Database → Option Database
apply_create_enum e d =
    if is_some (d.enums e.name) then some d else some (define_type e.name e.values d)

-- `DROP TYPE`, and `enum.drop(bind, checkfirst=True)`, which skips a type that is not there. A type
-- that a column has is not dropped.
unfoldable pub apply_drop_type : String → Database → Option Database
apply_drop_type n d = if is_none (d.enums n) || is_used n d then none else some (forget_type n d)

unfoldable pub apply_drop_enum : String → Database → Option Database
apply_drop_enum n d = if is_none (d.enums n) then some d else apply_drop_type n d

-- The list with a value put after the first `m`.
unfoldable pub insert_after : String → String → List String → List String
insert_after m v [] = []
insert_after m v (w ∷ ws) =
    let rest = insert_after m v ws in if w == m then w ∷ (v ∷ ws) else w ∷ rest

unfoldable pub placed : String → Option String → List String → Option (List String)
placed v none values = some (values ++ (v ∷ []))
placed v (some m) values = if contains values m then some (insert_after m v values) else none

-- `ALTER TYPE ... ADD VALUE IF NOT EXISTS ... [AFTER ...]`
unfoldable pub apply_add_value : String → String → Option String → Database → Option Database
apply_add_value n v after d = do
  values ← d.enums n
  if contains values v
      then some d
      else (do longer ← placed v after values; some (define_type n longer d))

-- `op.create_table`: its name and the names of its own indexes are free, its columns' types are
-- defined, and its foreign keys lead to tables.
unfoldable pub apply_create_table : Table → Database → Option Database
apply_create_table t d =
    if taken d t.name
      || any_row (clashes d) t.constraints
      || any_row (untyped d.enums) t.columns
      || any_row (dangling (t ∷ d.tables)) t.constraints
      || any_row (misplaced t) t.constraints
    then none
    else some (record d { tables = t ∷ d.tables; rows = override t.name [] d.rows })

-- `op.drop_table`: no other table has a foreign key to it. Its indexes and its rows go with it.
unfoldable pub referred : String → List Table → Bool
referred n ts = any_row (λ u. not (table_named n u) && any_row (targets n) u.constraints) ts

unfoldable pub apply_drop_table : String → Database → Option Database
apply_drop_table n d =
    if not (has_table d n) || referred n d.tables
    then none
    else some (record d {
      tables = delete_rows (table_named n) d.tables;
      indexes = delete_rows (index_on n) d.indexes;
      rows = override n [] d.rows;
    })

-- `op.create_index`
unfoldable pub covers : Index → Table → Bool
covers i t = table_named i.table t && not (any_row (λ c. not (has_column c t)) i.columns)

unfoldable pub apply_create_index : Index → Database → Option Database
apply_create_index i d =
    if taken d i.name || not (any_row (covers i) d.tables)
    then none
    else some (record d { indexes = i ∷ d.indexes })

-- `op.drop_index`: PostgreSQL finds the index by its name alone.
unfoldable pub apply_drop_index : String → String → Database → Option Database
apply_drop_index n t d =
    if not (any_row (index_named n) d.indexes)
    then none
    else some (record d { indexes = delete_rows (index_named n) d.indexes })

-- The table `n` changed by `f`, the others as they are.
unfoldable pub alter_table : String → (Table → Table) → List Table → List Table
alter_table n f ts = map (λ t. if table_named n t then f t else t) ts

-- `op.add_column` of a column that is nullable or has a default; NOT NULL without a default needs an
-- empty table. A default is a literal here.
unfoldable pub no_rows : List Row → Bool
no_rows [] = true
no_rows (r ∷ rs) = false

unfoldable pub append_column : Column → Table → Table
append_column c t = record t { columns = t.columns ++ (c ∷ []) }

unfoldable pub with_column : String → Column → Database → Database
with_column n c d = record d {
  tables = alter_table n (append_column c) d.tables;
  rows = override n (map (λ r. (c.name, c.server_default) ∷ r) (d.rows n)) d.rows;
}

unfoldable pub apply_add_column : String → Column → Database → Option Database
apply_add_column n c d =
    if not (has_table d n)
      || any_row (λ t. table_named n t && has_column c.name t) d.tables
      || untyped d.enums c
      || not (c.nullable || is_some c.server_default || no_rows (d.rows n))
    then none
    else some (with_column n c d)

-- `op.drop_column`, with the constraints and the indexes that name the column.
unfoldable pub remove_column : String → Table → Table
remove_column c t = record t {
  columns = delete_rows (column_named c) t.columns;
  constraints = delete_rows (on_column c) t.constraints;
}

unfoldable pub forget_value : String → Row → Row
forget_value c [] = []
forget_value c ((m, v) ∷ r) = let rest = forget_value c r in if m == c then r else (m, v) ∷ rest

unfoldable pub apply_drop_column : String → String → Database → Option Database
apply_drop_column n c d =
    if not (any_row (λ t. table_named n t && has_column c t) d.tables)
    then none
    else some (record d {
      tables = alter_table n (remove_column c) d.tables;
      indexes = delete_rows (λ i. index_on n i && contains i.columns c) d.indexes;
      rows = override n (map (forget_value c) (d.rows n)) d.rows;
    })

-- The value that a row holds in a column.
unfoldable pub value_of : String → Row → Option String
value_of c [] = none
value_of c ((m, v) ∷ r) = let rest = value_of c r in if m == c then v else rest

unfoldable pub is_value : String → Option String → Bool
is_value w none = false
is_value w (some v) = w == v

unfoldable pub set_value : String → String → Row → Row
set_value c w [] = []
set_value c w ((m, v) ∷ r) =
    let rest = set_value c w r in if m == c then (m, some w) ∷ r else (m, v) ∷ rest

-- `UPDATE n SET c = new WHERE c = old`. Where the column has an enum type, both texts are among its
-- values in the revision that sends the statement.
unfoldable pub replace_value : String → String → String → Row → Row
replace_value c new old r = if is_value old (value_of c r) then set_value c new r else r

unfoldable pub apply_update : String → String → String → String → Database → Option Database
apply_update n c new old d =
    if not (any_row (λ t. table_named n t && has_column c t) d.tables)
    then none
    else some (record d { rows = override n (map (replace_value c new old) (d.rows n)) d.rows })

-- `DELETE FROM n WHERE c::text IN (values)`
unfoldable pub is_among : List String → Option String → Bool
is_among values none = false
is_among values (some v) = contains values v

unfoldable pub apply_delete : String → String → List String → Database → Option Database
apply_delete n c values d =
    if not (any_row (λ t. table_named n t && has_column c t) d.tables)
    then none
    else some (record d {
      rows = override n (delete_rows (λ r. is_among values (value_of c r)) (d.rows n)) d.rows;
    })
