-- ===== src/Migrations/Recast.antt =====
-- The statements by which a downgrade rebuilds an enum type (backend/alembic/versions: c3f07a19b842, 4b7c1d90e2aa).
use counselready.Common.{
  String, Bool, false, not, ◌&&◌, ◌||◌, if◌then◌else◌, Option, none, some, List, map, is_some,
}
use counselready.Common.Table.{any_row}
use counselready.Migrations.Schema.{enumeration, Column, Table, Database}
use counselready.Migrations.Operations.{
  contains, override, ◌>>=◌, table_named, column_named, has_column, is_enumeration,
}
use counselready.Migrations.Apply.{alter_table, value_of}

-- `ALTER TYPE ... RENAME TO ...`: a column keeps the type, under its new name.
unfoldable pub renamed : String → String → Column → Column
renamed old new c = record c {
  sql_type = if is_enumeration old c.sql_type then enumeration new else c.sql_type;
}

unfoldable pub map_columns : (Column → Column) → Table → Table
map_columns f t = record t { columns = map f t.columns }

unfoldable pub apply_rename_type : String → String → Database → Option Database
apply_rename_type old new d = do
  values ← d.enums old
  if is_some (d.enums new)
      then none
      else some (record d {
        enums = override new (some values) (override old none d.enums);
        tables = map (map_columns (renamed old new)) d.tables;
      })

-- `ALTER TABLE n ALTER COLUMN c TYPE e USING c::text::e`: refused if a row holds a value that the
-- type has not.
unfoldable pub uncastable : List String → Option String → Bool
uncastable values none = false
uncastable values (some v) = not (contains values v)

unfoldable pub retyped : String → String → Column → Column
retyped c e k = record k { sql_type = if column_named c k then enumeration e else k.sql_type }

unfoldable pub apply_alter_column_type : String → String → String → Database → Option Database
apply_alter_column_type n c e d = do
  values ← d.enums e
  if not (any_row (λ t. table_named n t && has_column c t) d.tables)
        || any_row (λ r. uncastable values (value_of c r)) (d.rows n)
      then none
      else some (record d { tables = alter_table n (map_columns (retyped c e)) d.tables })
