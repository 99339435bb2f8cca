-- ===== src/Migrations/Run.antt =====
-- One migration as the list of its operations (backend/alembic/versions).
use counselready.Common.{Option, some, List, [], ◌∷◌}
use counselready.Migrations.Schema.{Database}
use counselready.Migrations.Operations.{
  Op, create_enum, drop_enum, add_value, create_table, drop_table, create_index, drop_index,
  add_column, drop_column, update_where, delete_where, rename_type, create_type, alter_column_type,
  drop_type, ◌>>=◌,
}
use counselready.Migrations.Apply.{
  apply_create_type, apply_create_enum, apply_drop_type, apply_drop_enum, apply_add_value,
  apply_create_table, apply_drop_table, apply_create_index, apply_drop_index, apply_add_column,
  apply_drop_column, apply_update, apply_delete,
}
use counselready.Migrations.Recast.{apply_rename_type, apply_alter_column_type}

unfoldable pub apply : Op → Database → Option Database
apply (create_enum e) = apply_create_enum e
apply (drop_enum n) = apply_drop_enum n
apply (add_value n v after) = apply_add_value n v after
apply (create_table t) = apply_create_table t
apply (drop_table n) = apply_drop_table n
apply (create_index i) = apply_create_index i
apply (drop_index n t) = apply_drop_index n t
apply (add_column n c) = apply_add_column n c
apply (drop_column n c) = apply_drop_column n c
apply (update_where n c new old) = apply_update n c new old
apply (delete_where n c values) = apply_delete n c values
apply (rename_type old new) = apply_rename_type old new
apply (create_type n values) = apply_create_type n values
apply (alter_column_type n c e) = apply_alter_column_type n c e
apply (drop_type n) = apply_drop_type n

-- The operations of one migration, in its transaction: the first that is refused undoes it.
unfoldable pub run : List Op → Database → Option Database
run [] d = some d
run (o ∷ os) d = do after ← apply o d; run os after
