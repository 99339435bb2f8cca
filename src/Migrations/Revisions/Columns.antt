-- ===== src/Migrations/Revisions/Columns.antt =====
-- The arguments that the migrations (backend/alembic/versions) repeat, under a name each.
use counselready.Common.{String, true, false, none, some, List, [], ◌∷◌}
use counselready.Migrations.Schema.{
  ColumnType, uuid, timestamp_tz, Column, OnDelete, Constraint, foreign_key,
}
use counselready.Migrations.Operations.{Op, create_index}

abbrev pub required : String → ColumnType → Column
required n t = record { name = n; sql_type = t; nullable = false; server_default = none }

abbrev pub optional : String → ColumnType → Column
optional n t = record { name = n; sql_type = t; nullable = true; server_default = none }

abbrev pub stamped : String → Column
stamped n = record {
  name = n;
  sql_type = timestamp_tz;
  nullable = false;
  server_default = some "now()";
}

abbrev pub id_and_timestamps : List Column
id_and_timestamps = (required "id" uuid) ∷ (stamped "created_at") ∷ (stamped "updated_at") ∷ []

-- A foreign key of one column to the `id` of a table.
abbrev pub reference : String → String → String → OnDelete → Constraint
reference n c t action =
    foreign_key n
      (record { columns = c ∷ []; target = t; target_columns = "id" ∷ []; ondelete = action })

abbrev pub plain_index : String → String → List String → Op
plain_index n t cs = create_index (record { name = n; table = t; columns = cs; is_unique = false })

abbrev pub unique_index : String → String → List String → Op
unique_index n t cs = create_index (record { name = n; table = t; columns = cs; is_unique = true })
