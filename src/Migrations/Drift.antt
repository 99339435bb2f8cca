-- ===== src/Migrations/Drift.antt =====
-- The schema that the migrations build beside the schema that the models declare
-- (backend/alembic/versions, backend/app/models, backend/app/jobs/models.py).
use counselready.Common.{
  String, Bool, true, false, not, ◌&&◌, Option, none, some, List, [], ◌∷◌, ◌++◌, map, leb,
}
use counselready.Common.Table.{any_row}
use package.text.Mathlib.Text.{◌==◌}
use counselready.Migrations.Schema.{
  ColumnType, uuid, boolean, integer, big_integer, float, text, string, large_binary, json_b,
  timestamp_tz, enumeration, Column, OnDelete, cascade, set_null, Constraint, foreign_key, check,
  primary_key, unique, Table, Index, Enum, Database,
}
use counselready.Migrations.Metadata.Model.{Model, table_of, indexes_of}
use counselready.Migrations.Metadata.Accounts.{accounts_models, accounts_types}
use counselready.Migrations.Metadata.Cases.{cases_models, cases_types}
use counselready.Migrations.Metadata.Timeline.{timeline_models, timeline_types}

abbrev pub all_models : List Model
all_models = accounts_models ++ (cases_models ++ timeline_models)

abbrev pub all_types : List Enum
all_types = accounts_types ++ (cases_types ++ timeline_types)

-- A schema without its rows.
abbrev pub declared_tables : List Table
declared_tables = map table_of all_models

unfoldable pub indexes_of_all : List Model → List Index
indexes_of_all [] = []
indexes_of_all (m ∷ ms) = indexes_of m ++ indexes_of_all ms

-- Equality of what a schema is made of; the order of columns and of constraints does not count, the
-- order of an index's columns does.
unfoldable pub same_names : List String → List String → Bool
same_names [] [] = true
same_names (m ∷ ms) (n ∷ ns) = (m == n) && same_names ms ns
same_names ms ns = false

unfoldable pub same_type : ColumnType → ColumnType → Bool
same_type uuid uuid = true
same_type boolean boolean = true
same_type integer integer = true
same_type big_integer big_integer = true
same_type float float = true
same_type text text = true
same_type (string m) (string n) = leb m n && leb n m
same_type large_binary large_binary = true
same_type json_b json_b = true
same_type timestamp_tz timestamp_tz = true
same_type (enumeration m) (enumeration n) = m == n
same_type s t = false

unfoldable pub same_default : Option String → Option String → Bool
same_default none none = true
same_default (some m) (some n) = m == n
same_default m n = false

unfoldable pub same_flag : Bool → Bool → Bool
same_flag true b = b
same_flag false b = not b

unfoldable pub same_column : Column → Column → Bool
same_column c k =
    (c.name == k.name)
    && same_type c.sql_type k.sql_type
    && same_flag c.nullable k.nullable
    && same_default c.server_default k.server_default

unfoldable pub same_rule : OnDelete → OnDelete → Bool
same_rule cascade cascade = true
same_rule set_null set_null = true
same_rule r s = false

unfoldable pub same_constraint : Constraint → Constraint → Bool
same_constraint (foreign_key m f) (foreign_key n g) =
    (m == n)
    && same_names f.columns g.columns
    && (f.target == g.target)
    && same_names f.target_columns g.target_columns
    && same_rule f.ondelete g.ondelete
same_constraint (check m s) (check n t) = (m == n) && (s == t)
same_constraint (primary_key m cs) (primary_key n ds) = (m == n) && same_names cs ds
same_constraint (unique m cs) (unique n ds) = (m == n) && same_names cs ds
same_constraint c d = false

unfoldable pub same_index : Index → Index → Bool
same_index i j =
    (i.name == j.name)
    && (i.table == j.table)
    && same_names i.columns j.columns
    && same_flag i.is_unique j.is_unique

-- Every entry of the first list is among the second.
unfoldable pub included : {A : Type 0} → (A → A → Bool) → List A → List A → Bool
included same xs ys = not (any_row (λ x. not (any_row (same x) ys)) xs)

-- The same entries in some order.
unfoldable pub same_entries : {A : Type 0} → (A → A → Bool) → List A → List A → Bool
same_entries same xs ys = included same xs ys && included same ys xs

unfoldable pub same_table : Table → Table → Bool
same_table t u =
    (t.name == u.name)
    && same_entries same_column t.columns u.columns
    && same_entries same_constraint t.constraints u.constraints

-- An enum type has its values in their order.
unfoldable pub has_values : Enum → Option (List String) → Bool
has_values e none = false
has_values e (some values) = same_names e.values values

unfoldable pub matches_models : Option Database → Bool
matches_models none = false
matches_models (some d) =
    same_entries same_table d.tables declared_tables
    && same_entries same_index d.indexes (indexes_of_all all_models)
    && not (any_row (λ e. not (has_values e (d.enums e.name))) all_types)
