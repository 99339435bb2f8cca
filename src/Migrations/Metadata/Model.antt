-- ===== src/Migrations/Metadata/Model.antt =====
-- What the models declare: the mapped columns and table arguments of a class, `TimestampedBase` and the
-- naming convention of backend/app/db/base.py, and the table and indexes that they come to.
use counselready.Common.{
  String, Bool, false, Option, none, some, List, [], ◌∷◌, ◌++◌, map, if◌then◌else◌,
}
use counselready.Migrations.Metadata.Names.{joined}
use counselready.Migrations.Schema.{
  ColumnType, uuid, timestamp_tz, Column, OnDelete, Constraint, foreign_key, check, primary_key,
  unique, Table, Index,
}

-- `name: Mapped[...] = mapped_column(...)`, with the table and the rule of its `ForeignKey`, whose
-- column is always `id`.
pub record Attribute : Type 0 where
  pub name : String
  pub sql_type : ColumnType
  pub nullable : Bool
  pub references : Option (String × OnDelete)
  pub index : Bool
  pub is_unique : Bool

-- An entry of `__table_args__`.
pub data Argument : Type 0 where
  unique_columns : List String → Argument
  check_clause : String → String → Argument
  named_index : String → List String → Bool → Argument

pub record Model : Type 0 where
  pub tablename : String
  pub attributes : List Attribute
  pub table_args : List Argument

-- The columns of `TimestampedBase`.
abbrev pub timestamped_base : List Column
timestamped_base =
    record { name = "id"; sql_type = uuid; nullable = false; server_default = none }
    ∷ record {
      name = "created_at";
      sql_type = timestamp_tz;
      nullable = false;
      server_default = some "now()";
    }
    ∷ record {
      name = "updated_at";
      sql_type = timestamp_tz;
      nullable = false;
      server_default = some "now()";
    }
    ∷ []

unfoldable pub columns_of : Model → List Column
columns_of m =
    timestamped_base
    ++ map
        (λ (a : Attribute). record {
          name = a.name;
          sql_type = a.sql_type;
          nullable = a.nullable;
          server_default = none;
        })
        m.attributes

unfoldable pub key_of : String → Attribute → Option (String × OnDelete) → List Constraint
key_of t a none = []
key_of t a (some (target, rule)) =
    foreign_key (joined "fk" (t ∷ a.name ∷ target ∷ [])) (record {
      columns = a.name ∷ [];
      target = target;
      target_columns = "id" ∷ [];
      ondelete = rule;
    })
    ∷ []

unfoldable pub keys_of : String → List Attribute → List Constraint
keys_of t [] = []
keys_of t (a ∷ attributes) =
    key_of t a a.references
    ++ ((if a.is_unique then unique (joined "uq" (t ∷ a.name ∷ [])) (a.name ∷ []) ∷ [] else [])
        ++ keys_of t attributes)

unfoldable pub clauses_of : String → List Argument → List Constraint
clauses_of t [] = []
clauses_of t (unique_columns cs ∷ args) = unique (joined "uq" (t ∷ cs)) cs ∷ clauses_of t args
clauses_of t (check_clause n sql ∷ args) = check (joined "ck" (t ∷ n ∷ [])) sql ∷ clauses_of t args
clauses_of t (named_index n cs u ∷ args) = clauses_of t args

unfoldable pub table_of : Model → Table
table_of m = record {
  name = m.tablename;
  columns = columns_of m;
  constraints =
      primary_key (joined "pk" (m.tablename ∷ [])) ("id" ∷ [])
      ∷ (keys_of m.tablename m.attributes ++ clauses_of m.tablename m.table_args);
}

unfoldable pub column_indexes : String → List Attribute → List Index
column_indexes t [] = []
column_indexes t (a ∷ attributes) =
    (if a.index
      then record {
        name = joined "ix" (t ∷ a.name ∷ []);
        table = t;
        columns = a.name ∷ [];
        is_unique = false;
      }
        ∷ []
      else [])
    ++ column_indexes t attributes

unfoldable pub named_indexes : String → List Argument → List Index
named_indexes t [] = []
named_indexes t (named_index n cs u ∷ args) =
    record { name = n; table = t; columns = cs; is_unique = u } ∷ named_indexes t args
named_indexes t (a ∷ args) = named_indexes t args

unfoldable pub indexes_of : Model → List Index
indexes_of m = column_indexes m.tablename m.attributes ++ named_indexes m.tablename m.table_args

-- A column without options, and one with a foreign key.
abbrev pub plain : String → ColumnType → Bool → Attribute
plain n t nullable = record {
  name = n;
  sql_type = t;
  nullable = nullable;
  references = none;
  index = false;
  is_unique = false;
}

abbrev pub reference : String → Bool → String × OnDelete → Bool → Attribute
reference n nullable target index = record {
  name = n;
  sql_type = uuid;
  nullable = nullable;
  references = some target;
  index = index;
  is_unique = false;
}
