-- ===== src/Migrations/Schema.antt =====
-- The vocabulary of the migrations (backend/alembic/versions): `sa.Column`, the constraints, tables,
-- indexes and enum types, and a PostgreSQL database as what they are declared on.
use counselready.Common.{ℕ, String, Bool, Option, List}

-- The column types that the migrations name.
pub data ColumnType : Type 0 where
  uuid : ColumnType
  boolean : ColumnType
  integer : ColumnType
  big_integer : ColumnType
  float : ColumnType
  text : ColumnType
  string : ℕ → ColumnType
  large_binary : ColumnType
  json_b : ColumnType
  timestamp_tz : ColumnType
  enumeration : String → ColumnType

pub record Column : Type 0 where
  pub name : String
  pub sql_type : ColumnType
  pub nullable : Bool
  pub server_default : Option String

pub data OnDelete : Type 0 where
  cascade : OnDelete
  set_null : OnDelete

pub record ForeignKey : Type 0 where
  pub columns : List String
  pub target : String
  pub target_columns : List String
  pub ondelete : OnDelete

pub data Constraint : Type 0 where
  foreign_key : String → ForeignKey → Constraint
  check : String → String → Constraint
  primary_key : String → List String → Constraint
  unique : String → List String → Constraint

pub record Table : Type 0 where
  pub name : String
  pub columns : List Column
  pub constraints : List Constraint

pub record Index : Type 0 where
  pub name : String
  pub table : String
  pub columns : List String
  pub is_unique : Bool

pub record Enum : Type 0 where
  pub name : String
  pub values : List String

-- A row gives the columns it holds their values, each as the text that a cast `::text` prints, or
-- NULL.
abbrev pub Row : Type 0
Row = List (String × Option String)

pub record Database : Type 0 where
  pub enums : String → Option (List String)
  pub tables : List Table
  pub indexes : List Index
  pub rows : String → List Row
