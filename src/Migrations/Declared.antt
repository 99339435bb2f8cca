-- ===== src/Migrations/Declared.antt =====
-- The tables, indexes and enum types after all migrations, and those that the models declare
-- (backend/alembic/versions, backend/app/models, backend/app/jobs/models.py).
use counselready.Common.{
  ◌≡◌, refl, sym, subst, arith, ◌⊎◌, inl, inr, String, Bool, true, false, not, Option, none, some,
  List, [], ◌∷◌, Bool-cases, Option-cases,
}
use counselready.Common.Table.{any_row}
use package.text.Mathlib.TextEquality.{eq_iff}
use counselready.Migrations.Schema.{
  ColumnType, uuid, boolean, integer, big_integer, float, text, string, large_binary, json_b,
  timestamp_tz, enumeration, Column, OnDelete, Constraint, foreign_key, check, primary_key, unique,
  Table, Index, Enum, Database,
}
use counselready.Migrations.Drift.{
  included, same_entries, same_names, same_type, same_default, same_flag, same_column, same_rule,
  same_constraint, same_index, same_table, has_values, declared_tables, indexes_of_all, all_models,
  all_types, matches_models,
}
use counselready.Migrations.Operations.{
  contains, override, table_named, has_table, index_named, column_named, has_column, keeps_index,
  taken, clashes, dangling, is_enumeration, typed, type_undefined, untyped, misses, misplaced,
}
use counselready.Migrations.Apply.{
  define_type, apply_create_type, apply_create_enum, insert_after, placed, apply_add_value,
  apply_create_table, covers, apply_create_index, alter_table, no_rows, append_column, with_column,
  apply_add_column,
}
use counselready.Migrations.Run.{apply, run}
use counselready.Migrations.Chain.{migrate, base, revisions}
use counselready.Migrations.Metadata.Model.{
  columns_of, key_of, keys_of, clauses_of, table_of, column_indexes, named_indexes, indexes_of,
}
use counselready.Migrations.Metadata.Names.{joined}

abbrev pub Has : {A : Type 0} → A → List A → Type 0
Has a [] = ⊥
Has a (x ∷ xs) = (a ≡ x) ⊎ Has a xs

-- Each entry of one list is related to an entry of the other.
abbrev pub Matched : {A : Type 0} → (A → A → Type 0) → List A → List A → Type 0
Matched R xs ys = (x : _) → Has x xs → (y : _) × Has y ys × R x y

names_sound : (ms ns : List String) → same_names ms ns ≡ true → ms ≡ ns
unfolding same_names
names_sound [] [] h = refl
names_sound [] (n ∷ ns) h = ground arith
names_sound (m ∷ ms) [] h = ground arith
names_sound (m ∷ ms) (n ∷ ns) h = ground (arith, eq_iff m n, names_sound ms ns)

type_sound : (s t : ColumnType) → same_type s t ≡ true → s ≡ t
unfolding same_type
type_sound uuid t h = ground arith
type_sound boolean t h = ground arith
type_sound integer t h = ground arith
type_sound big_integer t h = ground arith
type_sound float t h = ground arith
type_sound text t h = ground arith
type_sound (string m) (string n) h = ground arith
type_sound (string m) t h = ground arith
type_sound large_binary t h = ground arith
type_sound json_b t h = ground arith
type_sound timestamp_tz t h = ground arith
type_sound (enumeration m) (enumeration n) h = ground (arith, eq_iff m n)
type_sound (enumeration m) t h = ground arith

default_sound : (m n : Option String) → same_default m n ≡ true → m ≡ n
unfolding same_default
default_sound none none h = refl
default_sound none (some n) h = ground arith
default_sound (some m) none h = ground arith
default_sound (some m) (some n) h = ground (arith, eq_iff m n)

flag_sound : (b c : Bool) → same_flag b c ≡ true → b ≡ c
unfolding same_flag
flag_sound b c h = ground arith

column_sound : (c k : Column) → same_column c k ≡ true → c ≡ k
unfolding same_column
column_sound c k h = ground (
  arith,
  eq_iff c.name k.name,
  type_sound c.sql_type k.sql_type,
  flag_sound c.nullable k.nullable,
  default_sound c.server_default k.server_default,
)

rule_sound : (r s : OnDelete) → same_rule r s ≡ true → r ≡ s
unfolding same_rule
rule_sound r s h = ground arith

constraint_sound : (c d : Constraint) → same_constraint c d ≡ true → c ≡ d
unfolding same_constraint
constraint_sound (foreign_key m f) (foreign_key n g) h = ground (
  arith,
  eq_iff m n,
  names_sound f.columns g.columns,
  eq_iff f.target g.target,
  names_sound f.target_columns g.target_columns,
  rule_sound f.ondelete g.ondelete,
)
constraint_sound (check m s) (check n t) h = ground (arith, eq_iff m n, eq_iff s t)
constraint_sound (primary_key m cs) (primary_key n ds) h =
    ground (arith, eq_iff m n, names_sound cs ds)
constraint_sound (unique m cs) (unique n ds) h = ground (arith, eq_iff m n, names_sound cs ds)
constraint_sound (foreign_key m f) d h = ground arith
constraint_sound (check m s) d h = ground arith
constraint_sound (primary_key m cs) d h = ground arith
constraint_sound (unique m cs) d h = ground arith

index_sound : (i j : Index) → same_index i j ≡ true → i ≡ j
unfolding same_index
index_sound i j h = ground (
  arith,
  eq_iff i.name j.name,
  eq_iff i.table j.table,
  names_sound i.columns j.columns,
  flag_sound i.is_unique j.is_unique,
)

module _ {A : Type 0} (same : A → A → Bool) (R : A → A → Type 0)
    (sound : (x y : A) → same x y ≡ true → R x y) where
  found_related : (x : A) (ys : List A) → any_row (same x) ys ≡ true → (y : A) × Has y ys × R x y
  unfolding any_row
  found_related x [] h = absurd (cc)
  found_related x (y ∷ ys) h = elim (Bool-cases (same x y)) [
    | inl e ↦ (y, inl refl, sound x y e)
    | inr e ↦ let (z, there, r) = found_related x ys (ground (arith, e)) in (z, inr there, r)
  ]

  all_related :
      (xs ys : List A) → any_row (λ x. not (any_row (same x) ys)) xs ≡ false → Matched R xs ys
  unfolding any_row
  all_related [] ys h x there = absurd there
  all_related (z ∷ xs) ys h x (inl e) =
      subst (λ w. (y : A) × Has y ys × R w y) (sym e) (found_related z ys (ground arith))
  all_related (z ∷ xs) ys h x (inr there) = all_related xs ys (ground arith) x there

  entries_related :
      (xs ys : List A) → same_entries same xs ys ≡ true → Matched R xs ys × Matched R ys xs
  unfolding same_entries included
  entries_related xs ys h = (all_related xs ys (ground arith), all_related ys xs (ground arith))

-- The two lists have the same entries.
abbrev pub SameEntries : {A : Type 0} → List A → List A → Type 0
SameEntries xs ys = Matched (λ x y. x ≡ y) xs ys × Matched (λ x y. x ≡ y) ys xs

-- Two tables of one name with the same columns and the same constraints, in any order.
abbrev pub Alike : Table → Table → Type 0
Alike t u =
    (t.name ≡ u.name) × SameEntries t.columns u.columns × SameEntries t.constraints u.constraints

table_sound : (t u : Table) → same_table t u ≡ true → Alike t u
unfolding same_table
table_sound t u h = (
  (eq_iff t.name u.name).0 (ground arith),
  entries_related same_column (λ c k. c ≡ k) column_sound t.columns u.columns (ground arith),
  entries_related same_constraint (λ c k. c ≡ k) constraint_sound t.constraints u.constraints
      (ground arith),
)

values_sound : (e : Enum) (o : Option (List String)) → has_values e o ≡ true → o ≡ some e.values
unfolding has_values
values_sound e none h = ground arith
values_sound e (some values) h = ground (arith, names_sound e.values values)

types_sound :
    (es : List Enum) (enums : String → Option (List String))
    → any_row (λ e. not (has_values e (enums e.name))) es ≡ false
    → (e : Enum) → Has e es
    → enums e.name ≡ some e.values
unfolding any_row
types_sound [] enums h e there = absurd there
types_sound (f ∷ es) enums h e (inl p) =
    subst (λ g. enums g.name ≡ some g.values) (sym p) (values_sound f (enums f.name) (ground arith))
types_sound (f ∷ es) enums h e (inr there) = types_sound es enums (ground arith) e there

-- What the models declare, and no other table or index.
abbrev pub IsFaithful : Database → Type 0
IsFaithful d =
    Matched Alike d.tables declared_tables
    × Matched Alike declared_tables d.tables
    × SameEntries d.indexes (indexes_of_all all_models)
    × ((e : Enum) → Has e all_types → d.enums e.name ≡ some e.values)

declared_sound : (d : Database) → matches_models (some d) ≡ true → IsFaithful d
unfolding matches_models
declared_sound d h =
    let tables =
      entries_related same_table Alike table_sound d.tables declared_tables (ground arith) in
    (
      tables.0,
      tables.1,
      entries_related same_index (λ i j. i ≡ j) index_sound d.indexes (indexes_of_all all_models)
          (ground arith),
      types_sound all_types d.enums (ground arith),
    )

matches_at_head : matches_models (migrate revisions base) ≡ true
unfolding any_row contains override table_named has_table index_named column_named has_column
    keeps_index taken clashes dangling is_enumeration typed type_undefined untyped misses misplaced
    define_type apply_create_type apply_create_enum insert_after placed apply_add_value
    apply_create_table covers apply_create_index alter_table no_rows append_column with_column
    apply_add_column apply run migrate indexes_of_all same_names same_type same_default same_flag
    same_column same_rule same_constraint same_index included same_entries same_table has_values
    matches_models columns_of key_of keys_of clauses_of table_of column_indexes named_indexes
    indexes_of joined
matches_at_head = refl

unmatched : matches_models none ≡ true → ⊥
unfolding matches_models
unmatched h = ground arith

-- The upgrade of an empty database through all revisions succeeds. Each table it leaves has the
-- name, the columns and the constraints of a table that the models declare and the reverse, its
-- indexes are those the models declare, and each enum type of the models has its values in the
-- models' order.
pub migrated_schema_declared : (d : Database) × (migrate revisions base ≡ some d) × IsFaithful d
migrated_schema_declared = elim (Option-cases (migrate revisions base)) [
  | inl e ↦ absurd (unmatched (subst (λ o. matches_models o ≡ true) e matches_at_head))
  | inr (d, e) ↦ (d, e, declared_sound d (subst (λ o. matches_models o ≡ true) e matches_at_head))
]
