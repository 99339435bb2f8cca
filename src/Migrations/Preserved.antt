-- ===== src/Migrations/Preserved.antt =====
-- Additions to a well-formed schema (backend/alembic/versions).
use counselready.Common.{
  is_some, Bool-cases, inl, inr, subst, is_some, Bool-cases, inl, inr, subst, ◌≡◌, arith, String,
  true, false, not, ◌||◌, Option, some, List, [], ◌∷◌,
}
use counselready.Common.Table.{any_row}
use counselready.Migrations.Schema.{
  ColumnType, enumeration, Constraint, foreign_key, check, primary_key, unique, Table, Index, Enum,
  Database,
}
use counselready.Migrations.Operations.{
  override, has_table, dangling, untyped, type_undefined, misplaced,
}
use counselready.Migrations.Apply.{
  apply_create_enum, apply_create_table, apply_create_index, define_type, covers,
}
use counselready.Migrations.WellFormed.{IsWellFormed, any_row_implies, any_row_mono}

defined_still :
    (n : String) (values : List String) (enums : String → Option (List String)) (t : ColumnType)
    → type_undefined (override n (some values) enums) t ≡ true
    → type_undefined enums t ≡ true
unfolding type_undefined override
defined_still n values enums (enumeration m) h = ground arith
defined_still n values enums other h = h

-- A type more.
pub define_type-IsWellFormed :
    (n : String) (values : List String) (d : Database)
    → IsWellFormed d
    → IsWellFormed (define_type n values d)
unfolding define_type untyped has_table
define_type-IsWellFormed n values d wf = record {
  keys_lead = wf.keys_lead;
  keys_own = wf.keys_own;
  types_defined =
      any_row_implies (λ t. any_row (untyped (override n (some values) d.enums)) t.columns)
        (λ t. any_row (untyped d.enums) t.columns) d.tables
        (λ t.
          any_row_mono (untyped (override n (some values) d.enums)) (untyped d.enums) t.columns
            (λ c. defined_still n values d.enums c.sql_type))
        wf.types_defined;
  indexes_stand = wf.indexes_stand;
  rows_stand = wf.rows_stand;
}

pub moved : (d after : Database) → d ≡ after → IsWellFormed d → IsWellFormed after
moved d after e = subst IsWellFormed e

pub create_enum-IsWellFormed :
    (e : Enum) (d after : Database)
    → IsWellFormed d
    → apply_create_enum e d ≡ some after
    → IsWellFormed after
unfolding apply_create_enum
create_enum-IsWellFormed e d after wf h = elim (Bool-cases (is_some (d.enums e.name))) [
  | inl held ↦ moved d after (ground arith) wf
  | inr new ↦
      moved (define_type e.name e.values d) after (ground arith)
        (define_type-IsWellFormed e.name e.values d wf)
]

dangling-cons :
    (t : Table) (ts : List Table) (k : Constraint)
    → dangling (t ∷ ts) k ≡ true
    → dangling ts k ≡ true
unfolding dangling any_row
dangling-cons t ts (foreign_key n k) h = ground arith
dangling-cons t ts (check n e) h = h
dangling-cons t ts (primary_key n cs) h = h
dangling-cons t ts (unique n cs) h = h

with_table : Table → Database → Database
with_table t d = record d { tables = t ∷ d.tables; rows = override t.name [] d.rows }

with_table-IsWellFormed :
    (t : Table) (d : Database)
    → IsWellFormed d
    → any_row (untyped d.enums) t.columns ≡ false
    → any_row (dangling (t ∷ d.tables)) t.constraints ≡ false
    → any_row (misplaced t) t.constraints ≡ false
    → IsWellFormed (with_table t d)
unfolding with_table any_row has_table override
with_table-IsWellFormed t d wf typed leads own = record {
  keys_lead = rw leads (
      any_row_implies (λ u. any_row (dangling (t ∷ d.tables)) u.constraints)
        (λ u. any_row (dangling d.tables) u.constraints) d.tables
        (λ u.
          any_row_mono (dangling (t ∷ d.tables)) (dangling d.tables) u.constraints
            (dangling-cons t d.tables))
        wf.keys_lead);
  keys_own = rw own wf.keys_own;
  types_defined = rw typed wf.types_defined;
  indexes_stand =
      any_row_implies (λ i. not (covers i t || any_row (covers i) d.tables))
        (λ i. not (any_row (covers i) d.tables)) d.indexes (λ i h. ground arith) wf.indexes_stand;
  rows_stand = λ n h. ground (arith, wf.rows_stand n);
}

pub create_table-IsWellFormed :
    (t : Table) (d after : Database)
    → IsWellFormed d
    → apply_create_table t d ≡ some after
    → IsWellFormed after
unfolding apply_create_table with_table
create_table-IsWellFormed t d after wf h =
    let typed : any_row (untyped d.enums) t.columns ≡ false = ground arith in
    let leads : any_row (dangling (t ∷ d.tables)) t.constraints ≡ false = ground arith in
    let own : any_row (misplaced t) t.constraints ≡ false = ground arith in
    moved (with_table t d) after (ground arith) (with_table-IsWellFormed t d wf typed leads own)

pub create_index-IsWellFormed :
    (i : Index) (d after : Database)
    → IsWellFormed d
    → apply_create_index i d ≡ some after
    → IsWellFormed after
unfolding apply_create_index any_row has_table
create_index-IsWellFormed i d after wf h =
    let stands : any_row (covers i) d.tables ≡ true = ground arith in
    moved (record d { indexes = i ∷ d.indexes }) after (ground arith)
      (record {
        keys_lead = wf.keys_lead;
        keys_own = wf.keys_own;
        types_defined = wf.types_defined;
        indexes_stand = rw stands wf.indexes_stand;
        rows_stand = wf.rows_stand;
      })
