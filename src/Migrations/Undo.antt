-- ===== src/Migrations/Undo.antt =====
-- The operation that takes back an addition to the schema (backend/alembic/versions).
use counselready.Common.{◌≡◌, refl, arith, String, true, false, Option, none, some, List, []}
use mathlib.Core.Path.{fun_ext}
use counselready.Common.Table.{any_row, delete_rows}
use text.Mathlib.TextEquality.{eq_iff}
use text.Mathlib.TextPositions.{eq_refl}
use counselready.Migrations.Schema.{ColumnType, enumeration, Table, Index, Enum, Database}
use counselready.Migrations.Operations.{
  override, taken, has_table, table_named, index_named, index_on, untyped, uses_type, typed,
  type_undefined, is_enumeration,
}
use counselready.Migrations.Apply.{
  apply_create_enum, apply_drop_enum, apply_drop_type, apply_create_table, apply_drop_table,
  apply_create_index, apply_drop_index, define_type, forget_type, is_used, referred,
}
use counselready.Migrations.WellFormed.{
  any_row_mono, none_indexed, IsWellFormed, any_row_implies, delete_rows-none, none_referred,
}

pub override_here {ℓ} : {A : Type ℓ} (n : String) (v : A) (f : String → A) → override n v f n ≡ v
unfolding override
override_here n v f = rw (eq_refl n) refl

-- A value put back over another.
pub override_back {ℓ} :
    {A : Type ℓ} (n : String) (v w : A) (f : String → A)
    → f n ≡ w
    → override n w (override n v f) ≡ f
unfolding override
override_back n v w f h = fun_ext (λ m. ground (arith, eq_iff n m))

undefined_untyped :
    (n : String) (enums : String → Option (List String)) (t : ColumnType)
    → enums n ≡ none
    → is_enumeration n t ≡ true
    → type_undefined enums t ≡ true
unfolding is_enumeration type_undefined
undefined_untyped n enums (enumeration m) h k = let e : m ≡ n = (eq_iff m n).0 k in rw (e, h) refl
undefined_untyped n enums other h k = ground arith

pub unused_type :
    (n : String) (enums : String → Option (List String)) (ts : List Table)
    → enums n ≡ none
    → any_row (λ t. any_row (untyped enums) t.columns) ts ≡ false
    → any_row (uses_type n) ts ≡ false
unfolding uses_type typed untyped
unused_type n enums ts h =
    any_row_implies (uses_type n) (λ t. any_row (untyped enums) t.columns) ts
      (λ t.
        any_row_mono (typed n) (untyped enums) t.columns
          (λ c. undefined_untyped n enums c.sql_type h))

pub undo_create_enum :
    (e : Enum) (d after : Database)
    → IsWellFormed d
    → d.enums e.name ≡ none
    → apply_create_enum e d ≡ some after
    → apply_drop_enum e.name after ≡ some d
unfolding apply_create_enum apply_drop_enum apply_drop_type define_type forget_type is_used
undo_create_enum e d after wf new h = ground (
  arith,
  unused_type e.name d.enums d.tables new wf.types_defined,
  override_here e.name (some e.values) d.enums,
  override_back e.name (some e.values) none d.enums new,
)

pub undo_create_index :
    (i : Index) (d after : Database)
    → apply_create_index i d ≡ some after
    → apply_drop_index i.name i.table after ≡ some d
unfolding apply_create_index apply_drop_index taken any_row delete_rows index_named
undo_create_index i d after h =
    ground (arith, eq_refl i.name, delete_rows-none (index_named i.name) d.indexes)

pub undo_create_table :
    (t : Table) (d after : Database)
    → IsWellFormed d
    → apply_create_table t d ≡ some after
    → apply_drop_table t.name after ≡ some d
unfolding apply_create_table apply_drop_table taken has_table referred any_row delete_rows
    table_named
undo_create_table t d after wf h = ground (
  arith,
  eq_refl t.name,
  delete_rows-none (table_named t.name) d.tables,
  none_referred t.name d.tables d.tables,
  wf.rows_stand t.name,
  override_back t.name [] [] d.rows,
  none_indexed t.name d.tables d.indexes,
  delete_rows-none (index_on t.name) d.indexes,
)
