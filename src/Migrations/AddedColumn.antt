-- ===== src/Migrations/AddedColumn.antt =====
-- `op.drop_column` after `op.add_column` (backend/alembic/versions: 6d9928f10001).
use counselready.Common.{
  ◌≡◌, refl, sym, subst, arith, String, true, false, not, ◌&&◌, Option, some, List, [], ◌∷◌, ◌++◌,
  map, Bool-cases, inl, inr,
}
use counselready.Common.Table.{any_row, delete_rows}
use text.Mathlib.Text.{◌==◌}
use text.Mathlib.TextEquality.{eq_iff}
use text.Mathlib.TextPositions.{eq_refl}
use counselready.Migrations.Schema.{
  Constraint, foreign_key, check, primary_key, unique, Column, Table, Index, Row, Database,
}
use counselready.Migrations.Operations.{
  misses, misplaced, contains, has_table, table_named, index_on, has_column, column_named,
  on_column,
}
use counselready.Migrations.Apply.{
  with_column, apply_add_column, apply_drop_column, append_column, remove_column, forget_value,
  alter_table, covers,
}
use counselready.Migrations.WellFormed.{IsWellFormed, any_row_implies, delete_rows-none}
use counselready.Migrations.Undo.{override_here, override_back}

-- The columns with one more at the end, and that one taken away.
columns_back :
    (c : Column) (cs : List Column)
    → any_row (column_named c.name) cs ≡ false
    → delete_rows (column_named c.name) (cs ++ (c ∷ [])) ≡ cs
unfolding any_row delete_rows column_named
columns_back c [] h = ground (arith, eq_refl c.name)
columns_back c (k ∷ cs) h = ground (arith, columns_back c cs)

-- A column that is among some names of a table is a column of the table.
contains-misses :
    (c : String) (cs : List String) (t : Table)
    → has_column c t ≡ false
    → contains cs c ≡ true
    → misses cs t ≡ true
unfolding contains misses any_row
contains-misses c [] t h k = k
contains-misses c (m ∷ cs) t h k = elim (Bool-cases (m == c)) [
  | inl e ↦
      let same : m ≡ c = (eq_iff m c).0 e in
      let gone = subst (λ x. has_column x t ≡ false) (sym same) h in rw gone refl
  | inr e ↦ ground (arith, contains-misses c cs t)
]

on_column-misplaced :
    (c : String) (t : Table) (k : Constraint)
    → has_column c t ≡ false
    → on_column c k ≡ true
    → misplaced t k ≡ true
unfolding on_column misplaced
on_column-misplaced c t (foreign_key n k) h = contains-misses c k.columns t h
on_column-misplaced c t (check n e) h = λ k. k
on_column-misplaced c t (primary_key n cs) h = contains-misses c cs t h
on_column-misplaced c t (unique n cs) h = contains-misses c cs t h

table_back :
    (c : Column) (t : Table)
    → has_column c.name t ≡ false
    → any_row (misplaced t) t.constraints ≡ false
    → remove_column c.name (append_column c t) ≡ t
unfolding remove_column append_column has_column
table_back c t h own = ground (
  arith,
  columns_back c t.columns h,
  delete_rows-none (on_column c.name) t.constraints (
      any_row_implies (on_column c.name) (misplaced t) t.constraints
        (λ k. on_column-misplaced c.name t k h) own),
)

tables_back :
    (n : String) (c : Column) (ts : List Table)
    → any_row (λ t. table_named n t && has_column c.name t) ts ≡ false
    → any_row (λ t. any_row (misplaced t) t.constraints) ts ≡ false
    → alter_table n (remove_column c.name) (alter_table n (append_column c) ts) ≡ ts
unfolding alter_table any_row append_column table_named
tables_back n c [] h own = refl
tables_back n c (t ∷ ts) h own = ground (arith, table_back c t, tables_back n c ts)

any_row-last :
    (c : Column) (cs : List Column) → any_row (column_named c.name) (cs ++ (c ∷ [])) ≡ true
unfolding any_row column_named
any_row-last c [] = rw (eq_refl c.name) refl
any_row-last c (k ∷ cs) = ground (arith, any_row-last c cs)

appended_there : (c : Column) (t : Table) → has_column c.name (append_column c t) ≡ true
unfolding has_column append_column
appended_there c t = any_row-last c t.columns

has_added :
    (n : String) (c : Column) (ts : List Table)
    → any_row (table_named n) ts ≡ true
    → any_row (λ t. table_named n t && has_column c.name t) (alter_table n (append_column c) ts)
      ≡ true
unfolding alter_table any_row append_column table_named
has_added n c [] h = h
has_added n c (t ∷ ts) h = ground (arith, appended_there c t, has_added n c ts)

rows_back :
    (n : String) (v : Option String) (rs : List Row)
    → map (forget_value n) (map (λ r. (n, v) ∷ r) rs) ≡ rs
unfolding forget_value
rows_back n v [] = refl
rows_back n v (r ∷ rs) = rw (rows_back n v rs, eq_refl n) refl

uncovered :
    (n c : String) (ts : List Table) (i : Index)
    → any_row (λ t. table_named n t && has_column c t) ts ≡ false
    → (index_on n i && contains i.columns c) ≡ true
    → not (any_row (covers i) ts) ≡ true
unfolding covers index_on table_named any_row misses
uncovered n c [] i h k = refl
uncovered n c (t ∷ ts) i h k =
    ground (arith, eq_iff i.table n, uncovered n c ts i, contains-misses c i.columns t)

undo_with_column :
    (n : String) (c : Column) (d : Database)
    → IsWellFormed d
    → has_table d n ≡ true
    → any_row (λ t. table_named n t && has_column c.name t) d.tables ≡ false
    → apply_drop_column n c.name (with_column n c d) ≡ some d
unfolding apply_drop_column with_column has_table
undo_with_column n c d wf there free =
    let here = override_here n (map (λ r. (c.name, c.server_default) ∷ r) (d.rows n)) d.rows in
    let back =
      override_back n (map (λ r. (c.name, c.server_default) ∷ r) (d.rows n)) (d.rows n) d.rows
        refl in
    let indexes =
      delete_rows-none (λ i. index_on n i && contains i.columns c.name) d.indexes
        (any_row_implies (λ i. index_on n i && contains i.columns c.name)
          (λ i. not (any_row (covers i) d.tables)) d.indexes
          (λ i. uncovered n c.name d.tables i free) wf.indexes_stand) in
    rw
      (
        has_added n c d.tables there,
        tables_back n c d.tables free wf.keys_own,
        indexes,
        here,
        rows_back c.name c.server_default (d.rows n),
        back,
      )
      refl

pub undo_add_column :
    (n : String) (c : Column) (d after : Database)
    → IsWellFormed d
    → apply_add_column n c d ≡ some after
    → apply_drop_column n c.name after ≡ some d
unfolding apply_add_column with_column
undo_add_column n c d after wf h = ground (arith, undo_with_column n c d wf)
