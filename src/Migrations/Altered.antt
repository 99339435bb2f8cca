-- ===== src/Migrations/Altered.antt =====
-- A column more on a table of a well-formed schema (backend/alembic/versions: 6d9928f10001).
use counselready.Common.{
  ◌≡◌, refl, arith, String, Bool, true, false, not, ◌||◌, Option, some, List, [], ◌∷◌, ◌++◌,
}
use counselready.Common.Table.{any_row}
use text.Mathlib.TextEquality.{eq_iff}
use counselready.Migrations.Schema.{
  Constraint, foreign_key, check, primary_key, unique, Column, Table, Index, Database,
}
use counselready.Migrations.Operations.{
  override, has_table, table_named, has_column, column_named, dangling, untyped, misses, misplaced,
}
use counselready.Migrations.Apply.{
  with_column, apply_add_column, covers, append_column, alter_table,
}
use counselready.Migrations.WellFormed.{IsWellFormed, any_row_implies, any_row_mono}
use counselready.Migrations.Preserved.{moved}

names_stay :
    (m n : String) (c : Column) (ts : List Table)
    → any_row (table_named m) (alter_table n (append_column c) ts) ≡ any_row (table_named m) ts
unfolding any_row alter_table append_column table_named
names_stay m n c [] = refl
names_stay m n c (t ∷ ts) = ground (arith, names_stay m n c ts)

dangling_same :
    (n : String) (c : Column) (ts : List Table) (k : Constraint)
    → dangling (alter_table n (append_column c) ts) k ≡ true
    → dangling ts k ≡ true
unfolding dangling
dangling_same n c ts (foreign_key m k) h = ground (arith, names_stay k.target n c ts)
dangling_same n c ts (check m e) h = h
dangling_same n c ts (primary_key m cs) h = h
dangling_same n c ts (unique m cs) h = h

any_row-append :
    (p : Column → Bool) (cs : List Column) (c : Column)
    → any_row p (cs ++ (c ∷ [])) ≡ (any_row p cs || p c)
unfolding any_row
any_row-append p [] c = ground arith
any_row-append p (k ∷ cs) c = ground (arith, any_row-append p cs c)

misses_less :
    (cs : List String) (c : Column) (t : Table)
    → misses cs (append_column c t) ≡ true
    → misses cs t ≡ true
unfolding misses append_column has_column
misses_less cs c t =
    any_row_mono (λ m. not (any_row (column_named m) (t.columns ++ (c ∷ []))))
      (λ m. not (any_row (column_named m) t.columns)) cs
      (λ m h. ground (arith, any_row-append (column_named m) t.columns c))

misplaced_less :
    (c : Column) (t : Table) (k : Constraint)
    → misplaced (append_column c t) k ≡ true
    → misplaced t k ≡ true
unfolding misplaced
misplaced_less c t (foreign_key n k) = misses_less k.columns c t
misplaced_less c t (check n e) = λ h. h
misplaced_less c t (primary_key n cs) = misses_less cs c t
misplaced_less c t (unique n cs) = misses_less cs c t

keys_stay :
    (n : String) (c : Column) (ts us : List Table)
    → any_row (λ t. any_row (dangling us) t.constraints) ts ≡ false
    → any_row
        (λ t. any_row (dangling (alter_table n (append_column c) us)) t.constraints)
        (alter_table n (append_column c) ts)
      ≡ false
unfolding any_row alter_table append_column
keys_stay n c [] us h = refl
keys_stay n c (t ∷ ts) us h = ground (
  arith,
  keys_stay n c ts us,
  any_row_implies (dangling (alter_table n (append_column c) us)) (dangling us) t.constraints
      (dangling_same n c us),
)

own_kept :
    (c : Column) (t : Table)
    → any_row (misplaced t) t.constraints ≡ false
    → any_row (misplaced (append_column c t)) t.constraints ≡ false
own_kept c t =
    any_row_implies (misplaced (append_column c t)) (misplaced t) t.constraints (misplaced_less c t)

own_stay :
    (n : String) (c : Column) (ts : List Table)
    → any_row (λ t. any_row (misplaced t) t.constraints) ts ≡ false
    → any_row (λ t. any_row (misplaced t) t.constraints) (alter_table n (append_column c) ts)
      ≡ false
unfolding any_row alter_table append_column
own_stay n c [] h = refl
own_stay n c (t ∷ ts) h = ground (arith, own_stay n c ts, own_kept c t)

types_stay :
    (n : String) (c : Column) (enums : String → Option (List String)) (ts : List Table)
    → untyped enums c ≡ false
    → any_row (λ t. any_row (untyped enums) t.columns) ts ≡ false
    → any_row (λ t. any_row (untyped enums) t.columns) (alter_table n (append_column c) ts) ≡ false
unfolding any_row alter_table append_column
types_stay n c enums [] typed h = refl
types_stay n c enums (t ∷ ts) typed h =
    ground (arith, types_stay n c enums ts, any_row-append (untyped enums) t.columns c)

covers_still :
    (i : Index) (c : Column) (t : Table) → covers i t ≡ true → covers i (append_column c t) ≡ true
unfolding covers misses append_column table_named
covers_still i c t h = ground (arith, misses_less i.columns c t)

covered_still :
    (i : Index) (n : String) (c : Column) (ts : List Table)
    → any_row (covers i) ts ≡ true
    → any_row (covers i) (alter_table n (append_column c) ts) ≡ true
unfolding any_row alter_table
covered_still i n c [] h = h
covered_still i n c (t ∷ ts) h = ground (arith, covered_still i n c ts, covers_still i c t)

with_column-IsWellFormed :
    (n : String) (c : Column) (d : Database)
    → IsWellFormed d
    → has_table d n ≡ true
    → untyped d.enums c ≡ false
    → IsWellFormed (with_column n c d)
unfolding with_column has_table override
with_column-IsWellFormed n c d wf there typed = record {
  keys_lead = keys_stay n c d.tables d.tables wf.keys_lead;
  keys_own = own_stay n c d.tables wf.keys_own;
  types_defined = types_stay n c d.enums d.tables typed wf.types_defined;
  indexes_stand =
      any_row_implies (λ i. not (any_row (covers i) (alter_table n (append_column c) d.tables)))
        (λ i. not (any_row (covers i) d.tables)) d.indexes
        (λ i h. ground (arith, covered_still i n c d.tables)) wf.indexes_stand;
  rows_stand = λ m h. ground (arith, wf.rows_stand m, eq_iff n m, names_stay m n c d.tables);
}

pub add_column-IsWellFormed :
    (n : String) (c : Column) (d after : Database)
    → IsWellFormed d
    → apply_add_column n c d ≡ some after
    → IsWellFormed after
unfolding apply_add_column with_column
add_column-IsWellFormed n c d after wf h =
    let there : has_table d n ≡ true = ground arith in
    let typed : untyped d.enums c ≡ false = ground arith in
    moved (with_column n c d) after (ground arith) (with_column-IsWellFormed n c d wf there typed)
