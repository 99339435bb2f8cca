-- ===== src/Migrations/Reversal.antt =====
-- A list of additions to the schema, and the list that takes them back in the opposite order
-- (backend/alembic/versions).
use counselready.Common.{
  ◌≡◌, refl, sym, arith, String, Bool, true, not, ◌&&◌, Option, some, List, [], ◌∷◌, ◌++◌,
  Option-cases, inl, inr, is_none,
}
use text.Mathlib.Text.{◌==◌}
use text.Mathlib.TextEquality.{eq_iff}
use counselready.Migrations.Schema.{Database, Enum, Table, Index, Column}
use counselready.Migrations.Operations.{
  Op, create_enum, drop_enum, create_table, drop_table, create_index, drop_index, add_column,
  drop_column, ◌>>=◌, override,
}
use counselready.Migrations.Apply.{
  apply_create_enum, define_type, apply_create_table, apply_create_index, apply_add_column,
  with_column,
}
use counselready.Migrations.Run.{apply, run}
use counselready.Migrations.WellFormed.{IsWellFormed}
use counselready.Migrations.Undo.{undo_create_enum, undo_create_table, undo_create_index}
use counselready.Migrations.AddedColumn.{undo_add_column}
use counselready.Migrations.Preserved.{
  create_enum-IsWellFormed, create_table-IsWellFormed, create_index-IsWellFormed,
}
use counselready.Migrations.Altered.{add_column-IsWellFormed}

-- The operations that add something, and for each the one that takes it away.
pub data Addition : Type 0 where
  enum : Enum → Addition
  table : Table → Addition
  index : Index → Addition
  column : String → Column → Addition

abbrev pub forward : Addition → Op
forward (enum e) = create_enum e
forward (table t) = create_table t
forward (index i) = create_index i
forward (column n c) = add_column n c

abbrev pub backward : Addition → Op
backward (enum e) = drop_enum e.name
backward (table t) = drop_table t.name
backward (index i) = drop_index i.name i.table
backward (column n c) = drop_column n c.name

abbrev pub forwards : List Addition → List Op
forwards [] = []
forwards (a ∷ rest) = forward a ∷ forwards rest

abbrev pub backwards : List Addition → List Op
backwards [] = []
backwards (a ∷ rest) = backwards rest ++ (backward a ∷ [])

-- The additions among some operations.
abbrev pub additions : List Op → List Addition
additions [] = []
additions (create_enum e ∷ os) = enum e ∷ additions os
additions (create_table t ∷ os) = table t ∷ additions os
additions (create_index i ∷ os) = index i ∷ additions os
additions (add_column n c ∷ os) = column n c ∷ additions os
additions (o ∷ os) = additions os

-- No addition creates an enum type of the name `n`.
unfoldable pub spares : String → List Addition → Bool
spares n [] = true
spares n (enum e ∷ rest) = not (e.name == n) && spares n rest
spares n (a ∷ rest) = spares n rest

-- The enum types that are created are not there yet.
unfoldable pub creates_new : (String → Option (List String)) → List Addition → Bool
creates_new enums [] = true
creates_new enums (enum e ∷ rest) =
    is_none (enums e.name) && spares e.name rest && creates_new enums rest
creates_new enums (a ∷ rest) = creates_new enums rest

new_still :
    (n : String) (values : List String) (enums : String → Option (List String))
    (adds : List Addition)
    → spares n adds ≡ true
    → creates_new enums adds ≡ true
    → creates_new (override n (some values) enums) adds ≡ true
unfolding creates_new spares override
new_still n values enums [] h k = refl
new_still n values enums (enum e ∷ rest) h k =
    ground (arith, new_still n values enums rest, eq_iff n e.name, eq_iff e.name n)
new_still n values enums (table t ∷ rest) h k = new_still n values enums rest h k
new_still n values enums (index i ∷ rest) h k = new_still n values enums rest h k
new_still n values enums (column m c ∷ rest) h k = new_still n values enums rest h k

pub addition-IsWellFormed :
    (a : Addition) (d after : Database)
    → IsWellFormed d
    → apply (forward a) d ≡ some after
    → IsWellFormed after
unfolding apply
addition-IsWellFormed (enum e) d after = create_enum-IsWellFormed e d after
addition-IsWellFormed (table t) d after = create_table-IsWellFormed t d after
addition-IsWellFormed (index i) d after = create_index-IsWellFormed i d after
addition-IsWellFormed (column n c) d after = add_column-IsWellFormed n c d after

addition_undone :
    (a : Addition) (rest : List Addition) (d after : Database)
    → IsWellFormed d
    → creates_new d.enums (a ∷ rest) ≡ true
    → apply (forward a) d ≡ some after
    → apply (backward a) after ≡ some d
unfolding apply creates_new
addition_undone (enum e) rest d after wf new = undo_create_enum e d after wf (ground arith)
addition_undone (table t) rest d after wf new = undo_create_table t d after wf
addition_undone (index i) rest d after wf new = undo_create_index i d after
addition_undone (column n c) rest d after wf new = undo_add_column n c d after wf

addition_new :
    (a : Addition) (rest : List Addition) (d after : Database)
    → creates_new d.enums (a ∷ rest) ≡ true
    → apply (forward a) d ≡ some after
    → creates_new after.enums rest ≡ true
unfolding apply creates_new apply_create_enum define_type apply_create_table apply_create_index
    apply_add_column with_column
addition_new (enum e) rest d after new h = ground (arith, new_still e.name e.values d.enums rest)
addition_new (table t) rest d after new h = ground arith
addition_new (index i) rest d after new h = ground arith
addition_new (column n c) rest d after new h = ground arith

pub run-append : (xs ys : List Op) (d : Database) → run (xs ++ ys) d ≡ (run xs d >>= run ys)
unfolding run
run-append [] ys d = refl
run-append (x ∷ xs) ys d = elim (Option-cases (apply x d)) [
  | inl e ↦ rw e refl
  | inr (m, e) ↦ rw e (run-append xs ys m)
]

-- Additions to a well-formed schema, of types that are not there yet, are taken back exactly by their
-- opposites in the opposite order.
pub additions_reversed :
    (adds : List Addition) (d after : Database)
    → IsWellFormed d
    → creates_new d.enums adds ≡ true
    → run (forwards adds) d ≡ some after
    → run (backwards adds) after ≡ some d
unfolding run
additions_reversed [] d after wf new h = sym h
additions_reversed (a ∷ rest) d after wf new h = elim (Option-cases (apply (forward a) d)) [
  | inl e ↦ ground (arith, e)
  | inr (m, e) ↦
      let rest_back =
        additions_reversed rest m after (addition-IsWellFormed a d m wf e)
          (addition_new a rest d m new e) (ground (arith, e)) in
      rw
        (
          run-append (backwards rest) (backward a ∷ []) after,
          rest_back,
          addition_undone a rest d m wf new e,
        )
        refl
]
