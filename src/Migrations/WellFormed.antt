-- ===== src/Migrations/WellFormed.antt =====
-- What PostgreSQL keeps true of a schema under the migrations (backend/alembic/versions): each
-- reference inside the schema leads to something that is declared.
use counselready.Common.{
  ◌≡◌, refl, sym, subst, arith, String, Bool, true, false, not, List, [], ◌∷◌, map,
}
use counselready.Common.Table.{any_row, delete_rows}
use text.Mathlib.TextEquality.{eq_iff}
use counselready.Migrations.Schema.{
  Constraint, foreign_key, check, primary_key, unique, Table, Index, Database,
}
use counselready.Migrations.Operations.{
  misplaced, index_on, has_table, table_named, dangling, untyped, targets,
}
use counselready.Migrations.Apply.{covers, referred}

pub record IsWellFormed (d : Database) : Type 0 where
  -- Foreign keys lead to tables.
  pub keys_lead : any_row (λ t. any_row (dangling d.tables) t.constraints) d.tables ≡ false
  -- Constraints name columns of their own table.
  pub keys_own : any_row (λ t. any_row (misplaced t) t.constraints) d.tables ≡ false
  -- The enum types of columns are defined.
  pub types_defined : any_row (λ t. any_row (untyped d.enums) t.columns) d.tables ≡ false
  -- Indexes are over columns of a table.
  pub indexes_stand : any_row (λ i. not (any_row (covers i) d.tables)) d.indexes ≡ false
  -- Only a table has rows.
  pub rows_stand : (n : String) → has_table d n ≡ false → d.rows n ≡ []

-- Searches through a list.
module _ {R : Type 0} where
  pub any_row_implies :
      (p q : R → Bool) (rs : List R)
      → ((r : R) → p r ≡ true → q r ≡ true)
      → any_row q rs ≡ false
      → any_row p rs ≡ false
  unfolding any_row
  any_row_implies p q [] imp h = refl
  any_row_implies p q (r ∷ rs) imp h = ground (arith, imp r, any_row_implies p q rs imp)

  pub any_row_mono :
      (p q : R → Bool) (rs : List R)
      → ((r : R) → p r ≡ true → q r ≡ true)
      → any_row p rs ≡ true
      → any_row q rs ≡ true
  unfolding any_row
  any_row_mono p q [] imp h = h
  any_row_mono p q (r ∷ rs) imp h = ground (arith, imp r, any_row_mono p q rs imp)

  pub any_row-map :
      (p : R → Bool) (f : R → R) (rs : List R) → any_row p (map f rs) ≡ any_row (λ r. p (f r)) rs
  unfolding any_row
  any_row-map p f [] = refl
  any_row-map p f (r ∷ rs) = rw (any_row-map p f rs) refl

  pub delete_rows-none : (p : R → Bool) (rs : List R) → any_row p rs ≡ false → delete_rows p rs ≡ rs
  unfolding any_row delete_rows
  delete_rows-none p [] h = refl
  delete_rows-none p (r ∷ rs) h = ground (arith, delete_rows-none p rs)

-- A foreign key to a table of the list leads somewhere.
pub targets-dangling :
    (n : String) (ts : List Table) (c : Constraint)
    → any_row (table_named n) ts ≡ false
    → targets n c ≡ true
    → dangling ts c ≡ true
unfolding targets dangling
targets-dangling n ts (foreign_key m k) absent h =
    let e = (eq_iff k.target n).0 h in
    subst (λ x. not (any_row (table_named x) ts) ≡ true) (sym e) (rw absent refl)
targets-dangling n ts (check m e) absent h = ground arith
targets-dangling n ts (primary_key m cs) absent h = ground arith
targets-dangling n ts (unique m cs) absent h = ground arith

-- No table refers to a table that is not there.
pub none_referred :
    (n : String) (ts us : List Table)
    → any_row (table_named n) ts ≡ false
    → any_row (λ t. any_row (dangling ts) t.constraints) us ≡ false
    → referred n us ≡ false
unfolding referred any_row
none_referred n ts [] absent h = refl
none_referred n ts (u ∷ us) absent h = ground (
  arith,
  none_referred n ts us absent,
  any_row_implies (targets n) (dangling ts) u.constraints (λ c. targets-dangling n ts c absent),
)

-- No index stands on a table that is not there.
pub none_indexed :
    (n : String) (ts : List Table) (is : List Index)
    → any_row (table_named n) ts ≡ false
    → any_row (λ i. not (any_row (covers i) ts)) is ≡ false
    → any_row (index_on n) is ≡ false
unfolding index_on covers
none_indexed n ts is absent =
    any_row_implies (index_on n) (λ i. not (any_row (covers i) ts)) is
      (λ i h.
        let e : i.table ≡ n = (eq_iff i.table n).0 h in
        let gone = subst (λ x. any_row (table_named x) ts ≡ false) (sym e) absent in
        ground
          (arith, gone, any_row_implies (covers i) (table_named i.table) ts (λ t k. ground arith)))
