-- ===== src/Migrations/Values.antt =====
-- The values that rows hold in a column, before and after the statements that change data
-- (backend/alembic/versions: c3f07a19b842, 4b7c1d90e2aa).
use counselready.Common.{
  ◌≡◌, refl, arith, String, Bool, true, false, some, List, [], ◌∷◌, map, Option-cases, Bool-cases,
  inl, inr,
}
use counselready.Common.Table.{any_row, delete_rows}
use text.Mathlib.Text.{◌==◌}
use text.Mathlib.TextEquality.{eq_iff}
use counselready.Migrations.Schema.{Row}
use counselready.Migrations.Operations.{contains, contains}
use counselready.Migrations.Apply.{value_of, set_value, is_value, replace_value, is_among}
use counselready.Migrations.Recast.{uncastable}

-- Some row holds a value in the column `c` that is not among `values`.
unfoldable pub misfits : List String → String → List Row → Bool
misfits values c rs = any_row (λ r. uncastable values (value_of c r)) rs

value_of-set_value :
    (c w v : String) (r : Row) → value_of c r ≡ some v → value_of c (set_value c w r) ≡ some w
unfolding value_of set_value
value_of-set_value c w v [] h = ground arith
value_of-set_value c w v ((m, u) ∷ r) h = elim (Bool-cases (m == c)) [
  | inl e ↦ rw (e, e) refl
  | inr e ↦ rw (e, e) (value_of-set_value c w v r (ground arith))
]

-- What replaces a value that is going.
module _ (c new old : String) (before after : List String)
    (stays : (v : String) → contains before v ≡ true → (old == v) ≡ false → contains after v ≡ true)
    (new_there : contains after new ≡ true) where
  replaced_fits :
      (r : Row)
      → uncastable before (value_of c r) ≡ false
      → uncastable after (value_of c (replace_value c new old r)) ≡ false
  unfolding replace_value uncastable is_value
  replaced_fits r h = elim (Option-cases (value_of c r)) [
    | inl e ↦ ground (arith, e)
    | inr (v, e) ↦ ground (arith, e, value_of-set_value c new v r e, stays v)
  ]

  pub replaced_fit :
      (rs : List Row)
      → misfits before c rs ≡ false
      → misfits after c (map (replace_value c new old) rs) ≡ false
  unfolding misfits any_row
  replaced_fit [] h = refl
  replaced_fit (r ∷ rs) h = ground (arith, replaced_fits r, replaced_fit rs)

module _ (c new old : String) (values : List String) (gone : contains values old ≡ false) where
  replaced_same :
      (r : Row) → uncastable values (value_of c r) ≡ false → replace_value c new old r ≡ r
  unfolding replace_value uncastable is_value
  replaced_same r h = elim (Option-cases (value_of c r)) [
    | inl e ↦ ground (arith, e)
    | inr (v, e) ↦ ground (arith, e, eq_iff old v)
  ]

  pub replaced_none :
      (rs : List Row) → misfits values c rs ≡ false → map (replace_value c new old) rs ≡ rs
  unfolding misfits any_row
  replaced_none [] h = refl
  replaced_none (r ∷ rs) h = ground (arith, replaced_same r, replaced_none rs)

-- Deleting the rows whose value is going.
module _ (c : String) (before gone after : List String)
    (stays : (v : String)
      → contains before v ≡ true
      → contains gone v ≡ false
      → contains after v ≡ true) where
  pub kept_fit :
      (rs : List Row)
      → misfits before c rs ≡ false
      → misfits after c (delete_rows (λ r. is_among gone (value_of c r)) rs) ≡ false
  unfolding misfits any_row delete_rows uncastable is_among
  kept_fit [] h = refl
  kept_fit (r ∷ rs) h = elim (Option-cases (value_of c r)) [
    | inl e ↦ ground (arith, e, kept_fit rs)
    | inr (v, e) ↦ ground (arith, e, kept_fit rs, stays v)
  ]

pub kept_all :
    (c : String) (values gone : List String) (rs : List Row)
    → ((v : String) → contains values v ≡ true → contains gone v ≡ false)
    → misfits values c rs ≡ false
    → delete_rows (λ r. is_among gone (value_of c r)) rs ≡ rs
unfolding misfits any_row delete_rows uncastable is_among
kept_all c values gone [] apart h = refl
kept_all c values gone (r ∷ rs) apart h = elim (Option-cases (value_of c r)) [
  | inl e ↦ ground (arith, e, kept_all c values gone rs apart)
  | inr (v, e) ↦ ground (arith, e, kept_all c values gone rs apart, apart v)
]
