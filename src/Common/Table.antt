-- ===== src/Common/Table.antt =====
-- A table as the list of its rows in the order of insertion: the queries and updates that the
-- program sends, and what they do to the row that a query finds.
use Prim.Native.Nat.{ℕ, suc, ◌+◌}
use mathlib.Core.Path.{◌≡◌, refl}
use mathlib.Core.Bool.{Bool, true, false, ◌||◌}
use mathlib.Core.Option.{Option, none, some, or_else}
use mathlib.Core.List.{List, [], ◌∷◌, ◌++◌}
use native.Mathlib.Omega.{arith}
use counselready.Common.Tests.{if◌then◌else◌}

module _ {ℓ} {R : Type ℓ} where
  -- `select(R).where(p)`, and its `scalar_one_or_none` where `p` is an equation on a unique column.
  unfoldable pub where_rows : (R → Bool) → List R → List R
  where_rows p [] = []
  where_rows p (r ∷ rs) = let rest = where_rows p rs in if p r then r ∷ rest else rest

  unfoldable pub find_row : (R → Bool) → List R → Option R
  find_row p [] = none
  find_row p (r ∷ rs) = let rest = find_row p rs in if p r then some r else rest

  -- Whether some row meets `p`.
  unfoldable pub any_row : (R → Bool) → List R → Bool
  any_row p [] = false
  any_row p (r ∷ rs) = p r || any_row p rs

  -- `select(func.count()).where(p)`
  unfoldable pub count_rows : (R → Bool) → List R → ℕ
  count_rows p [] = 0
  count_rows p (r ∷ rs) = let rest = count_rows p rs in if p r then suc rest else rest

  -- An assignment to the attributes of the rows that meet `p`.
  unfoldable pub update_rows : (R → Bool) → (R → R) → List R → List R
  update_rows p f [] = []
  update_rows p f (r ∷ rs) = (if p r then f r else r) ∷ update_rows p f rs

  -- `delete(R).where(p)`
  unfoldable pub delete_rows : (R → Bool) → List R → List R
  delete_rows p [] = []
  delete_rows p (r ∷ rs) = let rest = delete_rows p rs in if p r then rest else r ∷ rest

  unfoldable pub add_row : R → List R → List R
  add_row r rs = rs ++ r ∷ []

  pub find_row_sound : (p : R → Bool) (rs : List R) {r : R} → find_row p rs ≡ some r → p r ≡ true
  unfolding find_row
  find_row_sound p [] h = cc
  find_row_sound p (x ∷ rs) {r} h = ground (arith, find_row_sound p rs {r = r})

  pub find_row-add_row :
      (p : R → Bool) (x : R) (rs : List R)
      → find_row p (add_row x rs) ≡ or_else (find_row p rs) (if p x then some x else none)
  unfolding find_row add_row or_else
  find_row-add_row p x [] = ground arith
  find_row-add_row p x (r ∷ rs) = ground (arith, find_row-add_row p x rs)

  -- An update that `p` does not see changes the row that `p` finds, if the update meets it.
  pub find_row-update_rows :
      (p q : R → Bool) (f : R → R)
      → ((r : R) → p (f r) ≡ p r)
      → (rs : List R)
      → find_row p (update_rows q f rs)
        ≡ elim (find_row p rs) [ none ↦ none | some r ↦ some (if q r then f r else r) ]
  unfolding find_row update_rows
  find_row-update_rows p q f h [] = refl
  find_row-update_rows p q f h (r ∷ rs) = ground (arith, h r, find_row-update_rows p q f h rs)

  pub find_row-delete_rows :
      (p q : R → Bool) (rs : List R) {r : R} → find_row p (delete_rows q rs) ≡ some r → q r ≡ false
  unfolding find_row delete_rows
  find_row-delete_rows p q [] h = cc
  find_row-delete_rows p q (x ∷ rs) {r} h = ground (arith, find_row-delete_rows p q rs {r = r})

  pub count_rows-add_row :
      (p : R → Bool) (x : R) (rs : List R)
      → count_rows p (add_row x rs) ≡ count_rows p rs + (if p x then 1 else 0)
  unfolding count_rows add_row
  count_rows-add_row p x [] = ground arith
  count_rows-add_row p x (r ∷ rs) = ground (arith, count_rows-add_row p x rs)

  pub any_row-delete_rows : (p : R → Bool) (rs : List R) → any_row p (delete_rows p rs) ≡ false
  unfolding any_row delete_rows
  any_row-delete_rows p [] = refl
  any_row-delete_rows p (r ∷ rs) = ground (arith, any_row-delete_rows p rs)

  pub find_row-missing : (p : R → Bool) (rs : List R) → any_row p rs ≡ false → find_row p rs ≡ none
  unfolding any_row find_row
  find_row-missing p [] h = refl
  find_row-missing p (r ∷ rs) h = ground (arith, find_row-missing p rs)
