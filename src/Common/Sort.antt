-- ===== src/Common/Sort.antt =====
-- `ORDER BY`, and Python's `sorted` with a key: a stable sort by insertion.
use Prim.Native.Nat.{ℕ}
use mathlib.Core.Path.{◌≡◌}
use mathlib.Core.Bool.{Bool, true, false, ◌&&◌, ◌||◌}
use mathlib.Core.List.{List, [], ◌∷◌, Perm}
use mathlib.Core.List.Perm
use mathlib.Core.Logic.{inl, inr}
use native.Mathlib.Omega.{arith}
use counselready.Common.Tests.{if◌then◌else◌, leb, ltb, Bool-cases}
use counselready.Common.Lists.{All, All-map}

module _ {R : Type 0} (before : R → R → Bool) where
  unfoldable pub insert_by : R → List R → List R
  insert_by x [] = x ∷ []
  insert_by x (y ∷ ys) = let rest = insert_by x ys in if before x y then x ∷ y ∷ ys else y ∷ rest

  unfoldable pub sort_by : List R → List R
  sort_by [] = []
  sort_by (x ∷ xs) = insert_by x (sort_by xs)

  -- Every row stands before all that follow it.
  abbrev pub IsOrdered : List R → Type 0
  IsOrdered [] = Unit
  IsOrdered (x ∷ xs) = All (λ y. before x y ≡ true) xs × IsOrdered xs

  insert_by-perm : (x : R) (xs : List R) → Perm (insert_by x xs) (x ∷ xs)
  unfolding insert_by
  insert_by-perm x [] = Perm.rfl
  insert_by-perm x (y ∷ ys) = elim (Bool-cases (before x y)) [
    | inl first ↦ rw first Perm.rfl
    | inr after ↦ rw after (Perm.trans (Perm.cons y (insert_by-perm x ys)) (Perm.swap x y ys))
  ]

  -- A sort returns the rows that it is given, each as often.
  pub sort_by-perm : (xs : List R) → Perm (sort_by xs) xs
  unfolding sort_by
  sort_by-perm [] = Perm.rfl
  sort_by-perm (x ∷ xs) = Perm.trans (insert_by-perm x (sort_by xs)) (Perm.cons x (sort_by-perm xs))

  insert_by-All : (P : R → Type 0) (x : R) (xs : List R) → P x → All P xs → All P (insert_by x xs)
  unfolding insert_by
  insert_by-All P x [] here there = (here, tt)
  insert_by-All P x (y ∷ ys) here (p, rest) = elim (Bool-cases (before x y)) [
    | inl first ↦ rw first (here, (p, rest))
    | inr after ↦ rw after (p, insert_by-All P x ys here rest)
  ]

  -- What holds of every row holds of every row in order.
  pub sort_by-All : (P : R → Type 0) (xs : List R) → All P xs → All P (sort_by xs)
  unfolding sort_by
  sort_by-All P [] h = tt
  sort_by-All P (x ∷ xs) (here, there) =
      insert_by-All P x (sort_by xs) here (sort_by-All P xs there)

  module _ (total : (x y : R) → before x y ≡ false → before y x ≡ true)
      (trans : (x y z : R) → before x y ≡ true → before y z ≡ true → before x z ≡ true) where
    insert_by-IsOrdered : (x : R) (xs : List R) → IsOrdered xs → IsOrdered (insert_by x xs)
    unfolding insert_by
    insert_by-IsOrdered x [] h = (tt, tt)
    insert_by-IsOrdered x (y ∷ ys) (below, rest) = elim (Bool-cases (before x y)) [
      | inl first ↦
          rw first ((first, All-map _ _ (λ z h. trans x y z first h) ys below), (below, rest))
      | inr after ↦
          rw after (insert_by-All _ x ys (total x y after) below, insert_by-IsOrdered x ys rest)
    ]

    pub sort_by-IsOrdered : (xs : List R) → IsOrdered (sort_by xs)
    unfolding sort_by
    sort_by-IsOrdered [] = tt
    sort_by-IsOrdered (x ∷ xs) = insert_by-IsOrdered x (sort_by xs) (sort_by-IsOrdered xs)

-- The order of one numeric key, and of two.
abbrev pub by_key : {R : Type 0} → (R → ℕ) → R → R → Bool
by_key key x y = leb (key x) (key y)

abbrev pub by_keys : {R : Type 0} → (R → ℕ) → (R → ℕ) → R → R → Bool
by_keys first second x y =
    ltb (first x) (first y) || (leb (first x) (first y) && leb (second x) (second y))

module _ {R : Type 0} where
  pub sort_by_key-IsOrdered :
      (key : R → ℕ) (xs : List R) → IsOrdered (by_key key) (sort_by (by_key key) xs)
  sort_by_key-IsOrdered key =
      sort_by-IsOrdered (by_key key) (λ x y h. ground arith) (λ x y z h k. ground arith)

  pub sort_by_keys-IsOrdered :
      (first second : R → ℕ) (xs : List R)
      → IsOrdered (by_keys first second) (sort_by (by_keys first second) xs)
  sort_by_keys-IsOrdered first second =
      sort_by-IsOrdered (by_keys first second) (λ x y h. ground arith) (λ x y z h k. ground arith)
