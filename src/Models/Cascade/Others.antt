-- ===== src/Models/Cascade/Others.antt =====
-- What the deletion of an account leaves of the others.
use counselready.Common.{
  All, All-map, All-both, ℕ, Bool, true, false, not, ◌&&◌, some, List, [], ◌∷◌, ◌≡◌, refl, sym,
  subst, arith, inl, inr, Bool-cases,
}
use counselready.Common.Equality.{◌==◌, nat_eq, ==-sound, ==-refl}
use counselready.Common.Table.{any_row, delete_rows, where_rows, find_row}

-- No two rows have one id: the primary key.
unfoldable pub distinct : {P : Type 0} → (P → ℕ) → List P → Bool
distinct id [] = true
distinct id (p ∷ ps) = not (any_row (λ r. id r == id p) ps) && distinct id ps

module _ {P : Type 0} where
  -- A query is not changed by a deletion that takes none of its rows.
  pub where_rows-delete_rows :
      (p q : P → Bool) (rs : List P)
      → ((r : P) → p r ≡ true → q r ≡ false)
      → where_rows p (delete_rows q rs) ≡ where_rows p rs
  unfolding where_rows delete_rows
  where_rows-delete_rows p q [] apart = refl
  where_rows-delete_rows p q (r ∷ rs) apart =
      ground (arith, apart r, where_rows-delete_rows p q rs apart)

  any_row-narrow :
      (p q : P → Bool) (rs : List P) → any_row p rs ≡ false → any_row (λ r. p r && q r) rs ≡ false
  unfolding any_row
  any_row-narrow p q [] h = refl
  any_row-narrow p q (r ∷ rs) h = ground (arith, any_row-narrow p q rs)

  pub find_row-any_row :
      (p q : P → Bool) (rs : List P) {r : P}
      → find_row p rs ≡ some r
      → q r ≡ true
      → any_row q rs ≡ true
  unfolding any_row find_row
  find_row-any_row p q [] h k = absurd (cc)
  find_row-any_row p q (x ∷ rs) {r} h k = ground (arith, find_row-any_row p q rs {r = r})

  -- Only one row has the id of a row that a query finds.
  pub found-stays :
      (id : P → ℕ) (t goes : P → Bool) (ps : List P) {c : P}
      → distinct id ps ≡ true
      → find_row t ps ≡ some c
      → goes c ≡ false
      → any_row (λ p. (id p == id c) && goes p) ps ≡ false
  unfolding any_row find_row distinct
  found-stays id t goes [] unique found kept = refl
  found-stays id t goes (p ∷ ps) {c} unique found kept = elim (Bool-cases (t p)) [
    | inl here ↦
        let same : p ≡ c = ground (arith) in
        let alone : any_row (λ r. id r == id p) ps ≡ false = ground (arith) in
        let rest =
          any_row-narrow (λ r. id r == id c) goes ps
            (subst (λ x. any_row (λ r. id r == id x) ps ≡ false) same alone) in
        let head = subst (λ x. goes x ≡ false) (sym same) kept in ground (arith, rest, head)
    | inr on ↦
        let later : find_row t ps ≡ some c = ground (arith) in
        let alone : any_row (λ r. id r == id p) ps ≡ false = ground (arith) in
        let rest = found-stays id t goes ps {c = c} (ground (arith)) later kept in
        elim (Bool-cases (id p == id c)) [
          | inl e ↦
              let again : (id c == id p) ≡ true =
                subst (λ i. (i == id p) ≡ true) (==-sound (id p) (id c) e) (==-refl (id p)) in
              let clash : any_row (λ r. id r == id p) ps ≡ true =
                find_row-any_row t (λ r. id r == id p) ps {r = c} later again in
              absurd (cc)
          | inr e ↦ rw e rest
        ]
  ]

  -- A row with another id than all those of a list.
  ids-apart :
      (id : P → ℕ) (t : P → Bool) (i : ℕ) (ps : List P)
      → any_row (λ r. id r == i) ps ≡ false
      → All (λ r. (i == id r) ≡ false) (where_rows t ps)
  unfolding any_row where_rows
  ids-apart id t i [] h = tt
  ids-apart id t i (p ∷ ps) h =
      let rest = ids-apart id t i ps (ground (arith)) in
      let differs : (i == id p) ≡ false = ground (arith) in
      elim (Bool-cases (t p)) [ inl meets ↦ rw meets (differs, rest) | inr fails ↦ rw fails rest ]

  -- The rows that a query finds stay under a deletion that takes none of them, each with its id.
  pub where_rows-stay :
      (id : P → ℕ) (t goes : P → Bool) (ps : List P)
      → distinct id ps ≡ true
      → ((r : P) → t r ≡ true → goes r ≡ false)
      → All (λ r. any_row (λ p. (id p == id r) && goes p) ps ≡ false) (where_rows t ps)
  unfolding any_row where_rows distinct
  where_rows-stay id t goes [] unique kept = tt
  where_rows-stay id t goes (p ∷ ps) unique kept =
      let alone : any_row (λ r. id r == id p) ps ≡ false = ground (arith) in
      let rest =
        All-map _ (λ r. any_row (λ q. (id q == id r) && goes q) (p ∷ ps) ≡ false)
          (λ r (apart, stays). ground (arith, apart, stays)) (where_rows t ps)
          (All-both _ _ (where_rows t ps) (ids-apart id t (id p) ps alone)
            (where_rows-stay id t goes ps (ground (arith)) kept)) in
      elim (Bool-cases (t p)) [
        | inl meets ↦
            let narrow = any_row-narrow (λ r. id r == id p) goes ps alone in
            rw meets (ground (arith, kept p meets, narrow), rest)
        | inr fails ↦ rw fails rest
      ]
