-- ===== src/Effects/Action/Laws.antt =====
-- Inversion of a call that succeeded, and the two ways in which a guarded insertion ends.
use counselready.Common.{
  ◌∙◌, Option, some, none, Bool, true, false, ◌≡◌, refl, ap, ◌⊎◌, inl, inr, Bool-cases, List,
}
use counselready.Common.Table.{any_row, add_row}
use counselready.Effects.Exceptions.{Exn, integrity_error}
use counselready.Effects.Action.{
  catch, raise, or_raise, Action, Result, ok, err, ◌>>=◌, insert_unique,
}

module _ {S A B : Type 0} (m : Action S A) (f : A → Action S B) (s : S) where
  -- Both parts of a chain that succeeded have succeeded.
  pub >>=-inv :
      {b : B} {t : S}
      → (m >>= f) s ≡ (ok b, t)
      → (a : A) × (s' : S) × (m s ≡ (ok a, s')) × (f a s' ≡ (ok b, t))
  >>=-inv {b} {t} h = go (m s).0 refl h
    where
      go :
          (r : Result A)
          → (m s).0 ≡ r
          → elim r as (λ x. Result B × S) [ ok a ↦ f a (m s).1 | err e ↦ (err e, (m s).1) ]
            ≡ (ok b, t)
          → (a : A) × (s' : S) × (m s ≡ (ok a, s')) × (f a s' ≡ (ok b, t))
      go (ok a) e k = (a, (m s).1, ap (λ r. (r, (m s).1)) e, k)
      go (err x) e k = absurd (cc)

  -- A chain goes on from where its first part has ended.
  pub >>=-ok : {a : A} {s' : S} → m s ≡ (ok a, s') → (m >>= f) s ≡ f a s'
  >>=-ok h = ap (λ x. elim x.0 as (λ y. Result B × S) [ ok a ↦ f a x.1 | err e ↦ (err e, x.1) ]) h

  pub >>=-err : {e : Exn} {s' : S} → m s ≡ (err e, s') → (m >>= f) s ≡ (err e, s')
  >>=-err h = ap (λ x. elim x.0 as (λ y. Result B × S) [ ok a ↦ f a x.1 | err e ↦ (err e, x.1) ]) h

  -- A rule for a chain: what holds of its first part carries over to the whole, whether the first part
  -- returns or raises.
  pub >>=-rule :
      (P : Result A × S → Type 0) (Q : Result B × S → Type 0)
      → P (m s)
      → ((a : A) (t : S) → P (ok a, t) → Q (f a t))
      → ((e : Exn) (t : S) → P (err e, t) → Q (err e, t))
      → Q ((m >>= f) s)
  >>=-rule P Q h on stop = go (m s) h
    where
      go :
          (x : Result A × S)
          → P x
          → Q (elim x.0 as (λ y. Result B × S) [ ok a ↦ f a x.1 | err e ↦ (err e, x.1) ])
      go (ok a, t) k = on a t k
      go (err e, t) k = stop e t k

module _ {S R : Type 0} (clash : R → Bool) (row : R) (rows : S → List R) (store : List R → S → S)
    (s : S) where
  pub insert_unique-cases :
      ((any_row clash (rows s) ≡ true)
        × (insert_unique clash row rows store s ≡ (err integrity_error, s)))
      ⊎ ((any_row clash (rows s) ≡ false)
          × (insert_unique clash row rows store s ≡ (ok tt, store (add_row row (rows s)) s)))
  insert_unique-cases = elim (Bool-cases (any_row clash (rows s))) [
    | inl taken ↦ inl (taken, rw taken)
    | inr free ↦ inr (free, rw free)
  ]

-- An option that was found, in a state that it has not changed.
pub or_raise-inv :
    {S A : Type 0} (o : Option A) (e : Exn) (s : S) {a : A} {t : S}
    → or_raise o e s ≡ (ok a, t)
    → (o ≡ some a) × (t ≡ s)
or_raise-inv none e s h = absurd (cc)
or_raise-inv (some x) e s h = (cc, cc)

-- A call that has returned under a handler which raises again has returned by itself.
pub catch-inv :
    {S A : Type 0} (m : Action S A) (f : Exn → Exn) (s : S) {a : A} {t : S}
    → catch m (λ e. raise (f e)) s ≡ (ok a, t)
    → m s ≡ (ok a, t)
catch-inv {S} {A} m f s {a} {t} h = go (m s).0 refl h
  where
    go :
        (r : Result A)
        → (m s).0 ≡ r
        → elim r as (λ x. Result A × S) [ ok a ↦ (ok a, (m s).1) | err e ↦ (err (f e), (m s).1) ]
          ≡ (ok a, t)
        → m s ≡ (ok a, t)
    go (ok b) e k = ap (λ r. (r, (m s).1)) e ∙ k
    go (err x) e k = absurd (cc)
