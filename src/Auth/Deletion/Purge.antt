-- ===== src/Auth/Deletion/Purge.antt =====
-- The removal of objects, one by one.
use counselready.Common.{
  ℕ, suc, ◌+◌, Bool, true, false, not, ◌&&◌, none, List, [], ◌∷◌, ◌≡◌, refl, sym, ap, ◌∙◌, arith,
  if◌then◌else◌, Bool-cases, inl, inr, subst,
}
use counselready.Common.Equality.{==-sound, ◌==◌, list_eq, nat_eq}
use counselready.Common.Table.{any_row, count_rows}
use counselready.Common.Text.{Text}
use counselready.Effects.Action.{Result, ok}
use counselready.Ingest.Service.{ObjectStore}
use counselready.Auth.Deletion.{delete, purge_from, purge_objects}

-- What the store holds after the keys that can be removed have been.
abbrev pub purged : (Text → Bool) → List Text → ObjectStore → ObjectStore
purged fails keys store k =
    if any_row (λ key. k == key) keys && not (fails k) then none else store k

module _ (fails : Text → Bool) where
  abbrev Purges : ℕ → List Text → ObjectStore → Result ℕ × ObjectStore → Type 0
  Purges n keys store (r, store') =
      (r ≡ ok (n + count_rows (λ key. not (fails key)) keys))
      × ((k : Text) → store' k ≡ purged fails keys store k)

  step-fails :
      (n : ℕ) (key : Text) (keys : List Text) (store : ObjectStore)
      → fails key ≡ true
      → purge_from fails n (key ∷ keys) store ≡ purge_from fails n keys store
  unfolding purge_from delete
  step-fails n key keys store stuck = rw stuck refl

  step-removes :
      (n : ℕ) (key : Text) (keys : List Text) (store : ObjectStore)
      → fails key ≡ false
      → purge_from fails n (key ∷ keys) store
        ≡ purge_from fails (suc n) keys (λ k. if k == key then none else store k)
  unfolding purge_from delete
  step-removes n key keys store free = rw free refl

  purged-fails :
      (key : Text) (keys : List Text) (store : ObjectStore) (k : Text)
      → fails key ≡ true
      → purged fails keys store k ≡ purged fails (key ∷ keys) store k
  unfolding any_row
  purged-fails key keys store k stuck = elim (Bool-cases (k == key)) [
    | inl same ↦
        let fails_k = subst (λ x. fails x ≡ true) (sym (==-sound k key same)) stuck in
        ground (arith, fails_k)
    | inr differs ↦ rw differs refl
  ]

  purged-removes :
      (key : Text) (keys : List Text) (store : ObjectStore) (k : Text)
      → fails key ≡ false
      → purged fails keys (λ x. if x == key then none else store x) k
        ≡ purged fails (key ∷ keys) store k
  unfolding any_row
  purged-removes key keys store k free = elim (Bool-cases (k == key)) [
    | inl same ↦
        let free_k = subst (λ x. fails x ≡ false) (sym (==-sound k key same)) free in
        ground (arith, free_k)
    | inr differs ↦ rw (differs) refl
  ]

  purge_from-Purges :
      (n : ℕ) (keys : List Text) (store : ObjectStore)
      → Purges n keys store (purge_from fails n keys store)
  unfolding purge_from any_row count_rows
  purge_from-Purges n [] store = (ap ok (omega arith), λ k. refl)
  purge_from-Purges n (key ∷ keys) store = elim (Bool-cases (fails key)) [
    | inl stuck ↦
        let (count, left) = purge_from-Purges n keys store in
        subst (Purges n (key ∷ keys) store) (sym (step-fails n key keys store stuck))
          (count ∙ ap ok (ground arith), λ k. left k ∙ purged-fails key keys store k stuck)
    | inr free ↦
        let (count, left) =
          purge_from-Purges (suc n) keys (λ k. if k == key then none else store k) in
        subst (Purges n (key ∷ keys) store) (sym (step-removes n key keys store free))
          (count ∙ ap ok (ground arith), λ k. left k ∙ purged-removes key keys store k free)
  ]

  -- The removal of a list of objects always returns. Each object that can be removed is gone, whether
  -- or not others before it could be, every other is kept, and the count is of the removals that
  -- succeeded.
  pub purge_objects_lem :
      (keys : List Text) (store : ObjectStore)
      → ((purge_objects fails keys store).0 ≡ ok (count_rows (λ key. not (fails key)) keys))
        × ((k : Text) → (purge_objects fails keys store).1 k ≡ purged fails keys store k)
  unfolding purge_objects
  purge_objects_lem keys store =
      let (count, left) = purge_from-Purges 0 keys store in (count ∙ ap ok (omega arith), left)
