-- ===== src/Effects/Action.antt =====
-- A call with state and exceptions. The state comes back after a raise too: what a session has
-- flushed stays in its transaction until that ends.
pub mod Laws
use counselready.Common.{Bool, Option, none, some, ◌≡◌, arith, if◌then◌else◌, List}
use counselready.Common.Table.{any_row, add_row}
use counselready.Effects.Exceptions.{Exn, integrity_error}

pub data Result (A : Type 0) : Type 0 where
  ok : A → Result A
  err : Exn → Result A

abbrev pub Action : Type 0 → Type 0 → Type 0
Action S A = S → Result A × S

module _ {S A : Type 0} where
  abbrev pub pure : A → Action S A
  pure a s = (ok a, s)

  abbrev pub raise : Exn → Action S A
  raise e s = (err e, s)

  abbrev pub gets : (S → A) → Action S A
  gets f s = (ok (f s), s)

  abbrev pub or_raise : Option A → Exn → Action S A
  or_raise none e = raise e
  or_raise (some a) e = pure a

  -- `try: … except E as exc: …`, with the handler by clauses on the exception.
  abbrev pub catch : Action S A → (Exn → Action S A) → Action S A
  catch m h s = let (r, s') = m s in elim r [ ok a ↦ (ok a, s') | err e ↦ h e s' ]

infixl 5 ◌>>=◌ ◌>>◌
abbrev pub ◌>>=◌ : {S A B : Type 0} → Action S A → (A → Action S B) → Action S B
◌>>=◌ m f s = let (r, s') = m s in elim r [ ok a ↦ f a s' | err e ↦ (err e, s') ]

abbrev pub ◌>>◌ : {S B : Type 0} → Action S (Unit {0}) → Action S B → Action S B
m >> k = m >>= λ _. k

module _ {S : Type 0} where
  abbrev pub raise_if : Bool → Exn → Action S (Unit {0})
  raise_if c e s = (if c then err e else ok tt, s)

  abbrev pub modify : (S → S) → Action S (Unit {0})
  modify f s = (ok tt, f s)

  -- An action only if the test passes.
  abbrev pub when : Bool → Action S (Unit {0}) → Action S (Unit {0})
  when c m s = if c then m s else (ok tt, s)

-- `session.add(row)` and a flush, under a unique index: `clash` is the index's test.
abbrev pub insert_unique :
    {S R : Type 0} → (R → Bool) → R → (S → List R) → (List R → S → S) → Action S (Unit {0})
insert_unique clash row rows store = do
  taken ← gets (λ s. any_row clash (rows s))
  raise_if taken integrity_error
  modify (λ s. store (add_row row (rows s)) s)

-- `get_session`: the transaction that wraps a request commits if the handler returns, and is rolled
-- back if the handler raises.
unfoldable pub in_transaction : {S A : Type 0} → Action S A → Action S A
in_transaction handler s =
    let (r, s') = handler s in elim r [ ok a ↦ (ok a, s') | err e ↦ (err e, s) ]

-- The same over a database and an object store, which no transaction covers.
unfoldable pub in_transaction_with_store : {D S A : Type 0} → Action (D × S) A → Action (D × S) A
in_transaction_with_store handler (d, s) =
    let (r, t) = handler (d, s) in elim r [ ok a ↦ (ok a, t) | err e ↦ (err e, (d, t.1)) ]

-- A call that touches only the database, or only the store.
abbrev pub on_database : {D S A : Type 0} → Action D A → Action (D × S) A
on_database m (d, s) = let (r, d') = m d in (r, (d', s))

abbrev pub on_store : {D S A : Type 0} → Action S A → Action (D × S) A
on_store m (d, s) = let (r, s') = m s in (r, (d, s'))

-- What a request that raised has left in the database: nothing.
pub in_transaction-err :
    {S A : Type 0} (m : Action S A) (s : S) {e : Exn}
    → (in_transaction m s).0 ≡ err e
    → (in_transaction m s).1 ≡ s
unfolding in_transaction
in_transaction-err m s h = ground arith

pub in_transaction-ok :
    {S A : Type 0} (m : Action S A) (s : S) {a : A}
    → (in_transaction m s).0 ≡ ok a
    → in_transaction m s ≡ m s
unfolding in_transaction
in_transaction-ok m s h = ground arith
