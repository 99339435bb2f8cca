-- ===== src/Jobs/Queue/Claims.antt =====
-- What a claim takes.
use counselready.Common.{
  List, [], ◌∷◌, ℕ, ◌≤◌, Bool, true, Option, none, some, ◌≡◌, ◌≢◌, refl, sym, ap, ◌∙◌, subst, arith,
  leb, leb→le, Bool-cases, inl, inr, All, All-map,
}
use counselready.Common.Equality.{◌==◌, nat_eq, ==-refl}
use counselready.Common.Table.{where_rows, any_row}
use counselready.Models.Jobs.{Job}
use counselready.Models.Database.{Database}
use counselready.Jobs.Queue.{earlier, oldest, is_runnable, claim, claim_next, started, update_job}

where_rows-All : {R : Type 0} (p : R → Bool) (rs : List R) → All (λ r. p r ≡ true) (where_rows p rs)
unfolding where_rows
where_rows-All p [] = tt
where_rows-All p (r ∷ rs) = elim (Bool-cases (p r)) [
  | inl passes ↦ rw passes (passes, where_rows-All p rs)
  | inr fails ↦ rw fails (where_rows-All p rs)
]

-- What `oldest` returns of the rows of a query: none of none, else a row of theirs than which none
-- is due earlier.
abbrev pub Picks : (Job → Type 0) → List Job → Option Job → Type 0
Picks P js none = js ≡ []
Picks P js (some j) = P j × All (λ k. j.run_after ≤ k.run_after) js

earlier-Picks :
    (P : Job → Type 0) (j : Job) (js : List Job) (o : Option Job)
    → P j
    → Picks P js o
    → Picks P (j ∷ js) (some (earlier j o))
unfolding earlier
earlier-Picks P j js none h none_left = (h, (omega arith, subst (All _) (sym none_left) tt))
earlier-Picks P j js (some k) h (picked, least) = elim (Bool-cases (leb j.run_after k.run_after)) [
  | inl first ↦
      let le = leb→le j.run_after k.run_after first in
      let e : earlier j (some k) ≡ j = rw first refl in
      subst (λ m. Picks P (j ∷ js) (some m)) (sym e)
        (h, (omega arith, All-map _ _ (λ r below. omega arith) js least))
  | inr later ↦
      let e : earlier j (some k) ≡ k = rw later refl in
      let le : k.run_after ≤ j.run_after = ground arith in
      subst (λ m. Picks P (j ∷ js) (some m)) (sym e) (picked, (le, least))
]

pub oldest-Picks : (P : Job → Type 0) (js : List Job) → All P js → Picks P js (oldest js)
unfolding oldest
oldest-Picks P [] h = refl
oldest-Picks P (j ∷ js) h = earlier-Picks P j js (oldest js) h.0 (oldest-Picks P js h.1)

-- What a claim returns, and what it leaves.
abbrev pub Claimed : List ℕ → ℕ → Database → Option Job × Database → Type 0
Claimed locked now db (none, db') = (where_rows (is_runnable locked now) db.job ≡ []) × (db' ≡ db)
Claimed locked now db (some job, db') =
    (j : Job) × (is_runnable locked now j ≡ true)
    × All (λ k. j.run_after ≤ k.run_after) (where_rows (is_runnable locked now) db.job)
    × (job ≡ started j)
    × (db' ≡ update_job j.id started db)

claim-Claimed :
    (locked : List ℕ) (now : ℕ) (db : Database) (o : Option Job)
    → Picks (λ j. is_runnable locked now j ≡ true) (where_rows (is_runnable locked now) db.job) o
    → Claimed locked now db (claim o db)
unfolding claim
claim-Claimed locked now db none h = (h, refl)
claim-Claimed locked now db (some j) (runs, least) = (j, runs, least, refl, refl)

-- A claim returns nothing, and changes nothing, just when no row can be run; else it takes a row that
-- is queued, due and not locked, and none that can be run was due before it. The row is then running,
-- with one attempt more.
pub claim_next-Claimed :
    (locked : List ℕ) (now : ℕ) (db : Database) → Claimed locked now db (claim_next locked now db)
unfolding claim_next
claim_next-Claimed locked now db =
    claim-Claimed locked now db (oldest (where_rows (is_runnable locked now) db.job))
      (oldest-Picks _ _ (where_rows-All (is_runnable locked now) db.job))

-- A job that can be run is not locked.
runnable-unlocked :
    (i now : ℕ) (locked : List ℕ) (j : Job) → is_runnable (i ∷ locked) now j ≡ true → i ≢ j.id
unfolding any_row
runnable-unlocked i now locked j runs same =
    let held : (i == j.id) ≡ true = rw same (==-refl j.id) in ground (arith, held, runs)

-- Two workers never hold one job: while a worker's transaction holds the row that it has claimed, no
-- claim of another worker, which passes over the rows that are locked, returns a job of that id.
pub claims_are_disjoint :
    (locked : List ℕ) (now later : ℕ) (db seen : Database) {a b : Job} {db' seen' : Database}
    → claim_next locked now db ≡ (some a, db')
    → claim_next (a.id ∷ locked) later seen ≡ (some b, seen')
    → a.id ≢ b.id
claims_are_disjoint locked now later db seen {a} {b} first second same =
    let (j, runs, least, e, stored) =
      subst (Claimed (a.id ∷ locked) later seen) second
        (claim_next-Claimed (a.id ∷ locked) later seen) in
    runnable-unlocked a.id later locked j runs (same ∙ ap (λ x. x.id) e)
