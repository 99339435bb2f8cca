-- ===== src/Jobs/Queue/GivingUp.antt =====
-- A job whose runs all fail.
use counselready.Common.{
  ltb, ℕ, suc, ◌+◌, ◌≤◌, ◌<◌, true, false, ◌≡◌, ◌⊎◌, inl, inr, refl, sym, subst, arith, Option,
  none, some, List, [], ◌∷◌, length, leb, Bool-cases,
}
use counselready.Common.Equality.{nat_eq, ==-refl}
use counselready.Common.Table.{where_rows, update_rows, any_row}
use counselready.Common.Text.{Text}
use counselready.Models.Jobs.{Job, queued, failed, max_attempts}
use counselready.Models.Database.{Database}
use counselready.Jobs.Queue.{
  backoff_for, oldest, earlier, claim, claim_next, started, rescheduled, mark_failed,
}

-- A worker's turn at a time, whose run fails with an error.
abbrev after_claim : Option Job × Database → Text → ℕ → Database
after_claim (none, db) error now = db
after_claim (some job, db) error now = mark_failed job error now db

unfoldable pub fail_round : Text × ℕ → Database → Database
fail_round (error, now) db = after_claim (claim_next [] now db) error now

unfoldable pub fail_rounds : List (Text × ℕ) → Database → Database
fail_rounds [] db = db
fail_rounds (round ∷ rounds) db = fail_rounds rounds (fail_round round db)

-- Every turn comes when the job is due: at first at its own time, then after the delay of its attempts.
abbrev pub IsPatient : ℕ → ℕ → List (Text × ℕ) → Type 0
IsPatient due attempts [] = Unit
IsPatient due attempts ((error, now) ∷ rounds) =
    (due ≤ now) × IsPatient (now + backoff_for (suc attempts)) (suc attempts) rounds

fail_round-alone :
    (error : Text) (now : ℕ) (db : Database) (j : Job)
    → db.job ≡ j ∷ []
    → j.status ≡ queued
    → j.run_after ≤ now
    → (fail_round (error, now) db).job ≡ rescheduled error now (started j) ∷ []
unfolding fail_round claim_next mark_failed where_rows any_row oldest earlier claim update_rows
fail_round-alone error now db j alone waits due =
    let due_now : leb j.run_after now ≡ true = ground arith in
    let same = ==-refl j.id in rw (alone, waits, due_now, same) (rw same refl)

rescheduled-queued :
    (error : Text) (now : ℕ) (j : Job)
    → suc j.attempts < max_attempts
    → let k = rescheduled error now (started j) in
      (k.status ≡ queued)
      × (k.attempts ≡ suc j.attempts)
      × (k.run_after ≡ now + backoff_for (suc j.attempts))
unfolding rescheduled
rescheduled-queued error now j early =
    let left : leb max_attempts (suc j.attempts) ≡ false = ground arith in
    rw left (refl, refl, refl)

rescheduled-failed :
    (error : Text) (now : ℕ) (j : Job)
    → suc j.attempts ≡ max_attempts
    → let k = rescheduled error now (started j) in (k.status ≡ failed) × (k.attempts ≡ max_attempts)
unfolding rescheduled
rescheduled-failed error now j last =
    let spent : leb max_attempts (suc j.attempts) ≡ true = ground arith in rw spent (refl, last)

-- What stands after some failing turns: the job alone, queued with its attempts or given up.
abbrev pub Stands : ℕ → Database → Type 0
Stands attempts db =
    (k : Job) × (db.job ≡ k ∷ [])
    × (k.attempts ≡ attempts)
    × ((attempts < max_attempts) × (k.status ≡ queued)
        ⊎ (attempts ≡ max_attempts) × (k.status ≡ failed))

no_round_left :
    (n : ℕ) (rounds : List (Text × ℕ)) (db : Database) (k : Job)
    → suc n ≡ max_attempts
    → n + suc (length rounds) ≤ max_attempts
    → db.job ≡ k ∷ []
    → k.status ≡ failed
    → k.attempts ≡ max_attempts
    → Stands (n + suc (length rounds)) (fail_rounds rounds db)
unfolding fail_rounds
no_round_left n [] db k last few alone given_up all =
    (k, alone, omega arith, inr (omega arith, given_up))
no_round_left n (round ∷ rounds) db k last few alone given_up all = absurd (omega arith)

-- A job that waits alone in the queue with runs left, and whose every run fails, is queued again until
-- it has had five runs and is then given up, if a worker's turns come when it is due and are no more
-- than the runs that are left.
pub fail_rounds_give_up :
    (rounds : List (Text × ℕ)) (db : Database) (j : Job)
    → db.job ≡ j ∷ []
    → j.status ≡ queued
    → j.attempts < max_attempts
    → IsPatient j.run_after j.attempts rounds
    → j.attempts + length rounds ≤ max_attempts
    → Stands (j.attempts + length rounds) (fail_rounds rounds db)
unfolding fail_rounds
fail_rounds_give_up [] db j alone waits early patient few =
    (j, alone, omega arith, inl (omega arith, waits))
fail_rounds_give_up ((error, now) ∷ rounds) db j alone waits early (due, patient) few =
    let db1 = fail_round (error, now) db in
    let k = rescheduled error now (started j) in
    let alone1 = fail_round-alone error now db j alone waits due in
    elim (Bool-cases (ltb (suc j.attempts) max_attempts)) [
      | inl more ↦
          let (waits1, n, later) = rescheduled-queued error now j (ground arith) in
          let patient1 : IsPatient k.run_after k.attempts rounds =
            subst (λ m. IsPatient k.run_after m rounds) (sym n)
              (subst (λ d. IsPatient d (suc j.attempts) rounds) (sym later) patient) in
          subst (λ m. Stands m (fail_rounds rounds db1)) (omega arith)
            (fail_rounds_give_up rounds db1 k alone1 waits1 (ground (arith)) patient1
              (ground (arith)))
      | inr last ↦
          let spent : suc j.attempts ≡ max_attempts = ground arith in
          let (given_up, all) = rescheduled-failed error now j spent in
          no_round_left j.attempts rounds db1 k spent few alone1 given_up all
    ]
