-- ===== src/Tests/Queue.antt =====
-- The job queue at concrete data.
use counselready.Common.{ℕ, List, arith, ◌∷◌, [], ◌≡◌, refl, arith, some, [], ◌∷◌}
use counselready.Common.Equality.{nat_eq, ℕ_discrete}
use counselready.Common.Table.{update_rows, where_rows, any_row}
use counselready.Models.Jobs.{Job, ocr_document}
use counselready.Models.Database.{Database, Database, empty_database}
use counselready.Jobs.Queue.{
  backoff_for, backoff_for, new_job, started, claim, claim_next, oldest, earlier,
}
use counselready.Jobs.Queue.Claims.{Claimed, claim_next-Claimed}
use counselready.Jobs.Queue.GivingUp.{IsPatient, Stands, fail_rounds, fail_rounds_give_up}
use counselready.Common.Text.{Text, codes}

abbrev first : Job
first = new_job ocr_document 40 100 1

abbrev second : Job
second = new_job ocr_document 41 90 2

abbrev two_jobs : Database
two_jobs = record empty_database { job = first ∷ second ∷ [] }

abbrev taken : Database
taken = record empty_database { job = first ∷ started second ∷ [] }

claims_first :
    claim_next (2 ∷ []) 100 two_jobs
    ≡ (some (started first), record empty_database { job = started first ∷ second ∷ [] })
unfolding claim_next claim oldest earlier where_rows any_row update_rows ℕ_discrete
claims_first = refl

claim_next-Claimed_example : Claimed [] 100 two_jobs (claim_next [] 100 two_jobs)
claim_next-Claimed_example = claim_next-Claimed [] 100 two_jobs

abbrev alone : Database
alone = record empty_database { job = first ∷ [] }

abbrev failures : List (Text × ℕ)
failures =
    (codes "e", 100)
    ∷ (codes "e", 5000)
    ∷ (codes "e", 10000)
    ∷ (codes "e", 15000)
    ∷ (codes "e", 20000)
    ∷ []

patient : IsPatient 100 0 failures
unfolding backoff_for
patient = (omega arith, (omega arith, (omega arith, (omega arith, (omega arith, tt)))))

fail_rounds_give_up_example : Stands 5 (fail_rounds failures alone)
fail_rounds_give_up_example =
    fail_rounds_give_up failures alone first refl refl (omega arith) patient (omega arith)
