-- ===== src/Jobs/Queue.antt =====
-- backend/app/jobs/queue.py: enqueueing, claiming, and what follows a run. The rows that another
-- worker's transaction holds are the list `locked` of their ids: `skip_locked` passes them over.
-- Of rows that are due at the same time the query may return any; the model returns the first.
pub mod Backoff
pub mod Claims
pub mod Rows
pub mod Lifecycle
pub mod GivingUp
use counselready.Common.{
  [], ◌∷◌, List, ℕ, suc, ◌+◌, ◌-◌, ◌*◌, ◌^◌, Bool, not, ◌&&◌, Option, none, some, leb, ltb, min,
  take, if◌then◌else◌,
}
use counselready.Common.Equality.{◌==◌, nat_eq}
use counselready.Common.Table.{where_rows, find_row, any_row, update_rows}
use counselready.Common.Text.{Text}
use counselready.Effects.Action.{Action, ok, ◌>>=◌, ◌>>◌, pure, insert_unique}
use counselready.Models.Jobs.{
  Job, JobKind, ocr_document, queued, running, succeeded, failed, is_queued, max_attempts,
}
use counselready.Models.Database.{Database}

abbrev pub backoff_base : ℕ
backoff_base = 30

abbrev pub backoff_cap : ℕ
backoff_cap = 30 * 60

abbrev pub max_backoff_doublings : ℕ
max_backoff_doublings = 16

-- `max(0, attempts - 1)` is the subtraction that stops at 0.
unfoldable pub backoff_for : ℕ → ℕ
backoff_for attempts =
    let doublings = min (attempts - 1) max_backoff_doublings in
    let delay = backoff_base * 2 ^ doublings in if ltb delay backoff_cap then delay else backoff_cap

abbrev pub job_by_id : ℕ → Database → Option Job
job_by_id i db = find_row (λ j. j.id == i) db.job

-- The flush of an assignment to the attributes of one job.
abbrev pub update_job : ℕ → (Job → Job) → Database → Database
update_job i f db = record db { job = update_rows (λ j. j.id == i) f db.job }

abbrev pub new_job : JobKind → ℕ → ℕ → ℕ → Job
new_job kind document_id now uuid = record {
  id = uuid;
  kind = kind;
  status = queued;
  document_id = document_id;
  attempts = 0;
  run_after = now;
  last_error = none;
}

abbrev pub insert_job : Job → Action Database (Unit {0})
insert_job job =
    insert_unique (λ j. j.id == job.id) job (λ db. db.job) (λ rows db. record db { job = rows })

unfoldable pub enqueue : JobKind → ℕ → ℕ → ℕ → Action Database Job
enqueue kind document_id now uuid = do
  let job = new_job kind document_id now uuid
  insert_job job
  pure job

-- The conditions of the claim query on a row that no other transaction holds.
abbrev pub is_runnable : List ℕ → ℕ → Job → Bool
is_runnable locked now j =
    is_queued j.status && leb j.run_after now && not (any_row (λ i. i == j.id) locked)

-- The earlier of two rows, the first on a tie.
unfoldable pub earlier : Job → Option Job → Job
earlier j none = j
earlier j (some k) = if leb j.run_after k.run_after then j else k

-- `order_by(Job.run_after).limit(1)`
unfoldable pub oldest : List Job → Option Job
oldest [] = none
oldest (j ∷ js) = some (earlier j (oldest js))

abbrev pub started : Job → Job
started j = record j { status = running; attempts = suc j.attempts }

unfoldable pub claim : Option Job → Database → Option Job × Database
claim none db = (none, db)
claim (some job) db = (some (started job), update_job job.id started db)

unfoldable pub claim_next : List ℕ → ℕ → Database → Option Job × Database
claim_next locked now db = claim (oldest (where_rows (is_runnable locked now) db.job)) db

abbrev pub done : Job → Job
done j = record j { status = succeeded; last_error = none }

unfoldable pub mark_succeeded : Job → Database → Database
mark_succeeded job = update_job job.id done

-- What a failed run leaves of the job.
unfoldable pub rescheduled : Text → ℕ → Job → Job
rescheduled error now j =
    let noted : Job = record j { last_error = some (take 120 error) } in
    if leb max_attempts j.attempts
    then record noted { status = failed }
    else record noted { status = queued; run_after = now + backoff_for j.attempts }

unfoldable pub mark_failed : Job → Text → ℕ → Database → Database
mark_failed job error now = update_job job.id (rescheduled error now)

unfoldable pub enqueue_ocr : ℕ → ℕ → ℕ → Action Database Job
enqueue_ocr document_id now uuid = enqueue ocr_document document_id now uuid
