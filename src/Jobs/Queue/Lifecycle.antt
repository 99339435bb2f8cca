-- ===== src/Jobs/Queue/Lifecycle.antt =====
-- The lives of jobs: every row of the table, after any calls of the queue in any order.
use counselready.Common.{List, ℕ, Option, ◌≡◌}
use counselready.Common.Equality.{nat_eq}
use counselready.Common.Text.{Text}
use counselready.Effects.Action.{Result}
use counselready.Models.Jobs.{Job, JobKind}
use counselready.Models.Database.{Database, empty_database}
use counselready.Jobs.Queue.{enqueue, claim_next, mark_succeeded, mark_failed}

-- One call of the queue, whatever it returns. A caller may mark any job, in whatever state its row is,
-- also one that has no row.
pub data Step : Database → Database → Type 0 where
  enqueued :
      (kind : JobKind) (document_id now uuid : ℕ) {db db' : Database} {r : Result Job}
      → enqueue kind document_id now uuid db ≡ (r, db')
      → Step db db'
  claimed :
      (locked : List ℕ) (now : ℕ) {db db' : Database} {found : Option Job}
      → claim_next locked now db ≡ (found, db')
      → Step db db'
  marked_succeeded : (job : Job) {db : Database} → Step db (mark_succeeded job db)
  marked_failed :
      (job : Job) (error : Text) (now : ℕ) {db : Database} → Step db (mark_failed job error now db)

pub data Reachable : Database → Type 0 where
  start : Reachable empty_database
  step : {db db' : Database} → Reachable db → Step db db' → Reachable db'
