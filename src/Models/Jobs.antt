-- ===== src/Models/Jobs.antt =====
-- The rows of the job queue: backend/app/jobs/models.py. The payload of the one kind of job holds
-- the document's id.
use counselready.Common.{ℕ, Option, Bool, true, false}
use counselready.Common.Text.{Text}

abbrev pub max_attempts : ℕ
max_attempts = 5

pub data JobKind : Type 0 where
  ocr_document : JobKind

pub data JobStatus : Type 0 where
  queued running succeeded failed : JobStatus

pub record Job : Type 0 where
  pub id : ℕ
  pub kind : JobKind
  pub status : JobStatus
  pub document_id : ℕ
  pub attempts : ℕ
  pub run_after : ℕ
  pub last_error : Option Text

abbrev pub is_queued : JobStatus → Bool
is_queued queued = true
is_queued _ = false
