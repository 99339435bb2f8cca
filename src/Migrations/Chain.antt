-- ===== src/Migrations/Chain.antt =====
-- The revisions as a type, each with what its migration does and the revision it follows.
use counselready.Common.{Option, none, some, List, [], ◌∷◌}
use counselready.Migrations.Schema.{Database}
use counselready.Migrations.Operations.{Op, ◌>>=◌}
use counselready.Migrations.Run.{run}
use counselready.Migrations.Revisions.CaseFile
use counselready.Migrations.Revisions.TimelineEvents
use counselready.Migrations.Revisions.NeedsOcr
use counselready.Migrations.Revisions.Accounts
use counselready.Migrations.Revisions.Mfa
use counselready.Migrations.Revisions.AuditTrail
use counselready.Migrations.Revisions.Passkeys
use counselready.Migrations.Revisions.JobQueue
use counselready.Migrations.Revisions.TimelineNotes

pub data Revision : Type 0 where
  case_file : Revision
  timeline_events : Revision
  needs_ocr_status : Revision
  accounts : Revision
  mfa : Revision
  audit_trail : Revision
  passkeys : Revision
  job_queue : Revision
  timeline_notes : Revision

-- `down_revision`
unfoldable pub down_revision : Revision → Option Revision
down_revision case_file = none
down_revision timeline_events = some case_file
down_revision needs_ocr_status = some timeline_events
down_revision accounts = some needs_ocr_status
down_revision mfa = some accounts
down_revision audit_trail = some mfa
down_revision passkeys = some audit_trail
down_revision job_queue = some passkeys
down_revision timeline_notes = some job_queue

abbrev pub upgrade : Revision → List Op
upgrade case_file = CaseFile.upgrade
upgrade timeline_events = TimelineEvents.upgrade
upgrade needs_ocr_status = NeedsOcr.upgrade
upgrade accounts = Accounts.upgrade
upgrade mfa = Mfa.upgrade
upgrade audit_trail = AuditTrail.upgrade
upgrade passkeys = Passkeys.upgrade
upgrade job_queue = JobQueue.upgrade
upgrade timeline_notes = TimelineNotes.upgrade

abbrev pub downgrade : Revision → List Op
downgrade case_file = CaseFile.downgrade
downgrade timeline_events = TimelineEvents.downgrade
downgrade needs_ocr_status = NeedsOcr.downgrade
downgrade accounts = Accounts.downgrade
downgrade mfa = Mfa.downgrade
downgrade audit_trail = AuditTrail.downgrade
downgrade passkeys = Passkeys.downgrade
downgrade job_queue = JobQueue.downgrade
downgrade timeline_notes = TimelineNotes.downgrade

-- `alembic upgrade` from the base to a revision: its chain of predecessors, the oldest first.
unfoldable pub migrate : List Revision → Database → Option Database
migrate [] d = some d
migrate (r ∷ rs) d = do after ← run (upgrade r) d; migrate rs after

abbrev pub base : Database
base = record { enums = λ n. none; tables = []; indexes = []; rows = λ n. [] }

abbrev pub revisions : List Revision
revisions =
    case_file ∷ timeline_events ∷ needs_ocr_status ∷ accounts ∷ mfa ∷ audit_trail ∷ passkeys
    ∷ job_queue ∷ timeline_notes ∷ []
