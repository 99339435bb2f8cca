-- ===== src/Api/Chronicle.antt =====
-- Every route on case material, in any order: what it writes to the timeline and to the audit trail.
pub mod Appends
pub mod Routes
pub mod Rules
pub mod Keys
pub mod Integrity
use counselready.Common.{ℕ, suc, Option, none, some, List, [], ◌∷◌}
use counselready.Common.Text.{Text}
use counselready.Effects.Action.{
  Action, Result, ok, err, ◌>>=◌, pure, on_database, in_transaction_with_store,
}
use counselready.Effects.Library.{Library, Bytes, Moment}
use counselready.Models.Accounts.{UserAccount}
use counselready.Models.Cases.{CaseAuditEvent}
use counselready.Models.Timeline.{CaseEvent, CaseEventNote}
use counselready.Models.Database.{Database}
use counselready.Ingest.Pdf.{Answer, PdfReader}
use counselready.Ingest.Service.{ObjectStore, IngestDraw}
use counselready.Api.Cases.{
  CreateCaseRequest, create_case, list_cases, read_case, list_documents, read_document,
}
use counselready.Api.Events.{CreateEventRequest, list_events, create_event, create_note}
use counselready.Api.Uploads.{Upload, upload_document}

-- A request that the routes of cases, documents and timelines answer.
pub data Request : Type 0 where
  creates_case : CreateCaseRequest → ℕ → Request
  lists_cases : Request
  reads_case : ℕ → Request
  lists_documents : ℕ → Request
  reads_document : ℕ → ℕ → Request
  uploads : Upload → ℕ → IngestDraw → Request
  lists_events : ℕ → Request
  creates_event : CreateEventRequest → ℕ → ℕ → Request
  creates_note : Text → ℕ → ℕ → ℕ → Request

abbrev pub Files : Type 0
Files = Database × ObjectStore

-- The body of a response is left out.
abbrev pub answered : {A : Type 0} → Action Database A → Action Files (Unit {0})
answered m = do _ ← on_database m; pure tt

-- What all of the log's tables hold: the timelines, their notes and the trail.
pub record Log : Type 0 where
  pub events : List CaseEvent
  pub notes : List CaseEventNote
  pub trail : List CaseAuditEvent

abbrev pub log_of : Database → Log
log_of db = record {
  events = db.case_event;
  notes = db.case_event_note;
  trail = db.case_audit_event;
}

module _ (lib : Library) (int_of : Text → Option ℕ) (open_pdf : Bytes → Answer PdfReader) where
  unfoldable pub handle : Request → UserAccount → Moment → Action Files (Unit {0})
  handle (creates_case body uuid) account t = answered (create_case body account t uuid)
  handle lists_cases account t = answered (list_cases account)
  handle (reads_case i) account t = answered (read_case i account)
  handle (lists_documents i) account t = answered (list_documents i account)
  handle (reads_document d i) account t = answered (read_document d i account)
  handle (uploads form i draw) account t = do
    _ ← upload_document lib int_of open_pdf form i account draw
    pure tt
  handle (lists_events i) account t = answered (list_events i account)
  handle (creates_event body i uuid) account t = answered (create_event body i account t uuid)
  handle (creates_note body e i uuid) account t = answered (create_note body e i account t uuid)

  -- A request with its transaction.
  unfoldable pub serve : Request → UserAccount → Moment → Action Files (Unit {0})
  serve request account t = in_transaction_with_store (handle request account t)

pub record Call : Type 0 where
  pub request : Request
  pub account : UserAccount
  pub moment : Moment

module _ (lib : Library) (int_of : Text → Option ℕ) (open_pdf : Bytes → Answer PdfReader) where
  -- Calls one after the other, each in a transaction of its own.
  unfoldable pub serve_all : List Call → Files → List (Result (Unit {0})) × Files
  serve_all [] s = ([], s)
  serve_all (call ∷ calls) s =
      let (r, s') = serve lib int_of open_pdf call.request call.account call.moment s in
      let (rs, s'') = serve_all calls s' in (r ∷ rs, s'')

-- The accounts of the calls that were answered without an error, in order.
unfoldable pub actors : List Call → List (Result (Unit {0})) → List (Option ℕ)
actors [] rs = []
actors (call ∷ calls) [] = []
actors (call ∷ calls) (ok r ∷ rs) = some call.account.id ∷ actors calls rs
actors (call ∷ calls) (err e ∷ rs) = actors calls rs
