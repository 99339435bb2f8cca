-- ===== src/Api/Isolation.antt =====
-- A case of somebody else, or of nobody, as the routes answer it.
use counselready.Common.{ℕ, Option, none, ◌≡◌, arith}
use counselready.Common.Text.{Text}
use counselready.Effects.Action.{err}
use counselready.Effects.Library.{Library, Bytes, Moment}
use counselready.Models.Accounts.{UserAccount}
use counselready.Models.Database.{Database}
use counselready.Ingest.Pdf.{Answer, PdfReader}
use counselready.Ingest.Service.{ObjectStore, IngestDraw}
use counselready.Api.Cases.{
  case_not_found, owned_document, read_case, list_documents, read_document,
}
use counselready.Api.Cases.Ownership.{own_case, owned_case-missing}
use counselready.Api.Events.{CreateEventRequest, list_events, create_event, create_note}
use counselready.Api.Uploads.{Upload, upload_document}

-- A case that the account does not own is answered by every route that names it with one and the same
-- 404, whether the case exists or not, and nothing is written, neither to the database nor to the store.
pub foreign_case_hidden :
    (lib : Library) (int_of : Text → Option ℕ) (open_pdf : Bytes → Answer PdfReader)
    (i document_id event_id uuid : ℕ) (account : UserAccount) (t : Moment)
    (body : CreateEventRequest) (note : Text) (form : Upload) (draw : IngestDraw) (db : Database)
    (store : ObjectStore)
    → own_case i account db ≡ none
    → (read_case i account db ≡ (err case_not_found, db))
      × (list_documents i account db ≡ (err case_not_found, db))
      × (read_document document_id i account db ≡ (err case_not_found, db))
      × (upload_document lib int_of open_pdf form i account draw (db, store)
          ≡ (err case_not_found, (db, store)))
      × (list_events i account db ≡ (err case_not_found, db))
      × (create_event body i account t uuid db ≡ (err case_not_found, db))
      × (create_note note event_id i account t uuid db ≡ (err case_not_found, db))
unfolding read_case list_documents owned_document read_document upload_document list_events
    create_event create_note
foreign_case_hidden lib int_of open_pdf i document_id event_id uuid account t body note form draw db
      store missing =
    let stop = owned_case-missing i account db missing in
    (
      ground (arith, stop),
      ground (arith, stop),
      ground (arith, stop),
      ground (arith, stop),
      ground (arith, stop),
      ground (arith, stop),
      ground (arith, stop),
    )
