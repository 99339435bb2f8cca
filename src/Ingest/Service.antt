-- ===== src/Ingest/Service.antt =====
-- backend/app/ingest/service.py, with the keys of backend/app/storage/base.py. The object store is a
-- function from keys to bytes, as its protocol describes it: `put` sets the bytes of one key.
pub mod Outcome
use counselready.Common.{
  ℕ, suc, Bool, true, false, ◌&&◌, Option, none, some, List, [], ◌∷◌, ◌++◌, length, if◌then◌else◌,
}
use counselready.Common.Equality.{◌==◌, nat_eq, list_eq}
use counselready.Common.Table.{find_row, add_row}
use counselready.Common.Text.{Text, codes}
use counselready.Effects.Exceptions.{duplicate_document}
use counselready.Effects.Action.{
  on_database, Action, Result, ok, err, ◌>>=◌, ◌>>◌, pure, raise, gets, modify, when,
}
use counselready.Effects.Library.{Library, Bytes}
use counselready.Models.Documents.{
  Document, DocumentPage, DocumentKind, IngestSource, OcrStatus, complete, needs_ocr,
}
use counselready.Models.Database.{Database}
use counselready.Jobs.Queue.{enqueue_ocr}
use counselready.Ingest.Pdf
use counselready.Ingest.Pdf.{
  Answer, PdfReader, ExtractedPage, ExtractionResult, extract_text_layer, default_max_pages,
  default_max_chars_per_page,
}

abbrev pub ObjectStore : Type 0
ObjectStore = Text → Option Bytes

abbrev pub put : Text → Bytes → ObjectStore → ObjectStore
put key bytes store k = if k == key then some bytes else store k

abbrev pub storage_key : Text → Text → Text
storage_key case_id digest = codes "cases/" ++ (case_id ++ (codes "/documents/" ++ digest))

pub record IngestRequest : Type 0 where
  pub case_id : ℕ
  pub title : Text
  pub ingest_source : IngestSource
  pub bytes : Bytes
  pub kind : DocumentKind

-- The uuids that the database draws for the rows, and its time.
pub record IngestDraw : Type 0 where
  pub document_id : ℕ
  pub job_id : ℕ
  pub page_id : ℕ → ℕ
  pub now : ℕ

abbrev pub same_document : ℕ → Text → Document → Bool
same_document case_id digest d = (d.case_id == case_id) && (d.content_hash == digest)

abbrev pub status_on_ingest : Bool → OcrStatus
status_on_ingest true = needs_ocr
status_on_ingest false = complete

-- The rows of the extracted pages.
unfoldable pub page_rows : ℕ → (ℕ → ℕ) → List ExtractedPage → List DocumentPage
page_rows document_id page_id [] = []
page_rows document_id page_id (p ∷ ps) =
    record {
      id = page_id p.page_number;
      document_id = document_id;
      page_number = p.page_number;
      text = p.text;
      ocr_confidence = none;
    }
    ∷ page_rows document_id page_id ps

-- `if extraction.needs_ocr: await enqueue_ocr(…)`
unfoldable pub add_job : Bool → ℕ → IngestDraw → Action Database (Unit {0})
add_job false document_id draw = pure tt
add_job true document_id draw = do _ ← enqueue_ocr document_id draw.now draw.job_id; pure tt

unfoldable pub add_pages : Document → IngestDraw → List ExtractedPage → Action Database Document
add_pages document draw pages = do
  modify (λ db. record db {
    document_page = db.document_page ++ page_rows document.id draw.page_id pages;
  })
  pure document

module _ (lib : Library) where
  abbrev pub content_hash : Bytes → Text
  content_hash bytes = lib.sha256_hex bytes

  abbrev pub key_of : IngestRequest → Text
  key_of request = storage_key (lib.uuid_str request.case_id) (content_hash request.bytes)

  abbrev pub new_document : IngestRequest → ExtractionResult → IngestDraw → Document
  new_document request extraction draw = record {
    id = draw.document_id;
    case_id = request.case_id;
    title = request.title;
    kind = request.kind;
    ingest_source = request.ingest_source;
    storage_key = key_of request;
    content_hash = content_hash request.bytes;
    filed_at = none;
    served_at = none;
    page_count = length extraction.pages;
    ocr_status = status_on_ingest (Pdf.needs_ocr lib.unicode extraction);
    created_at = draw.now;
  }

  -- The rows of a document whose text has been extracted: the document, its job, its pages.
  unfoldable pub persist : IngestRequest → ExtractionResult → IngestDraw → Action Database Document
  persist request extraction draw = do
    let document = new_document request extraction draw
    modify (λ db. record db { document = add_row document db.document })
    add_job (Pdf.needs_ocr lib.unicode extraction) document.id draw
    add_pages document draw extraction.pages

  module _ (open_pdf : Bytes → Answer PdfReader) (request : IngestRequest) (draw : IngestDraw) where
    -- What follows once no document of the case has the same bytes: the bytes are stored first.
    unfoldable pub ingest_new : Action (Database × ObjectStore) Document
    ingest_new = do
      modify (λ (db, store). (db, put (key_of request) request.bytes store))
      extraction ←
          extract_text_layer open_pdf request.bytes default_max_pages default_max_chars_per_page
      on_database (persist request extraction draw)

    unfoldable pub ingest_branch : Option Document → Action (Database × ObjectStore) Document
    ingest_branch none = ingest_new
    ingest_branch (some existing) = raise (duplicate_document existing.id)

    abbrev pub existing_document : Database → Option Document
    existing_document db =
        find_row (same_document request.case_id (content_hash request.bytes)) db.document

    unfoldable pub ingest_document : Action (Database × ObjectStore) Document
    ingest_document = do
      existing ← gets (λ (db, store). existing_document db)
      ingest_branch existing
