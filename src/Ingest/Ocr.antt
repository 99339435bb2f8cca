-- ===== src/Ingest/Ocr.antt =====
-- backend/app/ingest/ocr.py. The store's `get` and the engine's `read` are parameters: `none` is any
-- exception of the store, and the engine's exceptions are those that the program tells apart.
pub mod Run
use counselready.Common.{
  ℕ, Bool, true, false, not, ◌&&◌, Option, none, some, List, [], ◌∷◌, if◌then◌else◌, is_some,
}
use counselready.Common.Equality.{◌==◌, nat_eq}
use counselready.Common.Table.{find_row, any_row, count_rows, update_rows}
use counselready.Common.Text.{Text, Unicode}
use counselready.Effects.Exceptions.{
  ocr_failure, OcrErrorClass, document_not_found, document_bytes_missing, ocr_engine_unavailable,
  ocr_engine_failed,
}
use counselready.Effects.Action.{Action, ok, err, ◌>>=◌, ◌>>◌, pure, raise, gets, or_raise, modify}
use counselready.Effects.Library.{Bytes}
use counselready.Models.Documents.{
  Document, DocumentPage, OcrStatus, processing, complete, needs_ocr,
}
use counselready.Models.Database.{Database}
use counselready.Ingest.Pdf.{has_text}

pub record OcrPage : Type 0 where
  pub page_number : ℕ
  pub text : Text
  pub confidence : ℕ

-- How `engine.read` ends.
pub data Reading : Type 0 where
  read : List OcrPage → Reading
  unavailable broken : Reading

abbrev pub document_by_id : ℕ → Database → Option Document
document_by_id i db = find_row (λ d. d.id == i) db.document

abbrev pub set_status : ℕ → OcrStatus → Database → Database
set_status i s db = record db {
  document = update_rows (λ d. d.id == i) (λ d. record d { ocr_status = s }) db.document;
}

-- The last page of a number: a later one takes an earlier one's place in the dictionary.
abbrev pub later : Option OcrPage → OcrPage → ℕ → Option OcrPage
later (some q) p n = some q
later none p n = if p.page_number == n then some p else none

unfoldable pub by_number : List OcrPage → ℕ → Option OcrPage
by_number [] n = none
by_number (p ∷ ps) n = later (by_number ps n) p n

abbrev pub filled_with : DocumentPage → Option OcrPage → DocumentPage
filled_with row none = row
filled_with row (some p) = record row { text = p.text; ocr_confidence = some p.confidence }

-- The classes under which the engine's exceptions are raised again.
unfoldable pub engine_pages : Reading → Action Database (List OcrPage)
engine_pages (read pages) = pure pages
engine_pages unavailable = raise (ocr_failure ocr_engine_unavailable)
engine_pages broken = raise (ocr_failure ocr_engine_failed)

module _ (u : Unicode) where
  -- The body of the loop over the stored pages.
  unfoldable pub fill_page : List OcrPage → DocumentPage → DocumentPage
  fill_page pages row =
      if has_text u row.text then row else filled_with row (by_number pages row.page_number)

  abbrev pub is_filled : List OcrPage → DocumentPage → Bool
  is_filled pages row = not (has_text u row.text) && is_some (by_number pages row.page_number)

  abbrev pub fill_pages : ℕ → List OcrPage → Database → Database
  fill_pages i pages db = record db {
    document_page = update_rows (λ r. r.document_id == i) (fill_page pages) db.document_page;
  }

  -- `all(page.text.strip() for page in stored_pages)`
  unfoldable pub all_read : ℕ → Database → Bool
  all_read i db =
      not (any_row (λ r. (r.document_id == i) && not (has_text u r.text)) db.document_page)

  abbrev pub status_of : Bool → OcrStatus
  status_of true = complete
  status_of false = needs_ocr

  -- What is written once the engine has answered.
  unfoldable pub write_pages : ℕ → List OcrPage → Action Database ℕ
  write_pages i pages = do
    filled ←
        gets (λ db. count_rows (λ r. (r.document_id == i) && is_filled pages r) db.document_page)
    modify (fill_pages i pages)
    everything ← gets (all_read i)
    modify (set_status i (status_of everything))
    pure filled

  unfoldable pub run_ocr_for_document :
      ℕ → (Text → Option Bytes) → (Bytes → Reading) → Action Database ℕ
  run_ocr_for_document i get engine = do
    found ← gets (document_by_id i)
    document ← or_raise found (ocr_failure document_not_found)
    modify (set_status i processing)
    bytes ← or_raise (get document.storage_key) (ocr_failure document_bytes_missing)
    pages ← engine_pages (engine bytes)
    write_pages i pages
