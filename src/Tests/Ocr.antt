-- ===== src/Tests/Ocr.antt =====
-- OCR runs at concrete data.
use counselready.Common.{◌≡◌, refl, some, none, Option, [], ◌∷◌}
use counselready.Common.Equality.{nat_eq, ℕ_discrete}
use counselready.Common.Table.{find_row, any_row, count_rows, update_rows}
use counselready.Common.Text.{Text, codes, strip}
use counselready.Effects.Action.{ok}
use counselready.Effects.Library.{Bytes}
use counselready.Models.Documents.{
  Document, DocumentPage, unclassified, upload, needs_ocr, complete,
}
use counselready.Models.Database.{Database, empty_database}
use counselready.Ingest.Ocr.{
  Reading, read, run_ocr_for_document, write_pages, engine_pages, fill_page, by_number, all_read,
}
use counselready.Ingest.Ocr.Run.{
  Statuses, page_by_id, run_ocr_for_document-Statuses, run_ocr_for_document_keeps,
}
use counselready.Tests.World.{toy}

abbrev order : Document
order = record {
  id = 40;
  case_id = 5;
  title = codes "Order";
  kind = unclassified;
  ingest_source = upload;
  storage_key = codes "k";
  content_hash = codes "h";
  filed_at = none;
  served_at = none;
  page_count = 2;
  ocr_status = needs_ocr;
  created_at = 100;
}

abbrev native : DocumentPage
native = record {
  id = 1;
  document_id = 40;
  page_number = 1;
  text = codes "It is ordered";
  ocr_confidence = none;
}

abbrev scan : DocumentPage
scan = record { id = 2; document_id = 40; page_number = 2; text = codes " "; ocr_confidence = none }

abbrev scanned : Database
scanned = record empty_database { document = order ∷ []; document_page = native ∷ scan ∷ [] }

abbrev get : Text → Option Bytes
get key = some (codes "bytes")

-- The engine reads both pages, the second one twice.
abbrev engine : Bytes → Reading
engine bytes = read (
    record { page_number = 1; text = codes "It is 0rdered"; confidence = 700000 }
    ∷ record { page_number = 2; text = codes "smudge"; confidence = 100000 }
    ∷ record { page_number = 2; text = codes "by the court"; confidence = 900000 }
    ∷ [])

runs : run_ocr_for_document toy.unicode 40 get engine scanned ≡ (
  ok 1,
  record empty_database {
    document = record order { ocr_status = complete } ∷ [];
    document_page =
        native ∷ record scan { text = codes "by the court"; ocr_confidence = some 900000 } ∷ [];
  },
)
unfolding run_ocr_for_document write_pages engine_pages fill_page by_number all_read find_row
    any_row count_rows update_rows strip ℕ_discrete
runs = refl

run_ocr_for_document-Statuses_example :
    Statuses toy.unicode 40 order (run_ocr_for_document toy.unicode 40 get engine scanned)
unfolding find_row ℕ_discrete
run_ocr_for_document-Statuses_example =
    run_ocr_for_document-Statuses toy.unicode 40 get engine scanned order refl

run_ocr_for_document_keeps_example :
    page_by_id 1 (run_ocr_for_document toy.unicode 40 get engine scanned).1 ≡ some native
unfolding find_row ℕ_discrete strip
run_ocr_for_document_keeps_example =
    run_ocr_for_document_keeps toy.unicode 40 get engine scanned 1 native refl refl
