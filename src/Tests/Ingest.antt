-- ===== src/Tests/Ingest.antt =====
-- Ingests at concrete data.
use counselready.Common.{◌+◌, zero, suc, false, some, none}
use counselready.Common.Equality.{nat_eq, list_eq}
use counselready.Common.Text.{codes}
use counselready.Effects.Library.{Bytes}
use counselready.Models.Documents.{unclassified, upload}
use counselready.Models.Database.{empty_database}
use counselready.Ingest.Pdf.{Answer, told, caught, Answer, PdfReader}
use counselready.Ingest.Service.{ObjectStore, IngestRequest, IngestDraw, ingest_document}
use counselready.Ingest.Service.Outcome.{Ingests, ingest_document-Ingests}
use counselready.Tests.World.{toy}

abbrev reader : PdfReader
reader = record {
  is_encrypted = some false;
  decrypt_empty = caught;
  page_count = told 2;
  extract_text = λ i. elim i [ zero ↦ told (codes "Order") | suc n ↦ caught ];
}

abbrev open_pdf : Bytes → Answer PdfReader
open_pdf bytes = told reader

abbrev request : IngestRequest
request = record {
  case_id = 5;
  title = codes "Order";
  ingest_source = upload;
  bytes = codes "%PDF-1.7";
  kind = unclassified;
}

abbrev drawn : IngestDraw
drawn = record { document_id = 40; job_id = 9; page_id = λ n. 100 + n; now = 1000 }

abbrev nothing_stored : ObjectStore
nothing_stored key = none

ingest_document-Ingests_example :
    Ingests toy request drawn open_pdf
      (empty_database, nothing_stored)
      (ingest_document toy open_pdf request drawn (empty_database, nothing_stored))
ingest_document-Ingests_example =
    ingest_document-Ingests toy request drawn open_pdf empty_database nothing_stored
