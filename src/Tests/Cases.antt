-- ===== src/Tests/Cases.antt =====
-- Cases, documents and timelines at concrete data.
use counselready.Common.{
  length, ◌≤◌, ℕ, ◌≡◌, refl, sym, subst, arith, some, none, Option, List, [], ◌∷◌, true, false, suc,
  zero, ◌+◌,
}
use counselready.Common.Equality.{list_dec, ◌==◌, nat_eq, list_eq, ℕ_discrete}
use counselready.Common.Table.{find_row, where_rows, add_row, any_row}
use counselready.Common.Text.{strip, Text, codes}
use counselready.Effects.Action.{Result, ok, err}
use counselready.Effects.Library.{Bytes}
use counselready.Models.Accounts.{UserAccount}
use counselready.Models.Cases.{Case, florida}
use counselready.Models.Timeline.{CaseEvent, alleged, user_asserted, exact}
use counselready.Models.Database.{Database}
use counselready.Ingest.Pdf
use counselready.Ingest.Pdf.{
  Answer, told, caught, Answer, has_text, extract_text_layer, unlock, read_open, read_pages,
  PdfReader,
}
use counselready.Ingest.Service.{
  ingest_document, ingest_branch, ingest_new, persist, add_job, add_pages, page_rows, ObjectStore,
  IngestDraw,
}
use counselready.Api.Cases.{
  audit, read_document, owned_case, DocumentResponse, case_not_found, read_case, list_cases,
  list_documents,
}
use counselready.Api.Cases.Ownership.{
  answers_depend_on_own_rows, own_case, own_document, documents_in, SamePages,
}
use counselready.Api.Events.{create_event, create_note, CreateEventRequest, list_events}
use counselready.Api.Events.Timeline.{Lists, list_events-Lists}
use counselready.Api.Uploads.{
  upload_to, read_upload, chunks_of, file_upload, ingest_source_of, Upload, upload_document,
}
use counselready.Api.Uploads.Outcome
use counselready.Api.Uploads.Outcome.{upload_document_files}
use counselready.Api.Isolation.{foreign_case_hidden}
use counselready.Api.Chronicle.{
  Call, reads_case, creates_event, creates_note, lists_events, uploads, serve_all, log_of,
}
use counselready.Api.Chronicle.Appends.{Appends, serve_all-Appends}
use counselready.Tests.World.{toy, alice, with_account, noon}
use counselready.Models.Documents.{
  needs_ocr, complete, unclassified, IngestSource, Document, DocumentPage, Passage,
}
use counselready.Ingest.Limits.{read_bounded, read_chunks, refuse_empty, default_max_upload_bytes}
use counselready.Jobs.Queue.{enqueue, enqueue_ocr}

abbrev pub bob : UserAccount
bob = record {
  id = 8;
  email = codes "c@d";
  display_name = none;
  active = true;
  password_hash = none;
}

abbrev pub matter : Case
matter = record {
  id = 5;
  owner_id = 7;
  title = codes "Case";
  jurisdiction = florida;
  court = none;
  case_number = none;
  created_at = 10;
}

abbrev pub elsewhere : Case
elsewhere = record matter { id = 6; owner_id = 8 }

abbrev entry : ℕ → ℕ → CaseEvent
entry i occurred_at = record {
  id = i;
  case_id = 5;
  kind = alleged;
  provenance = user_asserted;
  passage_id = none;
  recorded_by_user_id = some 7;
  occurred_at = occurred_at;
  date_precision = exact;
  summary = codes "Call";
  asserted_by_party_id = none;
  about_party_id = none;
  created_at = 20;
}

abbrev pub with_case : Database
with_case = record with_account {
  legal_case = matter ∷ [];
  case_event = entry 1 90 ∷ entry 2 80 ∷ [];
}

-- Another account has a case besides.
abbrev pub with_cases : Database
with_cases = record with_case { legal_case = elsewhere ∷ matter ∷ [] }

abbrev pub nothing_stored : ObjectStore
nothing_stored key = none

abbrev reader : PdfReader
reader = record {
  is_encrypted = some false;
  decrypt_empty = caught;
  page_count = told 2;
  extract_text = λ i. elim i [ zero ↦ told (codes "Order") | suc n ↦ caught ];
}

abbrev pub open_pdf : Bytes → Answer PdfReader
open_pdf bytes = told reader

abbrev pub int_of : Text → Option ℕ
int_of text = some 8

abbrev form : Upload
form = record {
  content_length = none;
  file = codes "%PDF-1.7";
  filename = some (codes "order.pdf");
  title = none;
  source = codes "upload";
}

abbrev drawn : IngestDraw
drawn = record { document_id = 40; job_id = 9; page_id = λ n. 100 + n; now = 1000 }

abbrev asserted : CreateEventRequest
asserted = record {
  summary = codes "Call";
  occurred_at = 70;
  kind = alleged;
  date_precision = exact;
}

-- An account asks, adds to its timeline and uploads; another asks for the same case.
abbrev pub calls : List Call
calls =
    record { request = reads_case 5; account = alice; moment = noon }
    ∷ record { request = creates_event asserted 5 3; account = alice; moment = noon }
    ∷ record { request = reads_case 5; account = bob; moment = noon }
    ∷ record { request = creates_note (codes "Late") 3 5 4; account = alice; moment = noon }
    ∷ record { request = uploads form 5 drawn; account = alice; moment = noon }
    ∷ record { request = lists_events 5; account = alice; moment = noon }
    ∷ []

serve_all-Appends_example :
    Appends calls
      (serve_all toy int_of open_pdf calls (with_case, nothing_stored)).0
      (log_of with_case)
      (log_of (serve_all toy int_of open_pdf calls (with_case, nothing_stored)).1.0)
serve_all-Appends_example = serve_all-Appends toy int_of open_pdf calls (with_case, nothing_stored)

-- A document of one page, with one passage, in each of two cases.
abbrev pub paper : ℕ → ℕ → Document
paper i case_id = record {
  id = i;
  case_id = case_id;
  title = codes "Order";
  kind = unclassified;
  ingest_source = IngestSource.upload;
  storage_key = codes "k";
  content_hash = codes "h";
  filed_at = none;
  served_at = none;
  page_count = 1;
  ocr_status = complete;
  created_at = 30;
}

abbrev pub sheet : ℕ → ℕ → DocumentPage
sheet i document_id = record {
  id = i;
  document_id = document_id;
  page_number = 1;
  text = codes "Order";
  ocr_confidence = none;
}

abbrev pub words : ℕ → ℕ → Passage
words i page_id = record {
  id = i;
  page_id = page_id;
  start_offset = 0;
  end_offset = 2;
  quote = codes "Or";
}

abbrev filed : Database
filed = record with_case {
  document = paper 40 5 ∷ [];
  document_page = sheet 100 40 ∷ [];
  passage = words 200 100 ∷ [];
}

-- Another account has a case with a document besides.
abbrev pub filed_twice : Database
filed_twice = record with_cases {
  document = paper 41 6 ∷ paper 40 5 ∷ [];
  document_page = sheet 101 41 ∷ sheet 100 40 ∷ [];
  passage = words 201 101 ∷ words 200 100 ∷ [];
}

same_cases :
    where_rows (λ c. c.owner_id == 7) filed.legal_case
    ≡ where_rows (λ c. c.owner_id == 7) filed_twice.legal_case
unfolding where_rows ℕ_discrete
same_cases = refl

same_documents :
    (c : Case)
    → own_case 5 alice filed ≡ some c
    → documents_in c.id filed ≡ documents_in c.id filed_twice
unfolding find_row where_rows ℕ_discrete
same_documents c found =
    let e : matter ≡ c = ground (arith, found) in
    subst (λ c. documents_in c.id filed ≡ documents_in c.id filed_twice) e refl

same_pages :
    (c : Case) (d : Document)
    → own_case 5 alice filed ≡ some c
    → own_document 40 c filed ≡ some d
    → SamePages filed filed_twice d.id
unfolding find_row where_rows ℕ_discrete
same_pages c d found held =
    let e : matter ≡ c = ground (arith, found) in
    let held' = subst (λ c. own_document 40 c filed ≡ some d) (sym e) held in
    let e' : paper 40 5 ≡ d = ground (arith, held') in
    subst (λ d. SamePages filed filed_twice d.id) e' (refl, (refl, tt))

answers_depend_on_own_rows_example :
    ((list_cases alice filed).0 ≡ (list_cases alice filed_twice).0)
    × ((read_case 5 alice filed).0 ≡ (read_case 5 alice filed_twice).0)
    × ((list_documents 5 alice filed).0 ≡ (list_documents 5 alice filed_twice).0)
    × ((read_document 40 5 alice filed).0 ≡ (read_document 40 5 alice filed_twice).0)
answers_depend_on_own_rows_example =
    answers_depend_on_own_rows alice filed filed_twice 5 40 same_cases same_documents same_pages

not_bobs : own_case 5 bob with_cases ≡ none
unfolding find_row ℕ_discrete
not_bobs = refl

foreign_case_hidden_example :
    (read_case 5 bob with_cases ≡ (err case_not_found, with_cases))
    × (list_documents 5 bob with_cases ≡ (err case_not_found, with_cases))
    × (read_document 40 5 bob with_cases ≡ (err case_not_found, with_cases))
    × (upload_document toy int_of open_pdf form 5 bob drawn (with_cases, nothing_stored)
        ≡ (err case_not_found, (with_cases, nothing_stored)))
    × (list_events 5 bob with_cases ≡ (err case_not_found, with_cases))
    × (create_event asserted 5 bob noon 3 with_cases ≡ (err case_not_found, with_cases))
    × (create_note (codes "Late") 1 5 bob noon 3 with_cases ≡ (err case_not_found, with_cases))
foreign_case_hidden_example =
    foreign_case_hidden toy int_of open_pdf 5 40 1 3 bob noon asserted (codes "Late") form drawn
      with_cases nothing_stored not_bobs

list_events-Lists_example : Lists 5 alice with_case (list_events 5 alice with_case)
list_events-Lists_example = list_events-Lists 5 alice with_case

abbrev landed : Result DocumentResponse × (Database × ObjectStore)
landed = upload_document toy int_of open_pdf form 5 alice drawn (with_case, nothing_stored)

abbrev response : DocumentResponse
response = record {
  id = 40;
  title = codes "order.pdf";
  kind = unclassified;
  page_count = 2;
  ocr_status = needs_ocr;
  filed_at = none;
}

lands :
    upload_document toy int_of open_pdf form 5 alice drawn (with_case, nothing_stored)
    ≡ (ok response, (landed.1.0, landed.1.1))
unfolding upload_document owned_case find_row ℕ_discrete upload_to read_upload read_bounded
    read_chunks chunks_of refuse_empty ingest_source_of list_eq file_upload ingest_document
    ingest_branch ingest_new extract_text_layer unlock read_open read_pages persist audit list_dec
    add_row any_row strip Pdf.needs_ocr add_job add_pages page_rows enqueue enqueue_ocr
lands = refl

upload_document_files_example :
    (c : Case) × (own_case 5 alice with_case ≡ some c)
    × (source : IngestSource) × (ingest_source_of form.source ≡ some source)
    × (length form.file ≤ default_max_upload_bytes)
    × Outcome.Files toy int_of open_pdf form alice drawn with_case nothing_stored c form.file source
        (ok response, (landed.1.0, landed.1.1))
upload_document_files_example =
    upload_document_files toy int_of open_pdf form alice drawn with_case nothing_stored 5 lands
