-- ===== src/Api/Uploads.antt =====
-- The upload route of backend/app/api/cases.py. Its state is the database and the object store.
pub mod Streams
pub mod Outcome
use counselready.Common.{
  ℕ, zero, suc, ◌*◌, Bool, Option, none, some, List, [], ◌∷◌, length, take, drop, if◌then◌else◌,
}
use counselready.Common.Equality.{◌==◌, nat_eq, list_eq}
use counselready.Common.Text.{Text, codes, is_digits}
use counselready.Effects.Exceptions.{
  Exn, http, upload_too_large, empty_upload, duplicate_document, not_a_pdf, encrypted_pdf,
  too_many_pages, unreadable_pdf, other_error,
}
use counselready.Effects.Action.{
  Action, Result, ok, err, ◌>>=◌, ◌>>◌, pure, raise, or_raise, catch, on_database,
}
use counselready.Effects.Library.{Library, Bytes}
use counselready.Models.Accounts.{UserAccount}
use counselready.Models.Cases.{Case, document_uploaded, pages}
use counselready.Models.Documents.{Document, IngestSource, upload, camera, email, unclassified}
use counselready.Models.Database.{Database}
use counselready.Ingest.Limits.{read_bounded, default_max_upload_bytes}
use counselready.Ingest.Pdf.{Answer, PdfReader}
use counselready.Ingest.Service.{ObjectStore, IngestRequest, IngestDraw, ingest_document}
use counselready.Api.Cases.{owned_case, audit, DocumentResponse, document_response}

abbrev pub upload_chunk : ℕ
upload_chunk = 64 * 1024

-- `_stream`: reads of `chunk` bytes until one returns nothing. Each read returns a byte at least, so
-- as many rounds as there are bytes are enough.
unfoldable pub chunks_of : ℕ → ℕ → Bytes → List Bytes
chunks_of zero chunk bytes = []
chunks_of (suc rounds) chunk [] = []
chunks_of (suc rounds) chunk (b ∷ bytes) =
    take chunk (b ∷ bytes) ∷ chunks_of rounds chunk (drop chunk (b ∷ bytes))

abbrev pub stream : Bytes → List Bytes
stream bytes = chunks_of (length bytes) upload_chunk bytes

-- `declared and declared.isdigit()`, and then `int(declared)`, which may raise a ValueError
abbrev pub declared_length :
    {S : Type 0} → Library → (Text → Option ℕ) → Option Text → Action S (Option ℕ)
declared_length lib int_of none = pure none
declared_length lib int_of (some declared) =
    if is_digits lib.unicode declared
    then (do n ← or_raise (int_of declared) other_error; pure (some n))
    else pure none

-- A bounded read of the whole stream, apart from the state of the request.
unfoldable pub read_upload : {S : Type 0} → Option ℕ → Bytes → Action S Bytes
read_upload declared bytes s =
    ((read_bounded default_max_upload_bytes declared (stream bytes)).0, s)

unfoldable pub read_error : Exn → Exn
read_error (upload_too_large n) = http 413 "That file is larger than the upload limit." none
read_error empty_upload = http 422 "The file is empty." none
read_error e = e

-- `IngestSource(source)`
unfoldable pub ingest_source_of : Text → Option IngestSource
ingest_source_of source =
    if source == codes "upload"
    then some upload
    else if source == codes "camera"
    then some camera
    else if source == codes "email"
    then some email
    else none

unfoldable pub ingest_error : Exn → Exn
ingest_error (duplicate_document existing_id) =
    http 409 "This document is already in the case." (some existing_id)
ingest_error not_a_pdf = http 422 "That file is not a PDF." none
ingest_error encrypted_pdf =
    http 422 "That PDF is password-protected. Remove the password and try again." none
ingest_error (too_many_pages n) = http 422 "That document has more pages than we can process." none
ingest_error unreadable_pdf = http 422 "That PDF could not be read." none
ingest_error e = e

abbrev pub or_else_text : Option Text → Text → Text
or_else_text none other = other
or_else_text (some []) other = other
or_else_text (some (c ∷ s)) other = c ∷ s

-- `title or (file.filename or "Untitled document")`
abbrev pub title_of : Option Text → Option Text → Text
title_of title filename = or_else_text title (or_else_text filename (codes "Untitled document"))

-- The parts of the form, and the header.
pub record Upload : Type 0 where
  pub content_length : Option Text
  pub file : Bytes
  pub filename : Option Text
  pub title : Option Text
  pub source : Text

module _ (lib : Library) (int_of : Text → Option ℕ) (open_pdf : Bytes → Answer PdfReader) where
  abbrev pub request_of : Upload → Case → IngestSource → Bytes → IngestRequest
  request_of form case source bytes = record {
    case_id = case.id;
    title = title_of form.title form.filename;
    ingest_source = source;
    bytes = bytes;
    kind = unclassified;
  }

  -- The ingest and its audit, once the body and the source have been read.
  unfoldable pub file_upload :
      Upload
      → UserAccount
      → IngestDraw
      → Case
      → Bytes
      → IngestSource
      → Action (Database × ObjectStore) DocumentResponse
  file_upload form account draw case bytes source = do
    document ←
        catch (ingest_document lib open_pdf (request_of form case source bytes) draw)
          (λ e. raise (ingest_error e))
    on_database
        (audit account (some case.id) document_uploaded (some ((pages, document.page_count) ∷ [])))
    pure (document_response document)

  unfoldable pub upload_to :
      Upload → UserAccount → IngestDraw → Case → Action (Database × ObjectStore) DocumentResponse
  upload_to form account draw case = do
    declared ← declared_length lib int_of form.content_length
    bytes ← catch (read_upload declared form.file) (λ e. raise (read_error e))
    source ← or_raise (ingest_source_of form.source) (http 422 "Unknown upload source." none)
    file_upload form account draw case bytes source

  unfoldable pub upload_document :
      Upload → ℕ → UserAccount → IngestDraw → Action (Database × ObjectStore) DocumentResponse
  upload_document form case_id account draw = do
    case ← on_database (owned_case case_id account)
    upload_to form account draw case
