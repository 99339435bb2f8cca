-- ===== src/Api/Uploads/Outcome.antt =====
-- What an accepted upload leaves.
use counselready.Common.{
  arith, ℕ, ◌≤◌, ◌≡◌, refl, sym, ap, ◌∙◌, subst, Option, none, some, [], ◌∷◌, length,
}
use counselready.Common.Table.{add_row}
use counselready.Common.Text.{Text}
use counselready.Effects.Exceptions.{http}
use counselready.Effects.Action.{
  Action, Result, ok, err, ◌>>=◌, ◌>>◌, pure, raise, or_raise, catch, on_database,
}
use counselready.Effects.Action.Laws.{catch-inv, or_raise-inv, >>=-inv}
use counselready.Effects.Library.{Library, Bytes}
use counselready.Models.Accounts.{UserAccount}
use counselready.Models.Cases.{Case, document_uploaded, pages}
use counselready.Models.Documents.{Document, IngestSource}
use counselready.Models.Database.{Database}
use counselready.Ingest.Limits.{default_max_upload_bytes}
use counselready.Ingest.Pdf.{Answer, PdfReader}
use counselready.Ingest.Service.{ObjectStore, IngestDraw, ingest_document}
use counselready.Ingest.Service.Outcome.{Ingests, ingest_document-Ingests}
use counselready.Api.Cases.{audit, audit_row, owned_case, DocumentResponse, document_response}
use counselready.Api.Cases.Ownership.{own_case}
use counselready.Api.Uploads.{
  Upload, request_of, read_upload, read_error, declared_length, ingest_source_of, ingest_error,
  file_upload, upload_to, upload_document,
}
use counselready.Api.Uploads.Streams.{read_upload_whole}

module _ (lib : Library) (int_of : Text → Option ℕ) (open_pdf : Bytes → Answer PdfReader)
    (form : Upload) (account : UserAccount) (draw : IngestDraw) (db : Database)
    (store : ObjectStore) where
  -- The document `d` of the given bytes has been ingested, and then the upload has been audited.
  abbrev pub Files :
      Case → Bytes → IngestSource → Result DocumentResponse × (Database × ObjectStore) → Type 0
  Files c bytes source (ok response, (db', store')) =
      (d : Document) × (mid : Database) × Ingests lib
        (request_of lib int_of open_pdf form c source bytes) draw open_pdf (db, store)
        (ok d, (mid, store'))
      × (db' ≡ record mid {
        case_audit_event =
            add_row
              (audit_row account (some c.id) document_uploaded (some ((pages, d.page_count) ∷ [])))
              mid.case_audit_event;
      })
      × (response ≡ document_response d)
  Files c bytes source (err e, s') = Unit

  ingested-Files :
      (c : Case) (bytes : Bytes) (source : IngestSource)
      (r : Result Document × (Database × ObjectStore))
      → Ingests lib (request_of lib int_of open_pdf form c source bytes) draw open_pdf (db, store) r
      → Files c bytes source (
          (catch (λ s. r) (λ e. raise (ingest_error e)) >>= λ document. do
            on_database (
                audit account
                  (some c.id)
                  document_uploaded
                  (some ((pages, document.page_count) ∷ [])))
            pure (document_response document))
            (db, store))
  unfolding audit
  ingested-Files c bytes source (ok d, (mid, store')) h = (d, mid, h, refl, refl)
  ingested-Files c bytes source (err e, (mid, store')) h = tt

  file_upload-Files :
      (c : Case) (bytes : Bytes) (source : IngestSource)
      → Files c bytes source
          (file_upload lib int_of open_pdf form account draw c bytes source (db, store))
  unfolding file_upload
  file_upload-Files c bytes source =
      ingested-Files c bytes source
        (ingest_document lib open_pdf (request_of lib int_of open_pdf form c source bytes) draw
          (db, store))
        (ingest_document-Ingests lib (request_of lib int_of open_pdf form c source bytes) draw
          open_pdf db store)

  declared_length-kept :
      (s : Database × ObjectStore) {n : Option ℕ} {t : Database × ObjectStore}
      → declared_length lib int_of form.content_length s ≡ (ok n, t)
      → t ≡ s
  declared_length-kept s h = ground arith

  read_whole :
      (declared : Option ℕ) (s : Database × ObjectStore) {bytes : Bytes}
      {t : Database × ObjectStore}
      → catch (read_upload declared form.file) (λ e. raise (read_error e)) s ≡ (ok bytes, t)
      → (bytes ≡ form.file) × (length form.file ≤ default_max_upload_bytes) × (t ≡ s)
  unfolding read_upload
  read_whole declared s h =
      let whole = catch-inv (read_upload declared form.file) read_error s h in
      let (same, low, high) = read_upload_whole declared form.file s whole in
      (same, subst (λ b. length b ≤ default_max_upload_bytes) same high, sym (ap (λ x. x.1) whole))

  owned-inv :
      (i : ℕ) {c : Case} {t : Database × ObjectStore}
      → on_database (owned_case i account) (db, store) ≡ (ok c, t)
      → (own_case i account db ≡ some c) × (t ≡ (db, store))
  unfolding owned_case
  owned-inv i h = ground arith

  abbrev Lands : Case → Result DocumentResponse × (Database × ObjectStore) → Type 0
  Lands c r =
      (source : IngestSource) × (ingest_source_of form.source ≡ some source)
      × (length form.file ≤ default_max_upload_bytes)
      × Files c form.file source r

  upload_to-Lands :
      (c : Case) {response : DocumentResponse} {s' : Database × ObjectStore}
      → upload_to lib int_of open_pdf form account draw c (db, store) ≡ (ok response, s')
      → Lands c (ok response, s')
  unfolding upload_to
  upload_to-Lands c {response} {s'} h =
      let s : Database × ObjectStore = (db, store) in
      let read : Option ℕ → Action (Database × ObjectStore) Bytes =
        λ declared. catch (read_upload declared form.file) (λ e. raise (read_error e)) in
      let source_of : Action (Database × ObjectStore) IngestSource =
        or_raise (ingest_source_of form.source) (http 422 "Unknown upload source." none) in
      let file = file_upload lib int_of open_pdf form account draw c in
      let (declared, s1, e1, h1) =
        >>=-inv (declared_length lib int_of form.content_length)
          (λ declared. read declared >>= λ bytes. source_of >>= λ source. file bytes source) s h in
      let (bytes, s2, e2, h2) =
        >>=-inv (read declared) (λ bytes. source_of >>= λ source. file bytes source) s1 h1 in
      let (source, s3, e3, h3) = >>=-inv source_of (λ source. file bytes source) s2 h2 in
      let k1 : s1 ≡ s = declared_length-kept s e1 in
      let (whole, small, k2) = read_whole declared s1 e2 in
      let (found, k3) =
        or_raise-inv (ingest_source_of form.source) (http 422 "Unknown upload source." none) s2
          e3 in
      (
        source,
        found,
        small,
        subst (λ b. Files c b source (ok response, s')) whole
            (subst (Files c bytes source)
              (subst (λ t. file bytes source t ≡ (ok response, s')) (k3 ∙ k2 ∙ k1) h3)
              (file_upload-Files c bytes source)),
      )

  -- An accepted upload was made to a case of the account: the document ingested has the bytes of the
  -- whole file, within the limit, and the trail has one row more, with its page count.
  pub upload_document_files :
      (i : ℕ) {response : DocumentResponse} {db' : Database} {store' : ObjectStore}
      → upload_document lib int_of open_pdf form i account draw (db, store)
        ≡ (ok response, (db', store'))
      → (c : Case) × (own_case i account db ≡ some c)
        × (source : IngestSource) × (ingest_source_of form.source ≡ some source)
        × (length form.file ≤ default_max_upload_bytes)
        × Files c form.file source (ok response, (db', store'))
  unfolding upload_document
  upload_document_files i {response} {db'} {store'} h =
      let s : Database × ObjectStore = (db, store) in
      let (c, s1, e, k) =
        >>=-inv (on_database (owned_case i account))
          (upload_to lib int_of open_pdf form account draw) s h in
      let (found, kept) = owned-inv i e in
      let y = upload_to-Lands c (
        subst
          (λ t. upload_to lib int_of open_pdf form account draw c t ≡ (ok response, (db', store')))
          kept k) in
      (c, found, y.0, y.1, y.2, y.3)
