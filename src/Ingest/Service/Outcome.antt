-- ===== src/Ingest/Service/Outcome.antt =====
-- What an ingest leaves in the database and in the store.
use counselready.Common.{
  ◌++◌, ℕ, ◌+◌, Bool, true, false, none, some, List, [], ◌∷◌, length, length-append, ◌≡◌, ◌⊎◌, inl,
  inr, refl, sym, ap, ◌∙◌, subst, arith, if◌then◌else◌, Option-cases, Bool-cases,
}
use counselready.Common.Equality.{◌==◌, nat_eq, list_eq, ==-refl}
use counselready.Common.Table.{add_row, any_row}
use counselready.Effects.Exceptions.{duplicate_document, integrity_error}
use counselready.Effects.Action.{on_database, Result, ok, err, ◌>>=◌}
use counselready.Effects.Library.{Library, Bytes}
use counselready.Models.Documents.{Document}
use counselready.Models.Jobs.{ocr_document}
use counselready.Models.Database.{Database}
use counselready.Jobs.Queue.{enqueue_ocr, enqueue, new_job}
use counselready.Ingest.Pdf
use counselready.Ingest.Pdf.{
  Answer, PdfReader, ExtractedPage, ExtractionResult, extract_text_layer, default_max_pages,
  default_max_chars_per_page,
}
use counselready.Ingest.Pdf.TextLayer.{extract_text_layer-Extracts, Extracts}
use counselready.Ingest.Service.{
  add_job, add_pages, ObjectStore, IngestRequest, IngestDraw, put, key_of, new_document, page_rows,
  persist, ingest_new, ingest_branch, ingest_document, existing_document,
}
use counselready.Effects.Action.Laws.{>>=-ok, >>=-err}

length-page_rows :
    (document_id : ℕ) (page_id : ℕ → ℕ) (ps : List ExtractedPage)
    → length (page_rows document_id page_id ps) ≡ length ps
unfolding page_rows
length-page_rows document_id page_id [] = refl
length-page_rows document_id page_id (p ∷ ps) =
    omega (arith, length-page_rows document_id page_id ps)

add_job-cases :
    (b : Bool) (document_id : ℕ) (draw : IngestDraw) (db : Database)
    → (add_job b document_id draw db ≡ (
      ok tt,
      record db {
        job =
            if b
            then add_row (new_job ocr_document document_id draw.now draw.job_id) db.job
            else db.job;
      },
    ))
      ⊎ (add_job b document_id draw db ≡ (err integrity_error, db))
unfolding add_job enqueue_ocr enqueue
add_job-cases false document_id draw db = inl refl
add_job-cases true document_id draw db =
    elim (Bool-cases (any_row (λ j. j.id == draw.job_id) db.job)) [
      | inl taken ↦ inr (ground arith)
      | inr free ↦ inl (ground arith)
    ]

Extracts-state :
    {S : Type 0} (open_pdf : Bytes → Answer PdfReader) (bytes : Bytes) (max_pages max_chars : ℕ)
    (s : S) (r : Result ExtractionResult × S)
    → Extracts open_pdf bytes max_pages max_chars s r
    → r.1 ≡ s
Extracts-state open_pdf bytes max_pages max_chars s (ok result, s') (reader, magic, opened, y) = y.6
Extracts-state open_pdf bytes max_pages max_chars s (err e, s') h = h.1

module _ (lib : Library) (request : IngestRequest) (draw : IngestDraw) where
  -- The rows that an ingest adds to the database.
  abbrev pub Persists : ExtractionResult → Database → Result Document × Database → Type 0
  Persists extraction db (ok d, db') =
      (d ≡ new_document lib request extraction draw)
      × (db'.document ≡ add_row d db.document)
      × (db'.job ≡ (
          if Pdf.needs_ocr lib.unicode extraction
          then add_row (new_job ocr_document d.id draw.now draw.job_id) db.job
          else db.job))
      × (length db'.document_page ≡ length db.document_page + d.page_count)
      × (db' ≡ record db {
        document = add_row d db.document;
        job =
            if Pdf.needs_ocr lib.unicode extraction
            then add_row (new_job ocr_document d.id draw.now draw.job_id) db.job
            else db.job;
        document_page = db.document_page ++ page_rows d.id draw.page_id extraction.pages;
      })
  Persists extraction db (err e, db') = e ≡ integrity_error

  persist-Persists :
      (extraction : ExtractionResult) (db : Database)
      → Persists extraction db (persist lib request extraction draw db)
  unfolding persist add_pages
  persist-Persists extraction db =
      let d = new_document lib request extraction draw in
      let db1 : Database = record db { document = add_row d db.document } in
      let needed = Pdf.needs_ocr lib.unicode extraction in
      elim (add_job-cases needed d.id draw db1) [
        | inl e ↦
            subst (Persists extraction db)
              (sym
                (>>=-ok (add_job needed d.id draw) (λ _. add_pages d draw extraction.pages) db1 e))
              (
                refl,
                refl,
                refl,
                length-append db.document_page (page_rows d.id draw.page_id extraction.pages)
                    ∙ ap (λ n. length db.document_page + n)
                        (length-page_rows d.id draw.page_id extraction.pages),
                refl,
              )
        | inr e ↦
            subst (Persists extraction db)
              (sym
                (>>=-err (add_job needed d.id draw) (λ _. add_pages d draw extraction.pages) db1 e))
              refl
      ]

  module _ (open_pdf : Bytes → Answer PdfReader) where
    abbrev stored : ObjectStore → ObjectStore
    stored = put (key_of lib request) request.bytes

    -- The result of the extraction in an ingest.
    abbrev extracted : Database → ObjectStore → Result ExtractionResult
    extracted db store =
        let s : Database × ObjectStore = (db, stored store) in
        (extract_text_layer open_pdf request.bytes default_max_pages default_max_chars_per_page s).0

    -- What an ingest says of the database and the store.
    abbrev pub Ingests :
        Database × ObjectStore → Result Document × (Database × ObjectStore) → Type 0
    Ingests (db, store) (ok d, (db', store')) =
        (extraction : ExtractionResult) × (extracted db store ≡ ok extraction)
        × (existing_document lib open_pdf request draw db ≡ none)
        × Persists extraction db (ok d, db')
        × (store' (key_of lib request) ≡ some request.bytes)
    Ingests (db, store) (err e, (db', store')) =
        ((d : Document) × (existing_document lib open_pdf request draw db ≡ some d)
          × (e ≡ duplicate_document d.id)
          × (db' ≡ db)
          × (store' ≡ store))
        ⊎ (existing_document lib open_pdf request draw db ≡ none)
          × (store' (key_of lib request) ≡ some request.bytes)

    persisted-Ingests :
        (extraction : ExtractionResult) (db : Database) (store : ObjectStore)
        (r : Result Document × Database)
        → existing_document lib open_pdf request draw db ≡ none
        → extracted db store ≡ ok extraction
        → Persists extraction db r
        → Ingests (db, store) (r.0, (r.1, stored store))
    persisted-Ingests extraction db store (ok d, db') fresh x h =
        (extraction, x, fresh, h, rw (==-refl (key_of lib request)) refl)
    persisted-Ingests extraction db store (err e, db') fresh x h =
        inr (fresh, rw (==-refl (key_of lib request)) refl)

    extracted-Ingests :
        (db : Database) (store : ObjectStore)
        (r : Result ExtractionResult × (Database × ObjectStore))
        → existing_document lib open_pdf request draw db ≡ none
        → extracted db store ≡ r.0
        → r.1 ≡ (db, stored store)
        → Ingests
            (db, store)
            (((λ s. r) >>= λ extraction. on_database (persist lib request extraction draw))
              (db, stored store))
    extracted-Ingests db store (ok extraction, s') fresh x kept =
        subst (λ s. Ingests (db, store) (on_database (persist lib request extraction draw) s))
          (sym kept)
          (persisted-Ingests extraction db store (persist lib request extraction draw db) fresh x
            (persist-Persists extraction db))
    extracted-Ingests db store (err e, s') fresh x kept =
        subst (λ s. Ingests (db, store) (err e, s)) (sym kept)
          (inr (fresh, rw (==-refl (key_of lib request)) refl))

    ingest_new-Ingests :
        (db : Database) (store : ObjectStore)
        → existing_document lib open_pdf request draw db ≡ none
        → Ingests (db, store) (ingest_new lib open_pdf request draw (db, store))
    unfolding ingest_new
    ingest_new-Ingests db store fresh =
        let s1 : Database × ObjectStore = (db, stored store) in
        extracted-Ingests db store
          (extract_text_layer open_pdf request.bytes default_max_pages default_max_chars_per_page
            s1)
          fresh refl
          (Extracts-state open_pdf request.bytes default_max_pages default_max_chars_per_page s1 _ (
            extract_text_layer-Extracts open_pdf request.bytes default_max_pages
              default_max_chars_per_page s1))

    -- An ingest of bytes that the case holds already is refused with the id of the document that has
    -- them, and changes nothing. Any other stores the bytes under the document's key; if it returns,
    -- the text was extracted, one document has been added, with a row for each of its pages, and one
    -- job for it just when it needs OCR, and nothing else in the database has changed. If it
    -- raises, the bytes stand in the store all the same.
    pub ingest_document-Ingests :
        (db : Database) (store : ObjectStore)
        → Ingests (db, store) (ingest_document lib open_pdf request draw (db, store))
    unfolding ingest_document ingest_branch
    ingest_document-Ingests db store =
        elim (Option-cases (existing_document lib open_pdf request draw db)) [
          | inl fresh ↦ rw (fresh, ingest_document) (ingest_new-Ingests db store fresh)
          | inr (d, found) ↦ rw (found, ingest_document) (inl (d, found, refl, refl, refl))
        ]
