-- ===== src/Ingest/Ocr/Run.antt =====
-- What an OCR run leaves.
use counselready.Common.{
  ℕ, true, Option, some, List, ◌≡◌, inl, inr, refl, ap, ◌∙◌, arith, if◌then◌else◌, Option-cases,
}
use counselready.Common.Equality.{◌==◌, nat_eq}
use counselready.Common.Table.{find_row, find_row-update_rows, find_row_sound}
use counselready.Common.Text.{Text, Unicode}
use counselready.Effects.Exceptions.{
  ocr_engine_unavailable, ocr_engine_failed, document_bytes_missing, ocr_failure, OcrErrorClass,
}
use counselready.Effects.Action.{or_raise, Result, ok, err, ◌>>=◌}
use counselready.Effects.Library.{Bytes}
use counselready.Models.Documents.{Document, DocumentPage, OcrStatus, processing}
use counselready.Models.Database.{Database}
use counselready.Ingest.Pdf.{has_text}
use counselready.Ingest.Ocr.{
  OcrPage, Reading, read, unavailable, broken, document_by_id, set_status, fill_page, fill_pages,
  all_read, status_of, write_pages, run_ocr_for_document, engine_pages,
}

abbrev pub page_by_id : ℕ → Database → Option DocumentPage
page_by_id i db = find_row (λ p. p.id == i) db.document_page

document_by_id-set_status :
    (i : ℕ) (s : OcrStatus) (db : Database) (d : Document)
    → document_by_id i db ≡ some d
    → document_by_id i (set_status i s db) ≡ some (record d { ocr_status = s })
document_by_id-set_status i s db d found =
    find_row-update_rows (λ r. r.id == i) (λ r. r.id == i) (λ r. record r { ocr_status = s })
      (λ r. refl) db.document
    ∙ rw (found, find_row_sound (λ r. r.id == i) db.document found) refl

module _ (u : Unicode) where
  fill_page-id : (pages : List OcrPage) (r : DocumentPage) → (fill_page u pages r).id ≡ r.id
  unfolding fill_page
  fill_page-id pages r = ground arith

  page_by_id-fill :
      (i k : ℕ) (pages : List OcrPage) (db : Database) (p : DocumentPage)
      → page_by_id k db ≡ some p
      → page_by_id k (fill_pages u i pages db)
        ≡ some (if p.document_id == i then fill_page u pages p else p)
  page_by_id-fill i k pages db p found =
      find_row-update_rows (λ r. r.id == k) (λ r. r.document_id == i) (fill_page u pages)
        (λ r. rw (fill_page-id pages r) refl) db.document_page
      ∙ rw found refl

  -- What a run says of the document `d`.
  abbrev pub Statuses : ℕ → Document → Result ℕ × Database → Type 0
  Statuses i d (ok filled, db') =
      document_by_id i db' ≡ some (record d { ocr_status = status_of u (all_read u i db') })
  Statuses i d (err e, db') =
      (class : OcrErrorClass) × (e ≡ ocr_failure class)
      × (document_by_id i db' ≡ some (record d { ocr_status = processing }))

  write_pages-Statuses :
      (i : ℕ) (pages : List OcrPage) (d : Document) (s : OcrStatus) (db : Database)
      → document_by_id i db ≡ some (record d { ocr_status = s })
      → Statuses i d (write_pages u i pages db)
  unfolding write_pages all_read
  write_pages-Statuses i pages d s db found =
      document_by_id-set_status i (status_of u (all_read u i (fill_pages u i pages db)))
        (fill_pages u i pages db) (record d { ocr_status = s }) found

  write_pages-keeps :
      (i k : ℕ) (pages : List OcrPage) (p : DocumentPage) (db : Database)
      → has_text u p.text ≡ true
      → page_by_id k db ≡ some p
      → page_by_id k (write_pages u i pages db).1 ≡ some p
  unfolding write_pages fill_page
  write_pages-keeps i k pages p db full there =
      page_by_id-fill i k pages db p there ∙ ap some (ground (arith, full))

  module _ (i : ℕ) (get : Text → Option Bytes) (engine : Bytes → Reading) (db : Database) where
    run_found :
        (d : Document)
        → document_by_id i db ≡ some d
        → run_ocr_for_document u i get engine db
          ≡ (or_raise (get d.storage_key) (ocr_failure document_bytes_missing) >>= λ bytes.
                engine_pages (engine bytes) >>= λ pages. write_pages u i pages)
              (set_status i processing db)
    unfolding run_ocr_for_document
    run_found d found = rw (found, run_ocr_for_document) refl

    engine_pages-Statuses :
        (d : Document) (reading : Reading) (marked : Database)
        → document_by_id i marked ≡ some (record d { ocr_status = processing })
        → Statuses i d ((engine_pages reading >>= λ pages. write_pages u i pages) marked)
    unfolding engine_pages
    engine_pages-Statuses d (read pages) marked found =
        write_pages-Statuses i pages d processing marked found
    engine_pages-Statuses d unavailable marked found = (ocr_engine_unavailable, refl, found)
    engine_pages-Statuses d broken marked found = (ocr_engine_failed, refl, found)

    engine_pages-keeps :
        (reading : Reading) (k : ℕ) (p : DocumentPage) (marked : Database)
        → has_text u p.text ≡ true
        → page_by_id k marked ≡ some p
        → page_by_id k ((engine_pages reading >>= λ pages. write_pages u i pages) marked).1 ≡ some p
    unfolding engine_pages
    engine_pages-keeps (read pages) k p marked full there =
        write_pages-keeps i k pages p marked full there
    engine_pages-keeps unavailable k p marked full there = there
    engine_pages-keeps broken k p marked full there = there

    -- A run of a document that exists returns with it marked as complete if every page of it has text
    -- by then, and as still needing OCR if not; or it raises one of the classes of the closed
    -- vocabulary, with the document marked as being processed.
    pub run_ocr_for_document-Statuses :
        (d : Document)
        → document_by_id i db ≡ some d
        → Statuses i d (run_ocr_for_document u i get engine db)
    run_ocr_for_document-Statuses d found =
        let marked = document_by_id-set_status i processing db d found in
        rw (run_found d found) (elim (Option-cases (get d.storage_key)) [
          | inl lost ↦ rw lost (document_bytes_missing, refl, marked)
          | inr (bytes, got) ↦
              rw got (engine_pages-Statuses d (engine bytes) (set_status i processing db) marked)
        ])

    -- A run never changes a page that has text, whatever the store and the engine return and however
    -- the run ends.
    pub run_ocr_for_document_keeps :
        (k : ℕ) (p : DocumentPage)
        → has_text u p.text ≡ true
        → page_by_id k db ≡ some p
        → page_by_id k (run_ocr_for_document u i get engine db).1 ≡ some p
    unfolding run_ocr_for_document
    run_ocr_for_document_keeps k p full there = elim (Option-cases (document_by_id i db)) [
      | inl missing ↦ rw (missing, run_ocr_for_document) there
      | inr (d, found) ↦ rw (run_found d found) (elim (Option-cases (get d.storage_key)) [
        | inl lost ↦ rw lost there
        | inr (bytes, got) ↦
            rw got (engine_pages-keeps (engine bytes) k p (set_status i processing db) full there)
      ])
    ]
