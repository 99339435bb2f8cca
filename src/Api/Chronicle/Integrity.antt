-- ===== src/Api/Chronicle/Integrity.antt =====
-- The foreign keys over any sequence of requests.
use counselready.Common.{
  ℕ, ◌≡◌, refl, sym, ap, ◌∙◌, subst, arith, true, Option, some, List, [], ◌∷◌, ◌++◌, All,
}
use counselready.Common.Equality.{◌==◌, nat_eq, ==-refl}
use counselready.Common.Table.{add_row, any_row}
use counselready.Common.Text.{Text}
use counselready.Effects.Action.{Result, ok, err, ◌>>=◌, pure, in_transaction_with_store}
use counselready.Effects.Library.{Library, Bytes, Moment}
use counselready.Models.Accounts.{UserAccount}
use counselready.Models.Cases.{document_uploaded, pages}
use counselready.Models.Documents.{Document}
use counselready.Models.Database.{Database}
use counselready.Models.Jobs.{Job}
use counselready.Models.Cascade.{ForeignKeys, refers}
use counselready.Models.Cascade.Growth.{any_row-one, any_row-append_right, refers-one}
use counselready.Models.Cascade.Growth.Tables.{add_documents-ForeignKeys, add_pages-ForeignKeys}
use counselready.Ingest.Pdf.{Answer, PdfReader, ExtractedPage}
use counselready.Ingest.Service.{ObjectStore, IngestDraw, page_rows}
use counselready.Api.Cases.{DocumentResponse}
use counselready.Api.Uploads.{Upload, upload_document}
use counselready.Api.Uploads.Outcome.{upload_document_files}
use counselready.Api.Chronicle.{
  Request, creates_case, lists_cases, reads_case, lists_documents, reads_document, uploads,
  lists_events, creates_event, creates_note, Files, answered, handle, serve, Call, serve_all,
}
use counselready.Api.Chronicle.Keys.{
  IsKnown, Holds, audited-ForeignKeys, own_case-points, create_case-Holds, list_cases-Holds,
  read_case-Holds, list_documents-Holds, read_document-Holds, list_events-Holds, create_event-Holds,
  create_note-Holds,
}

page_rows-refers :
    (document_id : ℕ) (page_id : ℕ → ℕ) (ps : List ExtractedPage) (ds : List Document)
    → any_row (λ d. d.id == document_id) ds ≡ true
    → refers (λ p. some p.document_id) (λ d. d.id) (page_rows document_id page_id ps) ds ≡ true
unfolding page_rows refers
page_rows-refers document_id page_id [] ds there = refl
page_rows-refers document_id page_id (p ∷ ps) ds there =
    ground (arith, page_rows-refers document_id page_id ps ds there)

-- A document of a case that is there, its pages, and any jobs.
ingested-ForeignKeys :
    (db : Database) (d : Document) (page_id : ℕ → ℕ) (ps : List ExtractedPage) (jobs : List Job)
    → ForeignKeys db
    → any_row (λ c. c.id == d.case_id) db.legal_case ≡ true
    → ForeignKeys (record db {
      document = add_row d db.document;
      job = jobs;
      document_page = db.document_page ++ page_rows d.id page_id ps;
    })
unfolding add_row
ingested-ForeignKeys db d page_id ps jobs keys there =
    let grown =
      add_documents-ForeignKeys db keys (d ∷ [])
        (refers-one (λ d. some d.case_id) (λ c. c.id) d db.legal_case there) in
    let filed =
      any_row-append_right (λ x. x.id == d.id) db.document (d ∷ [])
        (any_row-one (λ x. x.id == d.id) d (==-refl d.id)) in
    add_pages-ForeignKeys (record db { document = db.document ++ d ∷ [] }) grown
      (page_rows d.id page_id ps) (page_rows-refers d.id page_id ps (db.document ++ d ∷ []) filed)

-- As `Holds`, with the store beside the database.
abbrev FilesHolds : {A : Type 0} → Database → Result A × Files → Type 0
FilesHolds db (ok a, (db', store')) = ForeignKeys db' × (db'.user_account ≡ db.user_account)
FilesHolds db (err e, s') = Unit

answered-Holds :
    {A : Type 0} (db : Database) (store : ObjectStore) (r : Result A × Database)
    → Holds db r
    → FilesHolds db (answered (λ db. r) (db, store))
answered-Holds db store (ok a, db') h = h
answered-Holds db store (err e, db') h = tt

module _ (lib : Library) (int_of : Text → Option ℕ) (open_pdf : Bytes → Answer PdfReader) where
  module _ (account : UserAccount) (db : Database) (keys : ForeignKeys db)
      (known : IsKnown account db) (store : ObjectStore) where
    upload-Holds :
        (form : Upload) (i : ℕ) (draw : IngestDraw) (r : Result DocumentResponse × Files)
        → upload_document lib int_of open_pdf form i account draw (db, store) ≡ r
        → FilesHolds db (((λ s. r) >>= λ response. pure tt) (db, store))
    upload-Holds form i draw (err e, s') h = tt
    upload-Holds form i draw (ok response, (db', store')) h =
        let y = upload_document_files lib int_of open_pdf form account draw db store i h in
        let c = y.0 in
        let there = own_case-points account db keys known i c y.1 in
        let (d, mid, ingested, left, told) = y.5 in
        let (extraction, x, fresh, persisted, stored) = ingested in
        let whole = persisted.4 in
        let same : d.case_id ≡ c.id = ap (λ d. d.case_id) persisted.0 in
        let filed = subst ForeignKeys (sym whole) (
          ingested-ForeignKeys db d draw.page_id extraction.pages db.job keys
            (subst (λ k. any_row (λ c. c.id == k) db.legal_case ≡ true) (sym same) there)) in
        let accounts : mid.user_account ≡ db.user_account = ap (λ x. x.user_account) whole in
        let known_mid : IsKnown account mid =
          subst (λ us. any_row (λ u. u.id == account.id) us ≡ true) (sym accounts) known in
        let there_mid : any_row (λ r. r.id == c.id) mid.legal_case ≡ true =
          subst (λ cs. any_row (λ r. r.id == c.id) cs ≡ true) (sym (ap (λ x. x.legal_case) whole))
            there in
        (
          subst ForeignKeys (sym left) (
              audited-ForeignKeys account mid (some c.id) document_uploaded
                (some ((pages, d.page_count) ∷ [])) filed known_mid there_mid),
          ap (λ x. x.user_account) left ∙ accounts,
        )

    handle-Holds :
        (request : Request) (t : Moment)
        → FilesHolds db (handle lib int_of open_pdf request account t (db, store))
    unfolding handle
    handle-Holds (creates_case body uuid) t =
        answered-Holds db store _ (create_case-Holds account db keys known body t uuid)
    handle-Holds lists_cases t = answered-Holds db store _ (list_cases-Holds account db keys known)
    handle-Holds (reads_case i) t =
        answered-Holds db store _ (read_case-Holds account db keys known i)
    handle-Holds (lists_documents i) t =
        answered-Holds db store _ (list_documents-Holds account db keys known i)
    handle-Holds (reads_document d i) t =
        answered-Holds db store _ (read_document-Holds account db keys known d i)
    handle-Holds (uploads form i draw) t = upload-Holds form i draw _ refl
    handle-Holds (lists_events i) t =
        answered-Holds db store _ (list_events-Holds account db keys known i)
    handle-Holds (creates_event body i uuid) t =
        answered-Holds db store _ (create_event-Holds account db keys known body i t uuid)
    handle-Holds (creates_note body e i uuid) t =
        answered-Holds db store _ (create_note-Holds account db keys known body e i t uuid)

  abbrev Known : List Call → Database → Type 0
  Known calls db = All (λ call. IsKnown call.account db) calls

  served-ForeignKeys :
      (calls : List Call) (db : Database) (store : ObjectStore) (r : Result (Unit {0}) × Files)
      → ForeignKeys db
      → Known calls db
      → FilesHolds db r
      → ((s : Files)
          → ForeignKeys s.0
          → Known calls s.0
          → ForeignKeys (serve_all lib int_of open_pdf calls s).1.0)
      → ForeignKeys
          (serve_all lib int_of open_pdf calls
            (in_transaction_with_store (λ s. r) (db, store)).1).1.0
  unfolding in_transaction_with_store
  served-ForeignKeys calls db store (ok tt, (db', store')) keys known (kept, same) onward =
      onward (db', store') kept
        (subst (λ us. All (λ call. any_row (λ u. u.id == call.account.id) us ≡ true) calls)
          (sym same) known)
  served-ForeignKeys calls db store (err e, (db', store')) keys known h onward =
      onward (db, store') keys known

  -- Whatever calls accounts with a row make, in any order: if every foreign key of the tables points
  -- at a row before, it does afterwards.
  pub serve_all-ForeignKeys :
      (calls : List Call) (s : Files)
      → ForeignKeys s.0
      → All (λ call. IsKnown call.account s.0) calls
      → ForeignKeys (serve_all lib int_of open_pdf calls s).1.0
  unfolding serve_all serve in_transaction_with_store
  serve_all-ForeignKeys [] (db, store) keys known = keys
  serve_all-ForeignKeys (call ∷ calls) (db, store) keys (here, known) =
      served-ForeignKeys calls db store
        (handle lib int_of open_pdf call.request call.account call.moment (db, store)) keys known
        (handle-Holds call.account db keys here store call.request call.moment)
        (serve_all-ForeignKeys calls)
