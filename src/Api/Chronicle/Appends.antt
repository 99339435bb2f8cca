-- ===== src/Api/Chronicle/Appends.antt =====
-- What requests add to the log, in whatever order they come.
use counselready.Common.{
  ℕ, ◌≡◌, refl, sym, ap, ◌∙◌, subst, true, Option, some, List, [], ◌∷◌, ◌++◌, map, All, All-append,
  append_assoc, append-nil,
}
use counselready.Common.Table.{add_row}
use counselready.Common.Text.{Text}
use counselready.Effects.Action.{Result, ok, err, ◌>>=◌, pure, in_transaction_with_store}
use counselready.Effects.Library.{Library, Bytes, Moment}
use counselready.Models.Accounts.{UserAccount}
use counselready.Models.Cases.{CaseAuditEvent}
use counselready.Models.Timeline.{CaseEvent, CaseEventNote, event_checks}
use counselready.Models.Database.{Database}
use counselready.Ingest.Pdf.{Answer, PdfReader}
use counselready.Ingest.Service.{ObjectStore, IngestDraw}
use counselready.Api.Cases.{DocumentResponse}
use counselready.Api.Uploads.{Upload, upload_document}
use counselready.Api.Uploads.Outcome.{upload_document_files}
use counselready.Api.Chronicle.{
  Request, creates_case, lists_cases, reads_case, lists_documents, reads_document, uploads,
  lists_events, creates_event, creates_note, Files, Log, log_of, answered, handle, serve, Call,
  serve_all, actors,
}
use counselready.Api.Chronicle.Routes.{
  Extends, Logs, create_case-Logs, list_cases-Logs, read_case-Logs, list_documents-Logs,
  read_document-Logs, list_events-Logs, create_event-Logs, create_note-Logs,
}
use counselready.Effects.Exceptions.{Exn}

-- As `Logs`, with the store beside the database.
abbrev FilesLogs : {A : Type 0} → UserAccount → Database → Result A × Files → Type 0
FilesLogs account db (ok a, (db', store')) = Extends account (log_of db) (log_of db')
FilesLogs account db (err e, s') = Unit

answered-Logs :
    {A : Type 0} (account : UserAccount) (db : Database) (store : ObjectStore)
    (r : Result A × Database)
    → Logs account db r
    → FilesLogs account db (answered (λ db. r) (db, store))
answered-Logs account db store (ok a, db') h = h
answered-Logs account db store (err e, db') h = tt

module _ (lib : Library) (int_of : Text → Option ℕ) (open_pdf : Bytes → Answer PdfReader)
    (account : UserAccount) where
  upload-Logs :
      (form : Upload) (i : ℕ) (draw : IngestDraw) (db : Database) (store : ObjectStore)
      (r : Result DocumentResponse × Files)
      → upload_document lib int_of open_pdf form i account draw (db, store) ≡ r
      → FilesLogs account db (((λ s. r) >>= λ response. pure tt) (db, store))
  upload-Logs form i draw db store (err e, s') h = tt
  upload-Logs form i draw db store (ok response, (db', store')) h =
      let filed = (upload_document_files lib int_of open_pdf form account draw db store i h).5 in
      let (d, mid, ingested, left, told) = filed in
      let (extraction, x, fresh, persisted, stored) = ingested in
      let whole = persisted.4 in
      let es = ap (λ x. x.case_event) whole in
      let ns = ap (λ x. x.case_event_note) whole in
      let trail = ap (λ x. x.case_audit_event) whole in
      (
        [],
        [],
        _,
        ap (λ x. x.case_event) left ∙ es ∙ sym (append-nil db.case_event),
        ap (λ x. x.case_event_note) left ∙ ns ∙ sym (append-nil db.case_event_note),
        ap (λ x. x.case_audit_event) left ∙ ap (add_row _) trail,
        refl,
        tt,
        tt,
      )

  handle-Logs :
      (request : Request) (t : Moment) (db : Database) (store : ObjectStore)
      → FilesLogs account db (handle lib int_of open_pdf request account t (db, store))
  unfolding handle
  handle-Logs (creates_case body uuid) t db store =
      answered-Logs account db store _ (create_case-Logs account body t uuid db)
  handle-Logs lists_cases t db store = answered-Logs account db store _ (list_cases-Logs account db)
  handle-Logs (reads_case i) t db store =
      answered-Logs account db store _ (read_case-Logs account i db)
  handle-Logs (lists_documents i) t db store =
      answered-Logs account db store _ (list_documents-Logs account i db)
  handle-Logs (reads_document d i) t db store =
      answered-Logs account db store _ (read_document-Logs account d i db)
  handle-Logs (uploads form i draw) t db store = upload-Logs form i draw db store _ refl
  handle-Logs (lists_events i) t db store =
      answered-Logs account db store _ (list_events-Logs account i db)
  handle-Logs (creates_event body i uuid) t db store =
      answered-Logs account db store _ (create_event-Logs account body i t uuid db)
  handle-Logs (creates_note body e i uuid) t db store =
      answered-Logs account db store _ (create_note-Logs account body e i t uuid db)

-- What a list of calls adds to the log.
abbrev pub Appends : List Call → List (Result (Unit {0})) → Log → Log → Type 0
Appends calls rs log log' =
    (es : List CaseEvent) × (ns : List CaseEventNote) × (rows : List CaseAuditEvent) × (log'.events
      ≡ log.events ++ es)
    × (log'.notes ≡ log.notes ++ ns)
    × (log'.trail ≡ log.trail ++ rows)
    × (map (λ row. row.actor_user_id) rows ≡ actors calls rs)
    × All (λ e. event_checks e ≡ true) es

checked :
    (account : UserAccount) (es : List CaseEvent)
    → All (λ e. (event_checks e ≡ true) × (e.recorded_by_user_id ≡ some account.id)) es
    → All (λ e. event_checks e ≡ true) es
checked account [] h = tt
checked account (e ∷ es) (h, hs) = (h.0, checked account es hs)

Appends-cons-ok :
    (call : Call) (calls : List Call) (r : Unit {0}) (rs : List (Result (Unit {0})))
    (log mid log' : Log)
    → Extends call.account log mid
    → Appends calls rs mid log'
    → Appends (call ∷ calls) (ok r ∷ rs) log log'
unfolding actors add_row
Appends-cons-ok call calls r rs log mid log' (es, ns, row, e, n, t, own, good, mine)
      (es', ns', rows, e', n', t', who, good') =
    (
      es ++ es',
      ns ++ ns',
      row ∷ rows,
      e' ∙ ap (λ x. x ++ es') e ∙ append_assoc log.events es es',
      n' ∙ ap (λ x. x ++ ns') n ∙ append_assoc log.notes ns ns',
      t' ∙ ap (λ x. x ++ rows) t ∙ append_assoc log.trail (row ∷ []) rows,
      ap (λ a. a ∷ map (λ row. row.actor_user_id) rows) own
          ∙ ap (λ others. some call.account.id ∷ others) who,
      All-append (λ e. event_checks e ≡ true) es es' (checked call.account es good) good',
    )

Appends-cons-err :
    (call : Call) (calls : List Call) (x : Exn) (rs : List (Result (Unit {0}))) (log mid log' : Log)
    → mid ≡ log
    → Appends calls rs mid log'
    → Appends (call ∷ calls) (err x ∷ rs) log log'
unfolding actors
Appends-cons-err call calls x rs log mid log' same h = subst (λ l. Appends calls rs l log') same h

module _ (lib : Library) (int_of : Text → Option ℕ) (open_pdf : Bytes → Answer PdfReader) where
  served :
      (call : Call) (calls : List Call) (db : Database) (store : ObjectStore)
      (r : Result (Unit {0}) × Files)
      → FilesLogs call.account db r
      → ((s : Files)
          → let (rs, (db', store')) = serve_all lib int_of open_pdf calls s in
            Appends calls rs (log_of s.0) (log_of db'))
      → let (r', s) = in_transaction_with_store (λ s. r) (db, store) in
        let (rs, (db', store')) = serve_all lib int_of open_pdf calls s in
        Appends (call ∷ calls) (r' ∷ rs) (log_of db) (log_of db')
  unfolding in_transaction_with_store
  served call calls db store (ok tt, (db', store')) h onward =
      Appends-cons-ok call calls tt _ (log_of db) (log_of db') _ h (onward (db', store'))
  served call calls db store (err e, (db', store')) h onward =
      Appends-cons-err call calls e _ (log_of db) (log_of db) _ refl (onward (db, store'))

  -- Whatever calls are made, in any order and by any accounts: the timelines, their notes and the audit
  -- trail only grow, at their ends; the rows that the trail gains name, in order, the account of
  -- each call that was answered without an error, and no other; every new event meets the
  -- constraints of its table.
  pub serve_all-Appends :
      (calls : List Call) (s : Files)
      → Appends calls
          (serve_all lib int_of open_pdf calls s).0
          (log_of s.0)
          (log_of (serve_all lib int_of open_pdf calls s).1.0)
  unfolding serve_all actors serve in_transaction_with_store
  serve_all-Appends [] (db, store) = (
    [],
    [],
    [],
    sym (append-nil db.case_event),
    sym (append-nil db.case_event_note),
    sym (append-nil db.case_audit_event),
    refl,
    tt,
  )
  serve_all-Appends (call ∷ calls) (db, store) =
      served call calls db store
        (handle lib int_of open_pdf call.request call.account call.moment (db, store))
        (handle-Logs lib int_of open_pdf call.account call.request call.moment db store)
        (serve_all-Appends calls)
