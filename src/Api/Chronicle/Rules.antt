-- ===== src/Api/Chronicle/Rules.antt =====
-- How each route ends, as a rule for any predicate of its result and of the database.
use counselready.Common.{map, ℕ, ◌≡◌, refl, Option, none, some, List, [], ◌∷◌, length}
use counselready.Common.Table.{add_row, find_row}
use counselready.Common.Text.{Text}
use counselready.Effects.Action.{or_raise, modify, gets, Action, Result, ok, err, ◌>>=◌, ◌>>◌, pure}
use counselready.Effects.Library.{Moment}
use counselready.Models.Accounts.{UserAccount}
use counselready.Models.Cases.{
  CaseAction, DetailKey, document_read, pages, event_created, event_note_created, case_read,
  document_list, documents, event_list, events, Case,
}
use counselready.Models.Timeline.{CaseEvent, CaseEventNote, event_checks}
use counselready.Models.Database.{Database}
use counselready.Api.Cases.{
  case_not_found, CaseResponse, DocumentResponse, is_document_of, document_not_found, pages_of,
  page_response, DocumentDetailResponse, audit_row, case_response, document_response, documents_of,
  read_case, list_documents, read_document, audit, owned_document,
}
use counselready.Api.Cases.Ownership.{own_case, owned_case-then}
use counselready.Api.Events.{
  EventResponse, new_event, note_response, event_not_found, NoteResponse, events_of, event_response,
  CreateEventRequest, list_events, create_event, create_note, owned_event, insert_event,
  is_event_of,
}
use counselready.Models.Documents.{Document}
use counselready.Effects.Exceptions.{Exn}

-- The trail with a row of an account.
abbrev pub audited :
    UserAccount → Option ℕ → CaseAction → Option (List (DetailKey × ℕ)) → Database → Database
audited account case_id action detail db = record db {
  case_audit_event = add_row (audit_row account case_id action detail) db.case_audit_event;
}

abbrev pub note_on : Text → CaseEvent → UserAccount → Moment → ℕ → CaseEventNote
note_on body event account t uuid = record {
  id = uuid;
  event_id = event.id;
  author_user_id = account.id;
  body = body;
  created_at = t.transaction;
}

-- An option that is looked up, and what follows.
or_raise-then :
    {A B : Type 0} (P : Result B × Database → Type 0) (o : Option A) (e : Exn)
    (k : A → Action Database B) (db : Database)
    → ((a : A) → o ≡ some a → P (k a db))
    → P (err e, db)
    → P ((or_raise o e >>= k) db)
or_raise-then P none e k db onward stop = stop
or_raise-then P (some a) e k db onward stop = onward a refl

module _ (i : ℕ) (account : UserAccount) (db : Database) where
  pub read_case-then :
      (P : Result CaseResponse × Database → Type 0)
      → ((c : Case) (r : CaseResponse)
          → own_case i account db ≡ some c
          → P (ok r, audited account (some c.id) case_read none db))
      → P (err case_not_found, db)
      → P (read_case i account db)
  unfolding read_case audit
  read_case-then P onward stop =
      owned_case-then P i account
        (λ case. do audit account (some case.id) case_read none; pure (case_response case)) db
        (λ c found. onward c (case_response c) found) stop

  pub list_documents-then :
      (P : Result (List DocumentResponse) × Database → Type 0)
      → ((c : Case) (r : List DocumentResponse) (detail : Option (List (DetailKey × ℕ)))
          → own_case i account db ≡ some c
          → P (ok r, audited account (some c.id) document_list detail db))
      → P (err case_not_found, db)
      → P (list_documents i account db)
  unfolding list_documents audit
  list_documents-then P onward stop =
      owned_case-then P i account
        (λ case. do
          found ← gets (documents_of case.id)
          audit account (some case.id) document_list (some ((documents, length found) ∷ []))
          pure (map document_response found))
        db (λ c found. onward c _ _ found) stop

  pub list_events-then :
      (P : Result (List EventResponse) × Database → Type 0)
      → ((c : Case) (r : List EventResponse) (detail : Option (List (DetailKey × ℕ)))
          → own_case i account db ≡ some c
          → P (ok r, audited account (some c.id) event_list detail db))
      → P (err case_not_found, db)
      → P (list_events i account db)
  unfolding list_events audit
  list_events-then P onward stop =
      owned_case-then P i account
        (λ case. do
          found ← gets (λ db. map (event_response db) (events_of case.id db))
          audit account (some case.id) event_list (some ((events, length found) ∷ []))
          pure found)
        db (λ c found. onward c _ _ found) stop

  pub read_document-then :
      (document_id : ℕ) (P : Result DocumentDetailResponse × Database → Type 0)
      → ((c : Case) (d : Document) (r : DocumentDetailResponse)
            (detail : Option (List (DetailKey × ℕ)))
          → own_case i account db ≡ some c
          → find_row (is_document_of document_id c) db.document ≡ some d
          → P (ok r, audited account (some d.case_id) document_read detail db))
      → P (err case_not_found, db)
      → P (err document_not_found, db)
      → P (read_document document_id i account db)
  unfolding read_document owned_document audit
  read_document-then document_id P onward stop none_such =
      let k : Document → Action Database DocumentDetailResponse = λ document. do
        found ← gets (λ db. map (page_response db) (pages_of document.id db))
        audit account (some document.case_id) document_read (some ((pages, length found) ∷ []))
        pure (record { document = document_response document; pages = found })
      in let document_in : Case → Action Database Document = λ case. do
        document ← gets (λ db. find_row (is_document_of document_id case) db.document)
        or_raise document document_not_found
        in owned_case-then (λ r. P (((λ s. r) >>= k) db)) i account document_in db
          (λ c found.
            or_raise-then P (find_row (is_document_of document_id c) db.document) document_not_found
              k db (λ d inside. onward c d _ _ found inside) none_such)
          stop

  pub create_event-then :
      (body : CreateEventRequest) (t : Moment) (uuid : ℕ)
      (P : Result EventResponse × Database → Type 0)
      → ((c : Case) (r : EventResponse)
          → own_case i account db ≡ some c
          → P (
            ok r,
            audited account (some c.id) event_created none (record db {
              case_event = add_row (new_event body c account t uuid) db.case_event;
            }),
          ))
      → P (err case_not_found, db)
      → P (create_event body i account t uuid db)
  unfolding create_event insert_event audit event_checks
  create_event-then body t uuid P onward stop =
      owned_case-then P i account
        (λ case. do
          let event = new_event body case account t uuid
          insert_event event
          audit account (some case.id) event_created none
          pure (record {
            id = event.id;
            kind = event.kind;
            provenance = event.provenance;
            occurred_at = event.occurred_at;
            date_precision = event.date_precision;
            summary = event.summary;
            citation = none;
            notes = [];
          }))
        db (λ c found. onward c _ found) stop

  pub create_note-then :
      (body : Text) (event_id : ℕ) (t : Moment) (uuid : ℕ)
      (P : Result NoteResponse × Database → Type 0)
      → ((c : Case) (e : CaseEvent) (r : NoteResponse)
          → own_case i account db ≡ some c
          → find_row (is_event_of event_id c) db.case_event ≡ some e
          → P (
            ok r,
            audited account (some c.id) event_note_created none (record db {
              case_event_note = add_row (note_on body e account t uuid) db.case_event_note;
            }),
          ))
      → P (err case_not_found, db)
      → P (err event_not_found, db)
      → P (create_note body event_id i account t uuid db)
  unfolding create_note owned_event audit
  create_note-then body event_id t uuid P onward stop none_such =
      let k : Case → CaseEvent → Action Database NoteResponse = λ case event. do
        modify (λ db. record db {
          case_event_note = add_row (note_on body event account t uuid) db.case_event_note;
        })
        audit account (some case.id) event_note_created none
        pure (note_response (note_on body event account t uuid))
      in owned_case-then P i account (λ case. owned_event event_id case >>= k case) db
        (λ c found.
          or_raise-then P (find_row (is_event_of event_id c) db.case_event) event_not_found (k c) db
            (λ e there. onward c e _ found there) none_such)
        stop
