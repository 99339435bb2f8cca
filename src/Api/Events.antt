-- ===== src/Api/Events.antt =====
-- backend/app/api/events.py. The foreign keys of a passage and of its page always point at a row.
pub mod Timeline
use counselready.Common.{ℕ, Bool, not, ◌&&◌, Option, none, some, List, [], ◌∷◌, map, length}
use counselready.Common.Equality.{◌==◌, nat_eq}
use counselready.Common.Sort.{sort_by, by_key, by_keys}
use counselready.Common.Table.{where_rows, find_row, add_row}
use counselready.Common.Text.{Text}
use counselready.Effects.Exceptions.{Exn, http, integrity_error}
use counselready.Effects.Action.{
  Action, ok, err, ◌>>=◌, ◌>>◌, pure, gets, or_raise, raise_if, modify,
}
use counselready.Effects.Library.{Moment}
use counselready.Models.Accounts.{UserAccount}
use counselready.Models.Cases.{Case, event_list, event_created, event_note_created, events}
use counselready.Models.Documents.{Document, DocumentPage, Passage}
use counselready.Models.Timeline.{
  CaseEvent, CaseEventNote, EventKind, EventProvenance, DatePrecision, user_asserted, event_checks,
}
use counselready.Models.Database.{Database}
use counselready.Api.Cases.{owned_case, audit}

abbrev pub event_not_found : Exn
event_not_found = http 404 "Entry not found" none

pub record CreateEventRequest : Type 0 where
  pub summary : Text
  pub occurred_at : ℕ
  pub kind : EventKind
  pub date_precision : DatePrecision

pub record NoteResponse : Type 0 where
  pub id : ℕ
  pub body : Text
  pub created_at : ℕ

pub record CitationResponse : Type 0 where
  pub document_id : ℕ
  pub document_title : Text
  pub page_number : ℕ
  pub quote : Text

pub record EventResponse : Type 0 where
  pub id : ℕ
  pub kind : EventKind
  pub provenance : EventProvenance
  pub occurred_at : ℕ
  pub date_precision : DatePrecision
  pub summary : Text
  pub citation : Option CitationResponse
  pub notes : List NoteResponse

abbrev pub cite : Passage → DocumentPage → Option Document → Option CitationResponse
cite passage page none = none
cite passage page (some document) = some (record {
  document_id = page.document_id;
  document_title = document.title;
  page_number = page.page_number;
  quote = passage.quote;
})

abbrev pub cite_page : Database → Passage → Option DocumentPage → Option CitationResponse
cite_page db passage none = none
cite_page db passage (some page) =
    cite passage page (find_row (λ d. d.id == page.document_id) db.document)

abbrev pub cite_passage : Database → Option Passage → Option CitationResponse
cite_passage db none = none
cite_passage db (some passage) =
    cite_page db passage (find_row (λ p. p.id == passage.page_id) db.document_page)

-- `event.passage`
abbrev pub passage_of : Database → Option ℕ → Option Passage
passage_of db none = none
passage_of db (some passage_id) = find_row (λ p. p.id == passage_id) db.passage

-- `_citation`
abbrev pub citation : Database → CaseEvent → Option CitationResponse
citation db event = cite_passage db (passage_of db event.passage_id)

-- `_note_response`
abbrev pub note_response : CaseEventNote → NoteResponse
note_response n = record { id = n.id; body = n.body; created_at = n.created_at }

abbrev pub notes_of : ℕ → Database → List CaseEventNote
notes_of event_id db =
    sort_by (by_key (λ n. n.created_at))
      (where_rows (λ n. n.event_id == event_id) db.case_event_note)

-- `_event_response`
abbrev pub event_response : Database → CaseEvent → EventResponse
event_response db event = record {
  id = event.id;
  kind = event.kind;
  provenance = event.provenance;
  occurred_at = event.occurred_at;
  date_precision = event.date_precision;
  summary = event.summary;
  citation = citation db event;
  notes = map note_response (notes_of event.id db);
}

abbrev pub is_event_of : ℕ → Case → CaseEvent → Bool
is_event_of event_id case e = (e.id == event_id) && (e.case_id == case.id)

-- A route that takes the case too shares the one call of `owned_case`.
unfoldable pub owned_event : ℕ → Case → Action Database CaseEvent
owned_event event_id case = do
  event ← gets (λ db. find_row (is_event_of event_id case) db.case_event)
  or_raise event event_not_found

abbrev pub events_of : ℕ → Database → List CaseEvent
events_of case_id db =
    sort_by (by_keys (λ e. e.occurred_at) (λ e. e.created_at))
      (where_rows (λ e. e.case_id == case_id) db.case_event)

unfoldable pub list_events : ℕ → UserAccount → Action Database (List EventResponse)
list_events case_id account = do
  case ← owned_case case_id account
  found ← gets (λ db. map (event_response db) (events_of case.id db))
  audit account (some case.id) event_list (some ((events, length found) ∷ []))
  pure found

-- The insertion of an event, under the CHECK constraints of its table.
unfoldable pub insert_event : CaseEvent → Action Database (Unit {0})
insert_event event = do
  raise_if (not (event_checks event)) integrity_error
  modify (λ db. record db { case_event = add_row event db.case_event })

abbrev pub new_event : CreateEventRequest → Case → UserAccount → Moment → ℕ → CaseEvent
new_event body case account t uuid = record {
  id = uuid;
  case_id = case.id;
  kind = body.kind;
  provenance = user_asserted;
  passage_id = none;
  recorded_by_user_id = some account.id;
  occurred_at = body.occurred_at;
  date_precision = body.date_precision;
  summary = body.summary;
  asserted_by_party_id = none;
  about_party_id = none;
  created_at = t.transaction;
}

unfoldable pub create_event :
    CreateEventRequest → ℕ → UserAccount → Moment → ℕ → Action Database EventResponse
create_event body case_id account t uuid = do
  case ← owned_case case_id account
  let event = new_event body case account t uuid
  insert_event event
  audit account (some case.id) event_created none
  pure (record {
    id = event.id;
    kind = event.kind;
    provenance = event.provenance;
    occurred_at = event.occurred_at;
    date_precision = event.date_precision;
    summary = event.summary;
    citation = none;
    notes = [];
  })

unfoldable pub create_note : Text → ℕ → ℕ → UserAccount → Moment → ℕ → Action Database NoteResponse
create_note body event_id case_id account t uuid = do
  case ← owned_case case_id account
  event ← owned_event event_id case
  let note : CaseEventNote = record {
    id = uuid;
    event_id = event.id;
    author_user_id = account.id;
    body = body;
    created_at = t.transaction;
  }
  modify (λ db. record db { case_event_note = add_row note db.case_event_note })
  audit account (some case.id) event_note_created none
  pure (note_response note)
