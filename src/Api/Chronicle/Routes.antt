-- ===== src/Api/Chronicle/Routes.antt =====
-- What each route adds to the log.
use counselready.Api.Chronicle.Rules.{
  read_case-then, list_documents-then, list_events-then, read_document-then, create_event-then,
  create_note-then, note_on,
}
use counselready.Common.{ℕ, ◌≡◌, refl, sym, true, none, some, List, [], ◌∷◌, ◌++◌, All, append-nil}
use counselready.Common.Table.{add_row}
use counselready.Common.Text.{Text}
use counselready.Effects.Action.{Result, ok, err}
use counselready.Effects.Library.{Moment}
use counselready.Models.Accounts.{UserAccount}
use counselready.Models.Cases.{event_created, event_note_created, CaseAuditEvent}
use counselready.Models.Timeline.{CaseEvent, CaseEventNote, event_checks}
use counselready.Models.Database.{Database}
use counselready.Api.Cases.{
  audit_row, CreateCaseRequest, create_case, list_cases, read_case, list_documents, read_document,
  audit,
}
use counselready.Api.Events.{new_event, CreateEventRequest, list_events, create_event, create_note}
use counselready.Api.Chronicle.{Log, log_of}

-- What one answered request of an account adds to the log: a row of the trail in its name, and at most
-- what is the account's own.
abbrev pub Extends : UserAccount → Log → Log → Type 0
Extends account log log' =
    (es : List CaseEvent) × (ns : List CaseEventNote) × (row : CaseAuditEvent) × (log'.events
      ≡ log.events ++ es)
    × (log'.notes ≡ log.notes ++ ns)
    × (log'.trail ≡ add_row row log.trail)
    × (row.actor_user_id ≡ some account.id)
    × All (λ e. (event_checks e ≡ true) × (e.recorded_by_user_id ≡ some account.id)) es
    × All (λ n. n.author_user_id ≡ account.id) ns

module _ (account : UserAccount) where
  abbrev pub Logs : {A : Type 0} → Database → Result A × Database → Type 0
  Logs db (ok a, db') = Extends account (log_of db) (log_of db')
  Logs db (err e, db') = Unit

  -- A route that only adds a row to the trail.
  pub traced-Extends :
      (db : Database) (row : CaseAuditEvent)
      → row.actor_user_id ≡ some account.id
      → Extends account (log_of db) (record (log_of db) { trail = add_row row db.case_audit_event })
  traced-Extends db row own = (
    [],
    [],
    row,
    sym (append-nil db.case_event),
    sym (append-nil db.case_event_note),
    refl,
    own,
    tt,
    tt,
  )

  pub create_case-Logs :
      (body : CreateCaseRequest) (t : Moment) (uuid : ℕ) (db : Database)
      → Logs db (create_case body account t uuid db)
  unfolding create_case audit
  create_case-Logs body t uuid db = traced-Extends db _ refl

  pub list_cases-Logs : (db : Database) → Logs db (list_cases account db)
  unfolding list_cases audit
  list_cases-Logs db = traced-Extends db _ refl

  pub read_case-Logs : (i : ℕ) (db : Database) → Logs db (read_case i account db)
  read_case-Logs i db =
      read_case-then i account db (Logs db) (λ c r found. traced-Extends db _ refl) tt

  pub list_documents-Logs : (i : ℕ) (db : Database) → Logs db (list_documents i account db)
  list_documents-Logs i db =
      list_documents-then i account db (Logs db) (λ c r detail found. traced-Extends db _ refl) tt

  pub list_events-Logs : (i : ℕ) (db : Database) → Logs db (list_events i account db)
  list_events-Logs i db =
      list_events-then i account db (Logs db) (λ c r detail found. traced-Extends db _ refl) tt

  pub read_document-Logs :
      (document_id i : ℕ) (db : Database) → Logs db (read_document document_id i account db)
  read_document-Logs document_id i db =
      read_document-then i account db document_id (Logs db)
        (λ c d r detail found inside. traced-Extends db _ refl) tt tt

  pub create_event-Logs :
      (body : CreateEventRequest) (i : ℕ) (t : Moment) (uuid : ℕ) (db : Database)
      → Logs db (create_event body i account t uuid db)
  unfolding event_checks add_row
  create_event-Logs body i t uuid db =
      create_event-then i account db body t uuid (Logs db)
        (λ c r found. (
          new_event body c account t uuid ∷ [],
          [],
          audit_row account (some c.id) event_created none,
          refl,
          sym (append-nil db.case_event_note),
          refl,
          refl,
          ((refl, refl), tt),
          tt,
        ))
        tt

  pub create_note-Logs :
      (body : Text) (event_id i : ℕ) (t : Moment) (uuid : ℕ) (db : Database)
      → Logs db (create_note body event_id i account t uuid db)
  unfolding add_row
  create_note-Logs body event_id i t uuid db =
      create_note-then i account db body event_id t uuid (Logs db)
        (λ c e r found there. (
          [],
          note_on body e account t uuid ∷ [],
          audit_row account (some c.id) event_note_created none,
          sym (append-nil db.case_event),
          refl,
          refl,
          refl,
          tt,
          (refl, tt),
        ))
        tt tt
