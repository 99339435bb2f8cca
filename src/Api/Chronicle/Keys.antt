-- ===== src/Api/Chronicle/Keys.antt =====
-- The foreign keys under each route on case material.
use counselready.Api.Chronicle.Rules.{
  read_case-then, list_documents-then, list_events-then, read_document-then, create_event-then,
  create_note-then, note_on,
}
use counselready.Common.{
  subst, arith, ℕ, ◌≡◌, refl, sym, true, Option, none, some, List, [], ◌∷◌, ◌++◌,
}
use counselready.Common.Table.{find_row_sound, any_row, add_row}
use counselready.Common.Text.{Text}
use counselready.Effects.Action.{Result, ok, err}
use counselready.Effects.Library.{Moment}
use counselready.Models.Accounts.{UserAccount}
use counselready.Models.Cases.{
  CaseAction, DetailKey, case_created, florida, document_read, event_created, event_note_created,
  Case,
}
use counselready.Models.Database.{Database}
use counselready.Api.Cases.{
  is_owned_case, is_document_of, audit_row, CreateCaseRequest, create_case, list_cases, read_case,
  list_documents, read_document, audit,
}
use counselready.Api.Cases.Ownership.{own_case}
use counselready.Api.Events.{
  new_event, CreateEventRequest, list_events, create_event, create_note, is_event_of,
}
use counselready.Api.Chronicle.Rules.{
  read_case-then, list_documents-then, list_events-then, read_document-then, create_event-then,
  create_note-then, note_on, audited,
}
use counselready.Models.Cascade.{ForeignKeys, points}
use counselready.Models.Cascade.Growth.{any_row-one, refers-one, any_row-append_right}
use counselready.Models.Cascade.Growth.Tables.{
  add_trail-ForeignKeys, add_cases-ForeignKeys, add_events-ForeignKeys, add_notes-ForeignKeys,
}
use counselready.Models.Cascade.Others.{find_row-any_row}
use counselready.Common.Equality.{==-sound, ◌==◌, nat_eq, ==-refl}

-- The account has a row.
abbrev pub IsKnown : UserAccount → Database → Type 0
IsKnown account db = any_row (λ u. u.id == account.id) db.user_account ≡ true

-- What a route leaves: keys that hold, and the accounts as they were.
abbrev pub Holds : {A : Type 0} → Database → Result A × Database → Type 0
Holds db (ok a, db') = ForeignKeys db' × (db'.user_account ≡ db.user_account)
Holds db (err e, db') = Unit

module _ (account : UserAccount) where
  pub audited-ForeignKeys :
      (db : Database) (case_id : Option ℕ) (action : CaseAction)
      (detail : Option (List (DetailKey × ℕ)))
      → ForeignKeys db
      → IsKnown account db
      → points (λ c. c.id) db.legal_case case_id ≡ true
      → ForeignKeys (audited account case_id action detail db)
  unfolding add_row
  audited-ForeignKeys db case_id action detail keys known there =
      let row = audit_row account case_id action detail in
      add_trail-ForeignKeys db keys (row ∷ [])
        (refers-one (λ e. e.actor_user_id) (λ u. u.id) row db.user_account known)
        (refers-one (λ e. e.case_id) (λ c. c.id) row db.legal_case there)

  module _ (db : Database) (keys : ForeignKeys db) (known : IsKnown account db) where
    pub own_case-points :
        (i : ℕ) (c : Case)
        → own_case i account db ≡ some c
        → any_row (λ r. r.id == c.id) db.legal_case ≡ true
    own_case-points i c found =
        find_row-any_row (is_owned_case i account) (λ r. r.id == c.id) db.legal_case {r = c} found
          (==-refl c.id)

    traced-Holds :
        (i : ℕ) (c : Case) (action : CaseAction) (detail : Option (List (DetailKey × ℕ)))
        → own_case i account db ≡ some c
        → ForeignKeys (audited account (some c.id) action detail db)
    traced-Holds i c action detail found =
        audited-ForeignKeys db (some c.id) action detail keys known (own_case-points i c found)

    pub create_case-Holds :
        (body : CreateCaseRequest) (t : Moment) (uuid : ℕ)
        → Holds db (create_case body account t uuid db)
    unfolding create_case audit add_row
    create_case-Holds body t uuid =
        let case : Case = record {
          id = uuid;
          owner_id = account.id;
          title = body.title;
          jurisdiction = florida;
          court = body.court;
          case_number = body.case_number;
          created_at = t.transaction;
        } in
        let grown =
          add_cases-ForeignKeys db keys (case ∷ [])
            (refers-one (λ c. some c.owner_id) (λ u. u.id) case db.user_account known) in
        (
          audited-ForeignKeys (record db { legal_case = db.legal_case ++ case ∷ [] }) (some uuid)
              case_created none grown known
              (any_row-append_right (λ c. c.id == uuid) db.legal_case (case ∷ [])
                (any_row-one (λ c. c.id == uuid) case (==-refl uuid))),
          refl,
        )

    pub list_cases-Holds : Holds db (list_cases account db)
    unfolding list_cases audit
    list_cases-Holds = (audited-ForeignKeys db none _ _ keys known refl, refl)

    pub read_case-Holds : (i : ℕ) → Holds db (read_case i account db)
    read_case-Holds i =
        read_case-then i account db (Holds db) (λ c r found. (traced-Holds i c _ _ found, refl)) tt

    pub list_documents-Holds : (i : ℕ) → Holds db (list_documents i account db)
    list_documents-Holds i =
        list_documents-then i account db (Holds db)
          (λ c r detail found. (traced-Holds i c _ detail found, refl)) tt

    pub list_events-Holds : (i : ℕ) → Holds db (list_events i account db)
    list_events-Holds i =
        list_events-then i account db (Holds db)
          (λ c r detail found. (traced-Holds i c _ detail found, refl)) tt

    pub read_document-Holds :
        (document_id i : ℕ) → Holds db (read_document document_id i account db)
    read_document-Holds document_id i =
        read_document-then i account db document_id (Holds db)
          (λ c d r detail found inside.
            (let same : c.id ≡ d.case_id = sym (
                ==-sound d.case_id c.id (
                  ground (
                    arith,
                    find_row_sound (is_document_of document_id c) db.document {r = d} inside,
                  ))) in
              (
                subst (λ k. ForeignKeys (audited account (some k) document_read detail db)) same
                    (traced-Holds i c document_read detail found),
                refl,
              )))
          tt tt

    pub create_event-Holds :
        (body : CreateEventRequest) (i : ℕ) (t : Moment) (uuid : ℕ)
        → Holds db (create_event body i account t uuid db)
    unfolding add_row
    create_event-Holds body i t uuid =
        create_event-then i account db body t uuid (Holds db)
          (λ c r found.
            let event = new_event body c account t uuid in
            let there = own_case-points i c found in
            let grown =
              add_events-ForeignKeys db keys (event ∷ [])
                (refers-one (λ e. some e.case_id) (λ c. c.id) event db.legal_case there)
                (refers-one (λ e. e.passage_id) (λ p. p.id) event db.passage refl)
                (refers-one (λ e. e.recorded_by_user_id) (λ u. u.id) event db.user_account known)
                (refers-one (λ e. e.asserted_by_party_id) (λ p. p.id) event db.party refl)
                (refers-one (λ e. e.about_party_id) (λ p. p.id) event db.party refl) in
            (
              audited-ForeignKeys (record db { case_event = db.case_event ++ event ∷ [] })
                  (some c.id) event_created none grown known there,
              refl,
            ))
          tt

    pub create_note-Holds :
        (body : Text) (event_id i : ℕ) (t : Moment) (uuid : ℕ)
        → Holds db (create_note body event_id i account t uuid db)
    unfolding add_row
    create_note-Holds body event_id i t uuid =
        create_note-then i account db body event_id t uuid (Holds db)
          (λ c e r found inside.
            let note = note_on body e account t uuid in
            let there = own_case-points i c found in
            let grown =
              add_notes-ForeignKeys db keys (note ∷ [])
                (refers-one (λ n. some n.event_id) (λ e. e.id) note db.case_event
                  (find_row-any_row (is_event_of event_id c) (λ x. x.id == e.id) db.case_event
                    {r = e} inside (==-refl e.id)))
                (refers-one (λ n. some n.author_user_id) (λ u. u.id) note db.user_account known) in
            (
              audited-ForeignKeys (record db { case_event_note = db.case_event_note ++ note ∷ [] })
                  (some c.id) event_note_created none grown known there,
              refl,
            ))
          tt tt
