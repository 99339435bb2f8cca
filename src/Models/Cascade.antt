-- ===== src/Models/Cascade.antt =====
-- The foreign keys of the tables, and what the deletion of an account does along them: the `ondelete`
-- of every `ForeignKey` in backend/app/models. A row whose key points at a deleted row goes with it
-- under CASCADE, and loses the key under SET NULL. Every table that CASCADE reaches is read as it
-- stood before the deletion.
pub mod References
pub mod Erasure
pub mod Others
pub mod Growth
use counselready.Common.{
  if◌then◌else◌, ℕ, Bool, true, false, ◌&&◌, ◌||◌, Option, none, some, List, [], ◌∷◌, map, ◌≡◌,
}
use counselready.Common.Equality.{◌==◌, nat_eq}
use counselready.Common.Table.{any_row, delete_rows}
use counselready.Models.Accounts.{
  UserAccount, UserSession, UsedRefreshToken, AuthEvent, UserMfa, RecoveryCode, Passkey,
  PasskeyChallenge,
}
use counselready.Models.Cases.{Case, Party, CaseAuditEvent}
use counselready.Models.Documents.{Document, DocumentPage, Passage, ExtractedFact}
use counselready.Models.Timeline.{CaseEvent, CaseEventNote}
use counselready.Models.Database.{Database}

-- Whether a key points at one of the rows that go.
unfoldable pub removed : {P : Type 0} → (P → ℕ) → (P → Bool) → List P → ℕ → Bool
removed id goes ps i = any_row (λ p. (id p == i) && goes p) ps

abbrev pub lost : (ℕ → Bool) → Option ℕ → Bool
lost gone none = false
lost gone (some i) = gone i

-- ON DELETE SET NULL
abbrev pub set_null : (ℕ → Bool) → Option ℕ → Option ℕ
set_null gone none = none
set_null gone (some i) = if gone i then none else some i

-- The deletion of the rows of `user_account` with one id.
module _ (user_id : ℕ) (db : Database) where
  abbrev pub account_goes : UserAccount → Bool
  account_goes u = u.id == user_id

  abbrev pub gone_account : ℕ → Bool
  gone_account = removed (λ u. u.id) account_goes db.user_account

  abbrev pub session_goes : UserSession → Bool
  session_goes s = gone_account s.user_id

  abbrev pub gone_session : ℕ → Bool
  gone_session = removed (λ s. s.id) session_goes db.user_session

  abbrev pub case_goes : Case → Bool
  case_goes c = gone_account c.owner_id

  abbrev pub gone_case : ℕ → Bool
  gone_case = removed (λ c. c.id) case_goes db.legal_case

  abbrev pub gone_party : ℕ → Bool
  gone_party = removed (λ p. p.id) (λ p. gone_case p.case_id) db.party

  abbrev pub document_goes : Document → Bool
  document_goes d = gone_case d.case_id

  abbrev pub gone_document : ℕ → Bool
  gone_document = removed (λ d. d.id) document_goes db.document

  abbrev pub page_goes : DocumentPage → Bool
  page_goes p = gone_document p.document_id

  abbrev pub gone_page : ℕ → Bool
  gone_page = removed (λ p. p.id) page_goes db.document_page

  abbrev pub passage_goes : Passage → Bool
  passage_goes p = gone_page p.page_id

  abbrev pub gone_passage : ℕ → Bool
  gone_passage = removed (λ p. p.id) passage_goes db.passage

  abbrev pub fact_goes : ExtractedFact → Bool
  fact_goes f = gone_document f.document_id || gone_passage f.passage_id

  abbrev pub event_goes : CaseEvent → Bool
  event_goes e =
      gone_case e.case_id
      || lost gone_passage e.passage_id
      || lost gone_account e.recorded_by_user_id

  abbrev pub gone_event : ℕ → Bool
  gone_event = removed (λ e. e.id) event_goes db.case_event

  abbrev pub note_goes : CaseEventNote → Bool
  note_goes n = gone_event n.event_id || gone_account n.author_user_id

  abbrev pub detach_event : CaseEvent → CaseEvent
  detach_event e = record e {
    asserted_by_party_id = set_null gone_party e.asserted_by_party_id;
    about_party_id = set_null gone_party e.about_party_id;
  }

  abbrev pub anonymize : AuthEvent → AuthEvent
  anonymize e = record e { user_id = set_null gone_account e.user_id }

  abbrev pub anonymize_trail : CaseAuditEvent → CaseAuditEvent
  anonymize_trail e = record e {
    actor_user_id = set_null gone_account e.actor_user_id;
    case_id = set_null gone_case e.case_id;
  }

  -- `delete(UserAccount).where(UserAccount.id == user_id)`
  unfoldable pub delete_user : Database
  delete_user = record db {
    user_account = delete_rows account_goes db.user_account;
    user_session = delete_rows session_goes db.user_session;
    used_refresh_token = delete_rows (λ t. gone_session t.session_id) db.used_refresh_token;
    auth_event = map anonymize db.auth_event;
    user_mfa = delete_rows (λ m. gone_account m.user_id) db.user_mfa;
    recovery_code = delete_rows (λ r. gone_account r.user_id) db.recovery_code;
    passkey = delete_rows (λ p. gone_account p.user_id) db.passkey;
    passkey_challenge = delete_rows (λ p. lost gone_account p.user_id) db.passkey_challenge;
    legal_case = delete_rows case_goes db.legal_case;
    party = delete_rows (λ p. gone_case p.case_id) db.party;
    case_audit_event = map anonymize_trail db.case_audit_event;
    document = delete_rows document_goes db.document;
    document_page = delete_rows page_goes db.document_page;
    passage = delete_rows passage_goes db.passage;
    extracted_fact = delete_rows fact_goes db.extracted_fact;
    case_event = map detach_event (delete_rows event_goes db.case_event);
    case_event_note = delete_rows note_goes db.case_event_note;
  }

abbrev pub points : {P : Type 0} → (P → ℕ) → List P → Option ℕ → Bool
points id ps none = true
points id ps (some i) = any_row (λ p. id p == i) ps

-- Whether the key of every child points at some parent.
unfoldable pub refers : {C P : Type 0} → (C → Option ℕ) → (P → ℕ) → List C → List P → Bool
refers key id [] ps = true
refers key id (c ∷ cs) ps = points id ps (key c) && refers key id cs ps

-- Every foreign key of the tables holds.
abbrev pub ForeignKeys : Database → Type 0
ForeignKeys db =
    (refers (λ s. some s.user_id) (λ u. u.id) db.user_session db.user_account ≡ true)
    × (refers (λ t. some t.session_id) (λ s. s.id) db.used_refresh_token db.user_session ≡ true)
    × (refers (λ e. e.user_id) (λ u. u.id) db.auth_event db.user_account ≡ true)
    × (refers (λ m. some m.user_id) (λ u. u.id) db.user_mfa db.user_account ≡ true)
    × (refers (λ r. some r.user_id) (λ u. u.id) db.recovery_code db.user_account ≡ true)
    × (refers (λ p. some p.user_id) (λ u. u.id) db.passkey db.user_account ≡ true)
    × (refers (λ p. p.user_id) (λ u. u.id) db.passkey_challenge db.user_account ≡ true)
    × (refers (λ c. some c.owner_id) (λ u. u.id) db.legal_case db.user_account ≡ true)
    × (refers (λ p. some p.case_id) (λ c. c.id) db.party db.legal_case ≡ true)
    × (refers (λ e. e.actor_user_id) (λ u. u.id) db.case_audit_event db.user_account ≡ true)
    × (refers (λ e. e.case_id) (λ c. c.id) db.case_audit_event db.legal_case ≡ true)
    × (refers (λ d. some d.case_id) (λ c. c.id) db.document db.legal_case ≡ true)
    × (refers (λ p. some p.document_id) (λ d. d.id) db.document_page db.document ≡ true)
    × (refers (λ p. some p.page_id) (λ p. p.id) db.passage db.document_page ≡ true)
    × (refers (λ f. some f.document_id) (λ d. d.id) db.extracted_fact db.document ≡ true)
    × (refers (λ f. some f.passage_id) (λ p. p.id) db.extracted_fact db.passage ≡ true)
    × (refers (λ e. some e.case_id) (λ c. c.id) db.case_event db.legal_case ≡ true)
    × (refers (λ e. e.passage_id) (λ p. p.id) db.case_event db.passage ≡ true)
    × (refers (λ e. e.recorded_by_user_id) (λ u. u.id) db.case_event db.user_account ≡ true)
    × (refers (λ e. e.asserted_by_party_id) (λ p. p.id) db.case_event db.party ≡ true)
    × (refers (λ e. e.about_party_id) (λ p. p.id) db.case_event db.party ≡ true)
    × (refers (λ n. some n.event_id) (λ e. e.id) db.case_event_note db.case_event ≡ true)
    × (refers (λ n. some n.author_user_id) (λ u. u.id) db.case_event_note db.user_account ≡ true)
