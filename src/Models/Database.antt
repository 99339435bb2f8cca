-- ===== src/Models/Database.antt =====
-- The database: one list of rows for each table, in the order of insertion.
use counselready.Common.{List, []}
use counselready.Models.Accounts.{
  UserAccount, UserSession, UsedRefreshToken, AuthEvent, UserMfa, RecoveryCode, Passkey,
  PasskeyChallenge,
}
use counselready.Models.Cases.{Case, Party, CaseAuditEvent}
use counselready.Models.Documents.{Document, DocumentPage, Passage, ExtractedFact}
use counselready.Models.Timeline.{CaseEvent, CaseEventNote}
use counselready.Models.Jobs.{Job}

pub record Database : Type 0 where
  pub user_account : List UserAccount
  pub user_session : List UserSession
  pub used_refresh_token : List UsedRefreshToken
  pub auth_event : List AuthEvent
  pub user_mfa : List UserMfa
  pub recovery_code : List RecoveryCode
  pub passkey : List Passkey
  pub passkey_challenge : List PasskeyChallenge
  pub legal_case : List Case
  pub party : List Party
  pub case_audit_event : List CaseAuditEvent
  pub document : List Document
  pub document_page : List DocumentPage
  pub passage : List Passage
  pub extracted_fact : List ExtractedFact
  pub case_event : List CaseEvent
  pub case_event_note : List CaseEventNote
  pub job : List Job

-- A database with no rows.
abbrev pub empty_database : Database
empty_database = record {
  user_account = [];
  user_session = [];
  used_refresh_token = [];
  auth_event = [];
  user_mfa = [];
  recovery_code = [];
  passkey = [];
  passkey_challenge = [];
  legal_case = [];
  party = [];
  case_audit_event = [];
  document = [];
  document_page = [];
  passage = [];
  extracted_fact = [];
  case_event = [];
  case_event_note = [];
  job = [];
}
