-- ===== src/Models/Cases.antt =====
-- Cases, their parties, and the audit trail of case material: backend/app/models/case.py and
-- CaseAuditEvent of backend/app/models/audit.py. The keys of the audit's `detail` are the words
-- that the routes write.
use counselready.Common.{ℕ, Bool, Option, List}
use counselready.Common.Text.{Text}

pub data Jurisdiction : Type 0 where
  florida : Jurisdiction

pub data PartyRole : Type 0 where
  petitioner respondent child counsel guardian_ad_litem evaluator judge other : PartyRole

pub record Case : Type 0 where
  pub id : ℕ
  pub owner_id : ℕ
  pub title : Text
  pub jurisdiction : Jurisdiction
  pub court : Option Text
  pub case_number : Option Text
  pub created_at : ℕ

pub record Party : Type 0 where
  pub id : ℕ
  pub case_id : ℕ
  pub display_name : Text
  pub role : PartyRole
  pub is_minor : Bool

pub data CaseAction : Type 0 where
  case_created case_read case_list document_uploaded document_list document_read : CaseAction
  event_created event_list event_note_created : CaseAction

pub data DetailKey : Type 0 where
  cases documents pages events : DetailKey

pub record CaseAuditEvent : Type 0 where
  pub actor_user_id : Option ℕ
  pub case_id : Option ℕ
  pub action : CaseAction
  pub detail : Option (List (DetailKey × ℕ))
