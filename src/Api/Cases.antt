-- ===== src/Api/Cases.antt =====
-- backend/app/api/cases.py without the upload. A route takes the account that `CurrentUser` yields.
-- Rows that an ORDER BY does not tell apart come in the order of their insertion. The bounds that
-- pydantic sets on a request's body are not modelled.
pub mod Ownership
use counselready.Common.{ℕ, Bool, ◌&&◌, Option, none, some, List, [], ◌∷◌, map, length}
use counselready.Common.Equality.{◌==◌, nat_eq}
use counselready.Common.Sort.{sort_by, by_key}
use counselready.Common.Table.{where_rows, find_row, add_row}
use counselready.Common.Text.{Text}
use counselready.Effects.Exceptions.{Exn, http}
use counselready.Effects.Action.{Action, ok, err, ◌>>=◌, ◌>>◌, pure, gets, or_raise, modify}
use counselready.Effects.Library.{Moment}
use counselready.Models.Accounts.{UserAccount}
use counselready.Models.Cases.{
  Case, Jurisdiction, florida, CaseAction, DetailKey, CaseAuditEvent, case_created, case_list,
  case_read, document_list, document_read, cases, documents, pages,
}
use counselready.Models.Documents.{Document, DocumentPage, DocumentKind, OcrStatus, Passage}
use counselready.Models.Database.{Database}

abbrev pub case_not_found : Exn
case_not_found = http 404 "Case not found" none

abbrev pub document_not_found : Exn
document_not_found = http 404 "Document not found" none

pub record CreateCaseRequest : Type 0 where
  pub title : Text
  pub court : Option Text
  pub case_number : Option Text

pub record CaseResponse : Type 0 where
  pub id : ℕ
  pub title : Text
  pub jurisdiction : Jurisdiction
  pub court : Option Text
  pub case_number : Option Text

pub record DocumentResponse : Type 0 where
  pub id : ℕ
  pub title : Text
  pub kind : DocumentKind
  pub page_count : ℕ
  pub ocr_status : OcrStatus
  pub filed_at : Option ℕ

pub record PassageResponse : Type 0 where
  pub id : ℕ
  pub start_offset : ℕ
  pub end_offset : ℕ
  pub quote : Text

pub record PageResponse : Type 0 where
  pub page_number : ℕ
  pub text : Text
  pub ocr_confidence : Option ℕ
  pub passages : List PassageResponse

pub record DocumentDetailResponse : Type 0 where
  pub document : DocumentResponse
  pub pages : List PageResponse

-- `_case_response`
abbrev pub case_response : Case → CaseResponse
case_response c = record {
  id = c.id;
  title = c.title;
  jurisdiction = c.jurisdiction;
  court = c.court;
  case_number = c.case_number;
}

-- `_document_response`
abbrev pub document_response : Document → DocumentResponse
document_response d = record {
  id = d.id;
  title = d.title;
  kind = d.kind;
  page_count = d.page_count;
  ocr_status = d.ocr_status;
  filed_at = d.filed_at;
}

-- `_passage_response`
abbrev pub passage_response : Passage → PassageResponse
passage_response p = record {
  id = p.id;
  start_offset = p.start_offset;
  end_offset = p.end_offset;
  quote = p.quote;
}

abbrev pub is_owned_case : ℕ → UserAccount → Case → Bool
is_owned_case case_id account c = (c.id == case_id) && (c.owner_id == account.id)

unfoldable pub owned_case : ℕ → UserAccount → Action Database Case
owned_case case_id account = do
  case ← gets (λ db. find_row (is_owned_case case_id account) db.legal_case)
  or_raise case case_not_found

abbrev pub is_document_of : ℕ → Case → Document → Bool
is_document_of document_id case d = (d.id == document_id) && (d.case_id == case.id)

unfoldable pub owned_document : ℕ → ℕ → UserAccount → Action Database Document
owned_document document_id case_id account = do
  case ← owned_case case_id account
  document ← gets (λ db. find_row (is_document_of document_id case) db.document)
  or_raise document document_not_found

-- The row that `_audit` adds.
abbrev pub audit_row :
    UserAccount → Option ℕ → CaseAction → Option (List (DetailKey × ℕ)) → CaseAuditEvent
audit_row account case_id action detail = record {
  actor_user_id = some account.id;
  case_id = case_id;
  action = action;
  detail = detail;
}

-- `_audit`
unfoldable pub audit :
    UserAccount → Option ℕ → CaseAction → Option (List (DetailKey × ℕ)) → Action Database (Unit {0})
audit account case_id action detail = modify (λ db. record db {
  case_audit_event = add_row (audit_row account case_id action detail) db.case_audit_event;
})

unfoldable pub create_case :
    CreateCaseRequest → UserAccount → Moment → ℕ → Action Database CaseResponse
create_case body account t uuid = do
  let case : Case = record {
    id = uuid;
    owner_id = account.id;
    title = body.title;
    jurisdiction = florida;
    court = body.court;
    case_number = body.case_number;
    created_at = t.transaction;
  }
  modify (λ db. record db { legal_case = add_row case db.legal_case })
  audit account (some uuid) case_created none
  pure (case_response case)

-- The rows of a query, in order of their creation.
abbrev pub cases_of : UserAccount → Database → List Case
cases_of account db =
    sort_by (by_key (λ c. c.created_at)) (where_rows (λ c. c.owner_id == account.id) db.legal_case)

abbrev pub documents_of : ℕ → Database → List Document
documents_of case_id db =
    sort_by (by_key (λ d. d.created_at)) (where_rows (λ d. d.case_id == case_id) db.document)

unfoldable pub list_cases : UserAccount → Action Database (List CaseResponse)
list_cases account = do
  found ← gets (cases_of account)
  audit account none case_list (some ((cases, length found) ∷ []))
  pure (map case_response found)

unfoldable pub read_case : ℕ → UserAccount → Action Database CaseResponse
read_case case_id account = do
  case ← owned_case case_id account
  audit account (some case.id) case_read none
  pure (case_response case)

unfoldable pub list_documents : ℕ → UserAccount → Action Database (List DocumentResponse)
list_documents case_id account = do
  case ← owned_case case_id account
  found ← gets (documents_of case.id)
  audit account (some case.id) document_list (some ((documents, length found) ∷ []))
  pure (map document_response found)

abbrev pub pages_of : ℕ → Database → List DocumentPage
pages_of document_id db =
    sort_by (by_key (λ p. p.page_number))
      (where_rows (λ p. p.document_id == document_id) db.document_page)

abbrev pub passages_of : ℕ → Database → List Passage
passages_of page_id db =
    sort_by (by_key (λ p. p.start_offset)) (where_rows (λ p. p.page_id == page_id) db.passage)

abbrev pub page_response : Database → DocumentPage → PageResponse
page_response db page = record {
  page_number = page.page_number;
  text = page.text;
  ocr_confidence = page.ocr_confidence;
  passages = map passage_response (passages_of page.id db);
}

unfoldable pub read_document : ℕ → ℕ → UserAccount → Action Database DocumentDetailResponse
read_document document_id case_id account = do
  document ← owned_document document_id case_id account
  found ← gets (λ db. map (page_response db) (pages_of document.id db))
  audit account (some document.case_id) document_read (some ((pages, length found) ∷ []))
  pure (record { document = document_response document; pages = found })
