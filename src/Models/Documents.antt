-- ===== src/Models/Documents.antt =====
-- Documents, pages, passages and extracted facts: backend/app/models/document.py and
-- backend/app/models/extraction.py. A confidence, a float between 0 and 1, is a whole number of
-- millionths.
use counselready.Common.{ℕ, Option}
use counselready.Common.Text.{Text}

pub data DocumentKind : Type 0 where
  unclassified petition motion response order notice financial_affidavit : DocumentKind
  parenting_plan evaluation correspondence exhibit other : DocumentKind

pub data IngestSource : Type 0 where
  upload camera email : IngestSource

pub data OcrStatus : Type 0 where
  pending processing needs_ocr complete failed : OcrStatus

pub record Document : Type 0 where
  pub id : ℕ
  pub case_id : ℕ
  pub title : Text
  pub kind : DocumentKind
  pub ingest_source : IngestSource
  pub storage_key : Text
  pub content_hash : Text
  pub filed_at : Option ℕ
  pub served_at : Option ℕ
  pub page_count : ℕ
  pub ocr_status : OcrStatus
  pub created_at : ℕ

pub record DocumentPage : Type 0 where
  pub id : ℕ
  pub document_id : ℕ
  pub page_number : ℕ
  pub text : Text
  pub ocr_confidence : Option ℕ

pub record Passage : Type 0 where
  pub id : ℕ
  pub page_id : ℕ
  pub start_offset : ℕ
  pub end_offset : ℕ
  pub quote : Text

pub data FactField : Type 0 where
  case_number court judge document_kind filed_date served_date party_name : FactField
  counsel_name requested_relief referenced_exhibit referenced_date monetary_amount : FactField

pub record ExtractedFact : Type 0 where
  pub document_id : ℕ
  pub passage_id : ℕ
  pub field : FactField
  pub value : Text
  pub extractor_version : Text
  pub confidence : Option ℕ
