-- ===== src/Migrations/Metadata/Cases.antt =====
-- The tables and enum types that backend/app/models/case.py, backend/app/models/document.py, backend/app/models/extraction.py declare.
use counselready.Common.{true, false, List, [], ◌∷◌}
use counselready.Migrations.Schema.{
  enumeration, string, boolean, integer, float, text, timestamp_tz, cascade, Enum,
}
use counselready.Migrations.Metadata.Model.{Model, unique_columns, check_clause, plain, reference}

abbrev pub jurisdiction_type : Enum
jurisdiction_type = record { name = "jurisdiction"; values = ("florida" ∷ []) }

abbrev pub party_role_type : Enum
party_role_type = record {
  name = "party_role";
  values =
      ("petitioner" ∷ "respondent" ∷ "child" ∷ "counsel" ∷ "guardian_ad_litem" ∷ "evaluator"
        ∷ "judge" ∷ "other" ∷ []);
}

abbrev pub case_model : Model
case_model = record {
  tablename = "case";
  attributes =
      (reference "owner_id" false ("user_account", cascade) true)
      ∷ (plain "title" (string 200) false)
      ∷ (plain "jurisdiction" (enumeration "jurisdiction") false)
      ∷ (plain "court" (string 200) true)
      ∷ (plain "case_number" (string 100) true)
      ∷ [];
  table_args = [];
}

abbrev pub party_model : Model
party_model = record {
  tablename = "party";
  attributes =
      (reference "case_id" false ("case", cascade) true)
      ∷ (plain "display_name" (string 200) false)
      ∷ (plain "role" (enumeration "party_role") false)
      ∷ (plain "is_minor" boolean false)
      ∷ [];
  table_args = (unique_columns ("case_id" ∷ "display_name" ∷ "role" ∷ [])) ∷ [];
}

abbrev pub document_kind_type : Enum
document_kind_type = record {
  name = "document_kind";
  values =
      ("unclassified" ∷ "petition" ∷ "motion" ∷ "response" ∷ "order" ∷ "notice"
        ∷ "financial_affidavit" ∷ "parenting_plan" ∷ "evaluation" ∷ "correspondence" ∷ "exhibit"
        ∷ "other" ∷ []);
}

abbrev pub ingest_source_type : Enum
ingest_source_type = record {
  name = "ingest_source";
  values = ("upload" ∷ "camera" ∷ "email" ∷ []);
}

abbrev pub ocr_status_type : Enum
ocr_status_type = record {
  name = "ocr_status";
  values = ("pending" ∷ "processing" ∷ "needs_ocr" ∷ "complete" ∷ "failed" ∷ []);
}

abbrev pub document_model : Model
document_model = record {
  tablename = "document";
  attributes =
      (reference "case_id" false ("case", cascade) true)
      ∷ (plain "title" (string 300) false)
      ∷ (plain "kind" (enumeration "document_kind") false)
      ∷ (plain "ingest_source" (enumeration "ingest_source") false)
      ∷ (plain "storage_key" (string 500) false)
      ∷ (plain "content_hash" (string 64) false)
      ∷ (plain "filed_at" timestamp_tz true)
      ∷ (plain "served_at" timestamp_tz true)
      ∷ (plain "page_count" integer false)
      ∷ (plain "ocr_status" (enumeration "ocr_status") false)
      ∷ [];
  table_args =
      (unique_columns ("case_id" ∷ "content_hash" ∷ []))
      ∷ (check_clause "page_count_non_negative" "page_count >= 0")
      ∷ [];
}

abbrev pub document_page_model : Model
document_page_model = record {
  tablename = "document_page";
  attributes =
      (reference "document_id" false ("document", cascade) true)
      ∷ (plain "page_number" integer false)
      ∷ (plain "text" text false)
      ∷ (plain "ocr_confidence" float true)
      ∷ [];
  table_args =
      (unique_columns ("document_id" ∷ "page_number" ∷ []))
      ∷ (check_clause "page_number_positive" "page_number >= 1")
      ∷ (check_clause "ocr_confidence_is_a_fraction"
          "ocr_confidence IS NULL OR (ocr_confidence >= 0 AND ocr_confidence <= 1)")
      ∷ [];
}

abbrev pub passage_model : Model
passage_model = record {
  tablename = "passage";
  attributes =
      (reference "page_id" false ("document_page", cascade) true)
      ∷ (plain "start_offset" integer false)
      ∷ (plain "end_offset" integer false)
      ∷ (plain "quote" text false)
      ∷ [];
  table_args =
      (check_clause "start_offset_non_negative" "start_offset >= 0")
      ∷ (check_clause "end_offset_after_start" "end_offset > start_offset")
      ∷ [];
}

abbrev pub fact_field_type : Enum
fact_field_type = record {
  name = "fact_field";
  values =
      ("case_number" ∷ "court" ∷ "judge" ∷ "document_kind" ∷ "filed_date" ∷ "served_date"
        ∷ "party_name" ∷ "counsel_name" ∷ "requested_relief" ∷ "referenced_exhibit"
        ∷ "referenced_date" ∷ "monetary_amount" ∷ []);
}

abbrev pub extracted_fact_model : Model
extracted_fact_model = record {
  tablename = "extracted_fact";
  attributes =
      (reference "document_id" false ("document", cascade) true)
      ∷ (reference "passage_id" false ("passage", cascade) true)
      ∷ (plain "field" (enumeration "fact_field") false)
      ∷ (plain "value" text false)
      ∷ (plain "extractor_version" (string 100) false)
      ∷ (plain "confidence" float true)
      ∷ [];
  table_args =
      (unique_columns ("passage_id" ∷ "field" ∷ "extractor_version" ∷ []))
      ∷ (check_clause "confidence_is_a_fraction"
          "confidence IS NULL OR (confidence >= 0 AND confidence <= 1)")
      ∷ [];
}

abbrev pub cases_models : List Model
cases_models =
    case_model ∷ party_model ∷ document_model ∷ document_page_model ∷ passage_model
    ∷ extracted_fact_model ∷ []

abbrev pub cases_types : List Enum
cases_types =
    jurisdiction_type ∷ party_role_type ∷ document_kind_type ∷ ingest_source_type ∷ ocr_status_type
    ∷ fact_field_type ∷ []
