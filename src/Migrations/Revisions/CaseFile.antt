-- ===== src/Migrations/Revisions/CaseFile.antt =====
-- Revision 2d61942264a6: the core case file schema (backend/alembic/versions/2d61942264a6_core_case_file_schema.py).
use counselready.Common.{List, [], ◌∷◌, ◌++◌, map}
use mathlib.Core.List.{reverse}
use counselready.Migrations.Schema.{
  enumeration, string, uuid, boolean, integer, float, text, timestamp_tz, cascade, check,
  primary_key, unique, Table, Enum,
}
use counselready.Migrations.Operations.{
  Op, create_enum, drop_enum, create_table, drop_table, drop_index,
}
use counselready.Migrations.Revisions.Columns.{
  required, optional, id_and_timestamps, reference, plain_index,
}

abbrev pub jurisdiction : Enum
jurisdiction = record { name = "jurisdiction"; values = ("florida" ∷ []) }

abbrev pub party_role : Enum
party_role = record {
  name = "party_role";
  values =
      ("petitioner" ∷ "respondent" ∷ "child" ∷ "counsel" ∷ "guardian_ad_litem" ∷ "evaluator"
        ∷ "judge" ∷ "other" ∷ []);
}

abbrev pub document_kind : Enum
document_kind = record {
  name = "document_kind";
  values =
      ("unclassified" ∷ "petition" ∷ "motion" ∷ "response" ∷ "order" ∷ "notice"
        ∷ "financial_affidavit" ∷ "parenting_plan" ∷ "evaluation" ∷ "correspondence" ∷ "exhibit"
        ∷ "other" ∷ []);
}

abbrev pub ingest_source : Enum
ingest_source = record { name = "ingest_source"; values = ("upload" ∷ "camera" ∷ "email" ∷ []) }

abbrev pub ocr_status : Enum
ocr_status = record {
  name = "ocr_status";
  values = ("pending" ∷ "processing" ∷ "complete" ∷ "failed" ∷ []);
}

abbrev pub fact_field : Enum
fact_field = record {
  name = "fact_field";
  values =
      ("case_number" ∷ "court" ∷ "judge" ∷ "document_kind" ∷ "filed_date" ∷ "served_date"
        ∷ "party_name" ∷ "counsel_name" ∷ "requested_relief" ∷ "referenced_exhibit"
        ∷ "referenced_date" ∷ "monetary_amount" ∷ []);
}

abbrev pub all_enums : List Enum
all_enums = jurisdiction ∷ party_role ∷ document_kind ∷ ingest_source ∷ ocr_status ∷ fact_field ∷ []

abbrev pub user_account_table : Table
user_account_table = record {
  name = "user_account";
  columns =
      (required "email" (string 320))
      ∷ (optional "display_name" (string 200))
      ∷ (required "active" boolean)
      ∷ id_and_timestamps;
  constraints =
      (primary_key "pk_user_account" ("id" ∷ []))
      ∷ (unique "uq_user_account_email" ("email" ∷ []))
      ∷ [];
}

abbrev pub case_table : Table
case_table = record {
  name = "case";
  columns =
      (required "owner_id" uuid)
      ∷ (required "title" (string 200))
      ∷ (required "jurisdiction" (enumeration "jurisdiction"))
      ∷ (optional "court" (string 200))
      ∷ (optional "case_number" (string 100))
      ∷ id_and_timestamps;
  constraints =
      (reference "fk_case_owner_id_user_account" "owner_id" "user_account" cascade)
      ∷ (primary_key "pk_case" ("id" ∷ []))
      ∷ [];
}

abbrev pub party_table : Table
party_table = record {
  name = "party";
  columns =
      (required "case_id" uuid)
      ∷ (required "display_name" (string 200))
      ∷ (required "role" (enumeration "party_role"))
      ∷ (required "is_minor" boolean)
      ∷ id_and_timestamps;
  constraints =
      (reference "fk_party_case_id_case" "case_id" "case" cascade)
      ∷ (primary_key "pk_party" ("id" ∷ []))
      ∷ (unique "uq_party_case_id_display_name_role" ("case_id" ∷ "display_name" ∷ "role" ∷ []))
      ∷ [];
}

abbrev pub document_table : Table
document_table = record {
  name = "document";
  columns =
      (required "case_id" uuid)
      ∷ (required "title" (string 300))
      ∷ (required "kind" (enumeration "document_kind"))
      ∷ (required "ingest_source" (enumeration "ingest_source"))
      ∷ (required "storage_key" (string 500))
      ∷ (required "content_hash" (string 64))
      ∷ (optional "filed_at" timestamp_tz)
      ∷ (optional "served_at" timestamp_tz)
      ∷ (required "page_count" integer)
      ∷ (required "ocr_status" (enumeration "ocr_status"))
      ∷ id_and_timestamps;
  constraints =
      (check "ck_document_page_count_non_negative" "page_count >= 0")
      ∷ (reference "fk_document_case_id_case" "case_id" "case" cascade)
      ∷ (primary_key "pk_document" ("id" ∷ []))
      ∷ (unique "uq_document_case_id_content_hash" ("case_id" ∷ "content_hash" ∷ []))
      ∷ [];
}

abbrev pub document_page_table : Table
document_page_table = record {
  name = "document_page";
  columns =
      (required "document_id" uuid)
      ∷ (required "page_number" integer)
      ∷ (required "text" text)
      ∷ (optional "ocr_confidence" float)
      ∷ id_and_timestamps;
  constraints =
      (check "ck_document_page_ocr_confidence_is_a_fraction"
        "ocr_confidence IS NULL OR (ocr_confidence >= 0 AND ocr_confidence <= 1)")
      ∷ (check "ck_document_page_page_number_positive" "page_number >= 1")
      ∷ (reference "fk_document_page_document_id_document" "document_id" "document" cascade)
      ∷ (primary_key "pk_document_page" ("id" ∷ []))
      ∷ (unique "uq_document_page_document_id_page_number" ("document_id" ∷ "page_number" ∷ []))
      ∷ [];
}

abbrev pub passage_table : Table
passage_table = record {
  name = "passage";
  columns =
      (required "page_id" uuid)
      ∷ (required "start_offset" integer)
      ∷ (required "end_offset" integer)
      ∷ (required "quote" text)
      ∷ id_and_timestamps;
  constraints =
      (check "ck_passage_end_offset_after_start" "end_offset > start_offset")
      ∷ (check "ck_passage_start_offset_non_negative" "start_offset >= 0")
      ∷ (reference "fk_passage_page_id_document_page" "page_id" "document_page" cascade)
      ∷ (primary_key "pk_passage" ("id" ∷ []))
      ∷ [];
}

abbrev pub extracted_fact_table : Table
extracted_fact_table = record {
  name = "extracted_fact";
  columns =
      (required "document_id" uuid)
      ∷ (required "passage_id" uuid)
      ∷ (required "field" (enumeration "fact_field"))
      ∷ (required "value" text)
      ∷ (required "extractor_version" (string 100))
      ∷ (optional "confidence" float)
      ∷ id_and_timestamps;
  constraints =
      (check "ck_extracted_fact_confidence_is_a_fraction"
        "confidence IS NULL OR (confidence >= 0 AND confidence <= 1)")
      ∷ (reference "fk_extracted_fact_document_id_document" "document_id" "document" cascade)
      ∷ (reference "fk_extracted_fact_passage_id_passage" "passage_id" "passage" cascade)
      ∷ (primary_key "pk_extracted_fact" ("id" ∷ []))
      ∷ (unique "uq_extracted_fact_passage_id_field_extractor_version"
          ("passage_id" ∷ "field" ∷ "extractor_version" ∷ []))
      ∷ [];
}

abbrev pub upgrade : List Op
upgrade =
    map create_enum all_enums
    ++ (create_table user_account_table
        ∷ create_table case_table
        ∷ plain_index "ix_case_owner_id" "case" ("owner_id" ∷ [])
        ∷ create_table party_table
        ∷ plain_index "ix_party_case_id" "party" ("case_id" ∷ [])
        ∷ create_table document_table
        ∷ plain_index "ix_document_case_id" "document" ("case_id" ∷ [])
        ∷ create_table document_page_table
        ∷ plain_index "ix_document_page_document_id" "document_page" ("document_id" ∷ [])
        ∷ create_table passage_table
        ∷ plain_index "ix_passage_page_id" "passage" ("page_id" ∷ [])
        ∷ create_table extracted_fact_table
        ∷ plain_index "ix_extracted_fact_document_id" "extracted_fact" ("document_id" ∷ [])
        ∷ plain_index "ix_extracted_fact_passage_id" "extracted_fact" ("passage_id" ∷ [])
        ∷ [])

abbrev pub downgrade : List Op
downgrade =
    (drop_index "ix_extracted_fact_passage_id" "extracted_fact"
      ∷ drop_index "ix_extracted_fact_document_id" "extracted_fact"
      ∷ drop_table "extracted_fact"
      ∷ drop_index "ix_passage_page_id" "passage"
      ∷ drop_table "passage"
      ∷ drop_index "ix_document_page_document_id" "document_page"
      ∷ drop_table "document_page"
      ∷ drop_index "ix_document_case_id" "document"
      ∷ drop_table "document"
      ∷ drop_index "ix_party_case_id" "party"
      ∷ drop_table "party"
      ∷ drop_index "ix_case_owner_id" "case"
      ∷ drop_table "case"
      ∷ drop_table "user_account"
      ∷ [])
    ++ map (λ e. drop_enum e.name) (reverse all_enums)
