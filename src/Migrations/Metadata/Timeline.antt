-- ===== src/Migrations/Metadata/Timeline.antt =====
-- The tables and enum types that backend/app/models/event.py, backend/app/jobs/models.py declare.
use counselready.Common.{true, false, List, [], ◌∷◌}
use counselready.Migrations.Schema.{
  enumeration, string, integer, text, json_b, timestamp_tz, cascade, set_null, Enum,
}
use counselready.Migrations.Metadata.Model.{Model, check_clause, named_index, plain, reference}

abbrev pub event_kind_type : Enum
event_kind_type = record { name = "event_kind"; values = ("procedural" ∷ "alleged" ∷ []) }

abbrev pub event_provenance_type : Enum
event_provenance_type = record {
  name = "event_provenance";
  values = ("document_derived" ∷ "user_asserted" ∷ []);
}

abbrev pub date_precision_type : Enum
date_precision_type = record {
  name = "date_precision";
  values = ("exact" ∷ "day" ∷ "month" ∷ "year" ∷ []);
}

abbrev pub case_event_model : Model
case_event_model = record {
  tablename = "case_event";
  attributes =
      (reference "case_id" false ("case", cascade) true)
      ∷ (plain "kind" (enumeration "event_kind") false)
      ∷ (plain "provenance" (enumeration "event_provenance") false)
      ∷ (reference "passage_id" true ("passage", cascade) true)
      ∷ (reference "recorded_by_user_id" true ("user_account", cascade) false)
      ∷ (plain "occurred_at" timestamp_tz false)
      ∷ (plain "date_precision" (enumeration "date_precision") false)
      ∷ (plain "summary" text false)
      ∷ (reference "asserted_by_party_id" true ("party", set_null) false)
      ∷ (reference "about_party_id" true ("party", set_null) false)
      ∷ [];
  table_args =
      (check_clause "documentary_events_cite_a_passage"
        "(provenance = 'document_derived' AND passage_id IS NOT NULL) OR (provenance = 'user_asserted' AND passage_id IS NULL)")
      ∷ (check_clause "asserted_events_name_their_author"
          "(provenance = 'user_asserted' AND recorded_by_user_id IS NOT NULL) OR (provenance = 'document_derived' AND recorded_by_user_id IS NULL)")
      ∷ (named_index "ix_case_event_case_id_occurred_at" ("case_id" ∷ "occurred_at" ∷ []) false)
      ∷ [];
}

abbrev pub case_event_note_model : Model
case_event_note_model = record {
  tablename = "case_event_note";
  attributes =
      (reference "event_id" false ("case_event", cascade) false)
      ∷ (reference "author_user_id" false ("user_account", cascade) false)
      ∷ (plain "body" text false)
      ∷ [];
  table_args =
      (named_index "ix_case_event_note_event_created" ("event_id" ∷ "created_at" ∷ []) false) ∷ [];
}

abbrev pub job_kind_type : Enum
job_kind_type = record { name = "job_kind"; values = ("ocr_document" ∷ []) }

abbrev pub job_status_type : Enum
job_status_type = record {
  name = "job_status";
  values = ("queued" ∷ "running" ∷ "succeeded" ∷ "failed" ∷ []);
}

abbrev pub job_model : Model
job_model = record {
  tablename = "job";
  attributes =
      (plain "kind" (enumeration "job_kind") false)
      ∷ (plain "status" (enumeration "job_status") false)
      ∷ (plain "payload" json_b false)
      ∷ (plain "attempts" integer false)
      ∷ (plain "run_after" timestamp_tz false)
      ∷ (plain "last_error" (string 120) true)
      ∷ (plain "notes" text true)
      ∷ [];
  table_args = (named_index "ix_job_status_run_after" ("status" ∷ "run_after" ∷ []) false) ∷ [];
}

abbrev pub timeline_models : List Model
timeline_models = case_event_model ∷ case_event_note_model ∷ job_model ∷ []

abbrev pub timeline_types : List Enum
timeline_types =
    event_kind_type ∷ event_provenance_type ∷ date_precision_type ∷ job_kind_type ∷ job_status_type
    ∷ []
