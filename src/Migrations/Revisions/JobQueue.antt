-- ===== src/Migrations/Revisions/JobQueue.antt =====
-- Revision 00002f9f0461: the background job queue (backend/alembic/versions/00002f9f0461_background_job_queue.py).
use counselready.Common.{List, [], ◌∷◌, ◌++◌, map}
use mathlib.Core.List.{reverse}
use counselready.Migrations.Schema.{
  enumeration, string, integer, text, json_b, timestamp_tz, primary_key, Table, Enum,
}
use counselready.Migrations.Operations.{
  Op, create_enum, drop_enum, create_table, drop_table, drop_index,
}
use counselready.Migrations.Revisions.Columns.{required, optional, id_and_timestamps, plain_index}

abbrev pub job_kind : Enum
job_kind = record { name = "job_kind"; values = ("ocr_document" ∷ []) }

abbrev pub job_status : Enum
job_status = record {
  name = "job_status";
  values = ("queued" ∷ "running" ∷ "succeeded" ∷ "failed" ∷ []);
}

abbrev pub all_enums : List Enum
all_enums = job_kind ∷ job_status ∷ []

abbrev pub job_table : Table
job_table = record {
  name = "job";
  columns =
      (required "kind" (enumeration "job_kind"))
      ∷ (required "status" (enumeration "job_status"))
      ∷ (required "payload" json_b)
      ∷ (required "attempts" integer)
      ∷ (required "run_after" timestamp_tz)
      ∷ (optional "last_error" (string 120))
      ∷ (optional "notes" text)
      ∷ id_and_timestamps;
  constraints = (primary_key "pk_job" ("id" ∷ [])) ∷ [];
}

abbrev pub upgrade : List Op
upgrade =
    map create_enum all_enums
    ++ (create_table job_table
        ∷ plain_index "ix_job_status_run_after" "job" ("status" ∷ "run_after" ∷ [])
        ∷ [])

abbrev pub downgrade : List Op
downgrade =
    (drop_index "ix_job_status_run_after" "job" ∷ drop_table "job" ∷ [])
    ++ map (λ e. drop_enum e.name) (reverse all_enums)
