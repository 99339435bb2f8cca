-- ===== src/Migrations/Revisions/TimelineNotes.antt =====
-- Revision 4b7c1d90e2aa: timeline notes and audit actions (backend/alembic/versions/4b7c1d90e2aa_timeline_notes_and_audit_actions.py).
use counselready.Common.{String, none, List, [], ◌∷◌, ◌++◌, map}
use counselready.Migrations.Schema.{uuid, text, cascade, primary_key, Table}
use counselready.Migrations.Operations.{
  Op, add_value, create_table, drop_table, drop_index, delete_where, rename_type, create_type,
  alter_column_type, drop_type,
}
use counselready.Migrations.Revisions.Columns.{required, id_and_timestamps, reference, plain_index}

abbrev pub previous_values : List String
previous_values =
    "case_created" ∷ "case_read" ∷ "case_list" ∷ "document_uploaded" ∷ "document_list"
    ∷ "document_read" ∷ []

abbrev pub new_values : List String
new_values = "event_created" ∷ "event_list" ∷ "event_note_created" ∷ []

abbrev pub case_event_note_table : Table
case_event_note_table = record {
  name = "case_event_note";
  columns =
      (required "event_id" uuid)
      ∷ (required "author_user_id" uuid)
      ∷ (required "body" text)
      ∷ id_and_timestamps;
  constraints =
      (reference "fk_case_event_note_author_user_id_user_account" "author_user_id" "user_account"
        cascade)
      ∷ (reference "fk_case_event_note_event_id_case_event" "event_id" "case_event" cascade)
      ∷ (primary_key "pk_case_event_note" ("id" ∷ []))
      ∷ [];
}

abbrev pub upgrade : List Op
upgrade =
    map (λ value. add_value "case_action" value none) new_values
    ++ (create_table case_event_note_table
        ∷ plain_index "ix_case_event_note_event_created" "case_event_note"
            ("event_id" ∷ "created_at" ∷ [])
        ∷ [])

abbrev pub downgrade : List Op
downgrade =
    drop_index "ix_case_event_note_event_created" "case_event_note"
    ∷ drop_table "case_event_note"
    ∷ delete_where "case_audit_event" "action" new_values
    ∷ rename_type "case_action" "case_action_old"
    ∷ create_type "case_action" previous_values
    ∷ alter_column_type "case_audit_event" "action" "case_action"
    ∷ drop_type "case_action_old"
    ∷ []
