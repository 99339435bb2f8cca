-- ===== src/Migrations/Revisions/AuditTrail.antt =====
-- Revision be21fb82e87b: the case audit trail (backend/alembic/versions/be21fb82e87b_case_audit_trail.py).
use counselready.Common.{List, [], ◌∷◌}
use counselready.Migrations.Schema.{enumeration, uuid, json_b, set_null, primary_key, Table, Enum}
use counselready.Migrations.Operations.{
  Op, create_enum, drop_enum, create_table, drop_table, drop_index,
}
use counselready.Migrations.Revisions.Columns.{
  required, optional, id_and_timestamps, reference, plain_index,
}

abbrev pub case_action : Enum
case_action = record {
  name = "case_action";
  values =
      ("case_created" ∷ "case_read" ∷ "case_list" ∷ "document_uploaded" ∷ "document_list"
        ∷ "document_read" ∷ []);
}

abbrev pub case_audit_event_table : Table
case_audit_event_table = record {
  name = "case_audit_event";
  columns =
      (optional "actor_user_id" uuid)
      ∷ (optional "case_id" uuid)
      ∷ (required "action" (enumeration "case_action"))
      ∷ (optional "detail" json_b)
      ∷ id_and_timestamps;
  constraints =
      (reference "fk_case_audit_event_actor_user_id_user_account" "actor_user_id" "user_account"
        set_null)
      ∷ (reference "fk_case_audit_event_case_id_case" "case_id" "case" set_null)
      ∷ (primary_key "pk_case_audit_event" ("id" ∷ []))
      ∷ [];
}

abbrev pub upgrade : List Op
upgrade =
    create_enum case_action
    ∷ create_table case_audit_event_table
    ∷ plain_index "ix_case_audit_event_actor_user_id" "case_audit_event" ("actor_user_id" ∷ [])
    ∷ plain_index "ix_case_audit_event_case_created" "case_audit_event"
        ("case_id" ∷ "created_at" ∷ [])
    ∷ plain_index "ix_case_audit_event_case_id" "case_audit_event" ("case_id" ∷ [])
    ∷ []

abbrev pub downgrade : List Op
downgrade =
    drop_index "ix_case_audit_event_case_id" "case_audit_event"
    ∷ drop_index "ix_case_audit_event_case_created" "case_audit_event"
    ∷ drop_index "ix_case_audit_event_actor_user_id" "case_audit_event"
    ∷ drop_table "case_audit_event"
    ∷ drop_enum case_action.name
    ∷ []
