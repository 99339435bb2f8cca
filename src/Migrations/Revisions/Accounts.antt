-- ===== src/Migrations/Revisions/Accounts.antt =====
-- Revision 6d9928f10001: accounts, sessions and the authentication audit (backend/alembic/versions/6d9928f10001_auth_accounts_sessions_and_audit.py).
use counselready.Common.{List, [], ◌∷◌}
use counselready.Migrations.Schema.{
  enumeration, string, uuid, timestamp_tz, cascade, set_null, primary_key, Table, Enum,
}
use counselready.Migrations.Operations.{
  Op, create_enum, drop_enum, create_table, drop_table, drop_index, add_column, drop_column,
}
use counselready.Migrations.Revisions.Columns.{
  required, optional, id_and_timestamps, reference, plain_index, unique_index,
}

abbrev pub auth_event_type : Enum
auth_event_type = record {
  name = "auth_event_type";
  values = ("login_succeeded" ∷ "login_failed" ∷ []);
}

abbrev pub auth_event_table : Table
auth_event_table = record {
  name = "auth_event";
  columns =
      (required "email" (string 320))
      ∷ (optional "user_id" uuid)
      ∷ (required "event_type" (enumeration "auth_event_type"))
      ∷ id_and_timestamps;
  constraints =
      (reference "fk_auth_event_user_id_user_account" "user_id" "user_account" set_null)
      ∷ (primary_key "pk_auth_event" ("id" ∷ []))
      ∷ [];
}

abbrev pub user_session_table : Table
user_session_table = record {
  name = "user_session";
  columns =
      (required "user_id" uuid)
      ∷ (required "refresh_digest" (string 64))
      ∷ (required "expires_at" timestamp_tz)
      ∷ (optional "revoked_at" timestamp_tz)
      ∷ (optional "last_used_at" timestamp_tz)
      ∷ id_and_timestamps;
  constraints =
      (reference "fk_user_session_user_id_user_account" "user_id" "user_account" cascade)
      ∷ (primary_key "pk_user_session" ("id" ∷ []))
      ∷ [];
}

abbrev pub used_refresh_token_table : Table
used_refresh_token_table = record {
  name = "used_refresh_token";
  columns = (required "session_id" uuid) ∷ (required "digest" (string 64)) ∷ id_and_timestamps;
  constraints =
      (reference "fk_used_refresh_token_session_id_user_session" "session_id" "user_session"
        cascade)
      ∷ (primary_key "pk_used_refresh_token" ("id" ∷ []))
      ∷ [];
}

abbrev pub upgrade : List Op
upgrade =
    create_enum auth_event_type
    ∷ create_table auth_event_table
    ∷ plain_index "ix_auth_event_email_type_created" "auth_event"
        ("email" ∷ "event_type" ∷ "created_at" ∷ [])
    ∷ plain_index "ix_auth_event_user_id" "auth_event" ("user_id" ∷ [])
    ∷ create_table user_session_table
    ∷ unique_index "ix_user_session_refresh_digest" "user_session" ("refresh_digest" ∷ [])
    ∷ plain_index "ix_user_session_user_id" "user_session" ("user_id" ∷ [])
    ∷ create_table used_refresh_token_table
    ∷ unique_index "ix_used_refresh_token_digest" "used_refresh_token" ("digest" ∷ [])
    ∷ plain_index "ix_used_refresh_token_session_id" "used_refresh_token" ("session_id" ∷ [])
    ∷ add_column "user_account" (optional "password_hash" (string 255))
    ∷ []

abbrev pub downgrade : List Op
downgrade =
    drop_column "user_account" "password_hash"
    ∷ drop_index "ix_used_refresh_token_session_id" "used_refresh_token"
    ∷ drop_index "ix_used_refresh_token_digest" "used_refresh_token"
    ∷ drop_table "used_refresh_token"
    ∷ drop_index "ix_user_session_user_id" "user_session"
    ∷ drop_index "ix_user_session_refresh_digest" "user_session"
    ∷ drop_table "user_session"
    ∷ drop_index "ix_auth_event_user_id" "auth_event"
    ∷ drop_index "ix_auth_event_email_type_created" "auth_event"
    ∷ drop_table "auth_event"
    ∷ drop_enum auth_event_type.name
    ∷ []
