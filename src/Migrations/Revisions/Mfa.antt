-- ===== src/Migrations/Revisions/Mfa.antt =====
-- Revision dc19afc76696: second factor enrolment and recovery codes (backend/alembic/versions/dc19afc76696_mfa_enrolment_and_recovery_codes.py).
use counselready.Common.{List, [], ◌∷◌}
use counselready.Migrations.Schema.{
  string, uuid, big_integer, timestamp_tz, cascade, primary_key, Table,
}
use counselready.Migrations.Operations.{Op, create_table, drop_table, drop_index}
use counselready.Migrations.Revisions.Columns.{
  required, optional, id_and_timestamps, reference, unique_index,
}

abbrev pub recovery_code_table : Table
recovery_code_table = record {
  name = "recovery_code";
  columns =
      (required "user_id" uuid)
      ∷ (required "digest" (string 64))
      ∷ (optional "used_at" timestamp_tz)
      ∷ id_and_timestamps;
  constraints =
      (reference "fk_recovery_code_user_id_user_account" "user_id" "user_account" cascade)
      ∷ (primary_key "pk_recovery_code" ("id" ∷ []))
      ∷ [];
}

abbrev pub user_mfa_table : Table
user_mfa_table = record {
  name = "user_mfa";
  columns =
      (required "user_id" uuid)
      ∷ (required "encrypted_secret" (string 500))
      ∷ (optional "confirmed_at" timestamp_tz)
      ∷ (optional "last_used_counter" big_integer)
      ∷ id_and_timestamps;
  constraints =
      (reference "fk_user_mfa_user_id_user_account" "user_id" "user_account" cascade)
      ∷ (primary_key "pk_user_mfa" ("id" ∷ []))
      ∷ [];
}

abbrev pub upgrade : List Op
upgrade =
    create_table recovery_code_table
    ∷ unique_index "ix_recovery_code_user_digest" "recovery_code" ("user_id" ∷ "digest" ∷ [])
    ∷ create_table user_mfa_table
    ∷ unique_index "ix_user_mfa_user_id" "user_mfa" ("user_id" ∷ [])
    ∷ []

abbrev pub downgrade : List Op
downgrade =
    drop_index "ix_user_mfa_user_id" "user_mfa"
    ∷ drop_table "user_mfa"
    ∷ drop_index "ix_recovery_code_user_digest" "recovery_code"
    ∷ drop_table "recovery_code"
    ∷ []
