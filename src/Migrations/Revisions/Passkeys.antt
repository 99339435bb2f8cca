-- ===== src/Migrations/Revisions/Passkeys.antt =====
-- Revision 27d0756116a0: passkey credentials (backend/alembic/versions/27d0756116a0_passkey_credentials.py).
use counselready.Common.{List, [], ◌∷◌}
use counselready.Migrations.Schema.{
  string, uuid, boolean, big_integer, large_binary, timestamp_tz, cascade, primary_key, Table,
}
use counselready.Migrations.Operations.{Op, create_table, drop_table, drop_index}
use counselready.Migrations.Revisions.Columns.{
  required, optional, id_and_timestamps, reference, plain_index, unique_index,
}

abbrev pub passkey_table : Table
passkey_table = record {
  name = "passkey";
  columns =
      (required "user_id" uuid)
      ∷ (required "credential_id" large_binary)
      ∷ (required "public_key" large_binary)
      ∷ (required "sign_count" big_integer)
      ∷ (required "backed_up" boolean)
      ∷ (optional "label" (string 120))
      ∷ (optional "last_used_at" timestamp_tz)
      ∷ id_and_timestamps;
  constraints =
      (reference "fk_passkey_user_id_user_account" "user_id" "user_account" cascade)
      ∷ (primary_key "pk_passkey" ("id" ∷ []))
      ∷ [];
}

abbrev pub passkey_challenge_table : Table
passkey_challenge_table = record {
  name = "passkey_challenge";
  columns =
      (optional "user_id" uuid)
      ∷ (required "challenge" (string 128))
      ∷ (required "expires_at" timestamp_tz)
      ∷ id_and_timestamps;
  constraints =
      (reference "fk_passkey_challenge_user_id_user_account" "user_id" "user_account" cascade)
      ∷ (primary_key "pk_passkey_challenge" ("id" ∷ []))
      ∷ [];
}

abbrev pub upgrade : List Op
upgrade =
    create_table passkey_table
    ∷ unique_index "ix_passkey_credential_id" "passkey" ("credential_id" ∷ [])
    ∷ plain_index "ix_passkey_user_id" "passkey" ("user_id" ∷ [])
    ∷ create_table passkey_challenge_table
    ∷ plain_index "ix_passkey_challenge_user_id" "passkey_challenge" ("user_id" ∷ [])
    ∷ unique_index "ix_passkey_challenge_value" "passkey_challenge" ("challenge" ∷ [])
    ∷ []

abbrev pub downgrade : List Op
downgrade =
    drop_index "ix_passkey_challenge_value" "passkey_challenge"
    ∷ drop_index "ix_passkey_challenge_user_id" "passkey_challenge"
    ∷ drop_table "passkey_challenge"
    ∷ drop_index "ix_passkey_user_id" "passkey"
    ∷ drop_index "ix_passkey_credential_id" "passkey"
    ∷ drop_table "passkey"
    ∷ []
