-- ===== src/Migrations/Metadata/Accounts.antt =====
-- The tables and enum types that backend/app/models/user.py, backend/app/models/session.py, backend/app/models/mfa.py, backend/app/models/passkey.py, backend/app/models/audit.py declare.
use counselready.Common.{true, false, none, List, [], ◌∷◌}
use counselready.Migrations.Schema.{
  enumeration, string, boolean, big_integer, large_binary, json_b, timestamp_tz, cascade, set_null,
  Enum,
}
use counselready.Migrations.Metadata.Model.{Model, named_index, plain, reference}

abbrev pub user_account_model : Model
user_account_model = record {
  tablename = "user_account";
  attributes =
      (record {
        name = "email";
        sql_type = (string 320);
        nullable = false;
        references = none;
        index = false;
        is_unique = true;
      })
      ∷ (plain "display_name" (string 200) true)
      ∷ (plain "active" boolean false)
      ∷ (plain "password_hash" (string 255) true)
      ∷ [];
  table_args = [];
}

abbrev pub user_session_model : Model
user_session_model = record {
  tablename = "user_session";
  attributes =
      (reference "user_id" false ("user_account", cascade) true)
      ∷ (plain "refresh_digest" (string 64) false)
      ∷ (plain "expires_at" timestamp_tz false)
      ∷ (plain "revoked_at" timestamp_tz true)
      ∷ (plain "last_used_at" timestamp_tz true)
      ∷ [];
  table_args = (named_index "ix_user_session_refresh_digest" ("refresh_digest" ∷ []) true) ∷ [];
}

abbrev pub used_refresh_token_model : Model
used_refresh_token_model = record {
  tablename = "used_refresh_token";
  attributes =
      (reference "session_id" false ("user_session", cascade) true)
      ∷ (plain "digest" (string 64) false)
      ∷ [];
  table_args = (named_index "ix_used_refresh_token_digest" ("digest" ∷ []) true) ∷ [];
}

abbrev pub user_mfa_model : Model
user_mfa_model = record {
  tablename = "user_mfa";
  attributes =
      (reference "user_id" false ("user_account", cascade) false)
      ∷ (plain "encrypted_secret" (string 500) false)
      ∷ (plain "confirmed_at" timestamp_tz true)
      ∷ (plain "last_used_counter" big_integer true)
      ∷ [];
  table_args = (named_index "ix_user_mfa_user_id" ("user_id" ∷ []) true) ∷ [];
}

abbrev pub recovery_code_model : Model
recovery_code_model = record {
  tablename = "recovery_code";
  attributes =
      (reference "user_id" false ("user_account", cascade) false)
      ∷ (plain "digest" (string 64) false)
      ∷ (plain "used_at" timestamp_tz true)
      ∷ [];
  table_args = (named_index "ix_recovery_code_user_digest" ("user_id" ∷ "digest" ∷ []) true) ∷ [];
}

abbrev pub passkey_model : Model
passkey_model = record {
  tablename = "passkey";
  attributes =
      (reference "user_id" false ("user_account", cascade) true)
      ∷ (plain "credential_id" large_binary false)
      ∷ (plain "public_key" large_binary false)
      ∷ (plain "sign_count" big_integer false)
      ∷ (plain "backed_up" boolean false)
      ∷ (plain "label" (string 120) true)
      ∷ (plain "last_used_at" timestamp_tz true)
      ∷ [];
  table_args = (named_index "ix_passkey_credential_id" ("credential_id" ∷ []) true) ∷ [];
}

abbrev pub passkey_challenge_model : Model
passkey_challenge_model = record {
  tablename = "passkey_challenge";
  attributes =
      (reference "user_id" true ("user_account", cascade) true)
      ∷ (plain "challenge" (string 128) false)
      ∷ (plain "expires_at" timestamp_tz false)
      ∷ [];
  table_args = (named_index "ix_passkey_challenge_value" ("challenge" ∷ []) true) ∷ [];
}

abbrev pub auth_event_type_type : Enum
auth_event_type_type = record {
  name = "auth_event_type";
  values = ("login_succeeded" ∷ "login_failed" ∷ []);
}

abbrev pub case_action_type : Enum
case_action_type = record {
  name = "case_action";
  values =
      ("case_created" ∷ "case_read" ∷ "case_list" ∷ "document_uploaded" ∷ "document_list"
        ∷ "document_read" ∷ "event_created" ∷ "event_list" ∷ "event_note_created" ∷ []);
}

abbrev pub auth_event_model : Model
auth_event_model = record {
  tablename = "auth_event";
  attributes =
      (plain "email" (string 320) false)
      ∷ (reference "user_id" true ("user_account", set_null) true)
      ∷ (plain "event_type" (enumeration "auth_event_type") false)
      ∷ [];
  table_args =
      (named_index "ix_auth_event_email_type_created" ("email" ∷ "event_type" ∷ "created_at" ∷ [])
        false)
      ∷ [];
}

abbrev pub case_audit_event_model : Model
case_audit_event_model = record {
  tablename = "case_audit_event";
  attributes =
      (reference "actor_user_id" true ("user_account", set_null) true)
      ∷ (reference "case_id" true ("case", set_null) true)
      ∷ (plain "action" (enumeration "case_action") false)
      ∷ (plain "detail" json_b true)
      ∷ [];
  table_args =
      (named_index "ix_case_audit_event_case_created" ("case_id" ∷ "created_at" ∷ []) false) ∷ [];
}

abbrev pub accounts_models : List Model
accounts_models =
    user_account_model ∷ user_session_model ∷ used_refresh_token_model ∷ user_mfa_model
    ∷ recovery_code_model ∷ passkey_model ∷ passkey_challenge_model ∷ auth_event_model
    ∷ case_audit_event_model ∷ []

abbrev pub accounts_types : List Enum
accounts_types = auth_event_type_type ∷ case_action_type ∷ []
