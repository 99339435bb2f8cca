-- ===== src/Models/Accounts.antt =====
-- Accounts and what signs them in: backend/app/models/user.py, session.py, audit.py (AuthEvent),
-- mfa.py and passkey.py. A uuid is a number that is only compared, and a time is in whole seconds.
-- `id` and `created_at` stand where the program reads them; `updated_at` is read nowhere.
use counselready.Common.{ℕ, Bool, true, false, Option, ◌&&◌, is_some, is_none, ltb}
use counselready.Common.Text.{Text}
use counselready.Common.Int.{ℤ}
use counselready.Effects.Library.{Bytes}

pub record UserAccount : Type 0 where
  pub id : ℕ
  pub email : Text
  pub display_name : Option Text
  pub active : Bool
  pub password_hash : Option Text

pub record UserSession : Type 0 where
  pub id : ℕ
  pub user_id : ℕ
  pub refresh_digest : Text
  pub expires_at : ℕ
  pub revoked_at : Option ℕ
  pub last_used_at : Option ℕ

-- `UserSession.is_active`
unfoldable pub is_active : UserSession → ℕ → Bool
is_active s now = is_none s.revoked_at && ltb now s.expires_at

pub record UsedRefreshToken : Type 0 where
  pub session_id : ℕ
  pub digest : Text

pub data AuthEventType : Type 0 where
  login_succeeded login_failed : AuthEventType

-- `event_type == AuthEventType.login_failed`
abbrev pub is_login_failed : AuthEventType → Bool
is_login_failed login_succeeded = false
is_login_failed login_failed = true

pub record AuthEvent : Type 0 where
  pub email : Text
  pub user_id : Option ℕ
  pub event_type : AuthEventType
  pub created_at : ℕ

pub record UserMfa : Type 0 where
  pub user_id : ℕ
  pub encrypted_secret : Text
  pub confirmed_at : Option ℕ
  pub last_used_counter : Option ℤ

-- `UserMfa.is_active`
abbrev pub mfa_is_active : UserMfa → Bool
mfa_is_active m = is_some m.confirmed_at

pub record RecoveryCode : Type 0 where
  pub user_id : ℕ
  pub digest : Text
  pub used_at : Option ℕ

pub record Passkey : Type 0 where
  pub id : ℕ
  pub user_id : ℕ
  pub credential_id : Bytes
  pub public_key : Bytes
  pub sign_count : ℕ
  pub backed_up : Bool
  pub label : Option Text
  pub last_used_at : Option ℕ

pub record PasskeyChallenge : Type 0 where
  pub user_id : Option ℕ
  pub challenge : Text
  pub expires_at : ℕ
