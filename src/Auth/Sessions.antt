-- ===== src/Auth/Sessions.antt =====
-- backend/app/auth/service.py: registration, the password login, refresh rotation and revocation.
pub mod Authenticate
pub mod Failures
pub mod Refresh
pub mod Revocation
use counselready.Common.{
  [], ℕ, ◌+◌, ◌-◌, ◌*◌, Bool, true, false, not, ◌&&◌, ◌||◌, Option, none, some, leb, is_none,
  if◌then◌else◌,
}
use counselready.Common.Equality.{◌==◌, nat_eq, list_eq}
use counselready.Common.Table.{find_row, count_rows, update_rows, add_row, any_row}
use counselready.Common.Text.{Text, strip, to_casefold}
use counselready.Effects.Exceptions.{
  Exn, authentication_error, rate_limited, email_already_registered, invalid_refresh_token,
  integrity_error,
}
use counselready.Effects.Action.{
  Action, Result, ok, err, ◌>>=◌, ◌>>◌, pure, raise, gets, or_raise, raise_if, modify, when,
  insert_unique,
}
use counselready.Effects.Library.{Library, Moment, Draw}
use counselready.Models.Accounts.{
  UserAccount, UserSession, UsedRefreshToken, AuthEvent, AuthEventType, login_succeeded,
  login_failed, is_login_failed, UserMfa, mfa_is_active, is_active,
}
use counselready.Models.Database.{Database}
use counselready.Auth.Mfa.{is_mfa_active}
use counselready.Auth.Passwords.{hash_password, verify_password_against, needs_rehash}
use counselready.Auth.Tokens.{
  issue_access_token, issue_mfa_challenge, hash_refresh_token, refresh_expiry,
}

abbrev pub max_failed_logins : ℕ
max_failed_logins = 10

abbrev pub login_window : ℕ
login_window = 15 * 60

pub record IssuedSession : Type 0 where
  pub access_token : Text
  pub refresh_token : Text
  pub session_id : ℕ
  pub user : UserAccount

-- The result of `authenticate`: an `IssuedSession`, or an `MfaRequired` with its challenge.
pub data Login : Type 0 where
  issued : IssuedSession → Login
  mfa_required : Text → ℕ → Login

abbrev pub account_by_email : Text → Database → Option UserAccount
account_by_email email db = find_row (λ a. a.email == email) db.user_account

abbrev pub account_by_id : ℕ → Database → Option UserAccount
account_by_id user_id db = find_row (λ a. a.id == user_id) db.user_account

abbrev pub session_by_id : ℕ → Database → Option UserSession
session_by_id session_id db = find_row (λ s. s.id == session_id) db.user_session

abbrev pub session_by_digest : Text → Database → Option UserSession
session_by_digest digest db = find_row (λ s. s.refresh_digest == digest) db.user_session

abbrev pub used_token : Text → Database → Option UsedRefreshToken
used_token digest db = find_row (λ u. u.digest == digest) db.used_refresh_token

-- `_failed_attempts_since`
unfoldable pub failed_attempts_since : Text → ℕ → Database → ℕ
failed_attempts_since email since db =
    count_rows (λ e. (e.email == email) && is_login_failed e.event_type && leb since e.created_at)
      db.auth_event

abbrev pub put_auth_event : AuthEvent → Database → Database
put_auth_event e db = record db { auth_event = add_row e db.auth_event }

abbrev pub update_sessions :
    (UserSession → Bool) → (UserSession → UserSession) → Database → Database
update_sessions p f db = record db { user_session = update_rows p f db.user_session }

-- The failure that is recorded and raised alike for an unknown email, a wrong password and a
-- deactivated account.
unfoldable pub fail_login : {A : Type 0} → Text → Option UserAccount → Moment → Action Database A
fail_login normalized account t = do
  modify (
      put_auth_event (record {
        email = normalized;
        user_id = elim account [ none ↦ none | some a ↦ some a.id ];
        event_type = login_failed;
        created_at = t.transaction;
      }))
  raise authentication_error

-- `_revoke_session_by_id`, which `revoke_session` calls
unfoldable pub revoke_session : ℕ → ℕ → Action Database (Unit {0})
revoke_session session_id now = modify (
    update_sessions (λ s. (s.id == session_id) && is_none s.revoked_at)
      (λ s. record s { revoked_at = some now }))

-- A replayed token: its session is revoked, then the raise hands the state to the rollback.
unfoldable pub refresh_replayed : UsedRefreshToken → ℕ → Action Database IssuedSession
refresh_replayed used now = do revoke_session used.session_id now; raise invalid_refresh_token

-- `user_session is None or not user_session.is_active(now)`, negated
abbrev pub live : Option UserSession → ℕ → Option UserSession
live none now = none
live (some s) now = if is_active s now then some s else none

-- `load_active_session`
unfoldable pub load_active_session : ℕ → ℕ → Database → Option UserSession
load_active_session session_id now db = live (session_by_id session_id db) now

-- `account is None or not account.active`, negated
abbrev pub enabled : Option UserAccount → Option UserAccount
enabled none = none
enabled (some a) = if a.active then some a else none

module _ (lib : Library) where
  unfoldable pub normalize_email : Text → Text
  normalize_email email = to_casefold lib.unicode (strip lib.unicode email)

  -- The flush fails on the unique index of `email`, and the rollback leaves nothing behind.
  unfoldable pub register_account : Text → Text → Option Text → Draw → Action Database UserAccount
  register_account email password display_name draw = do
    password_hash ← hash_password lib draw.salt password
    let account : UserAccount = record {
      id = draw.uuid;
      email = normalize_email email;
      display_name = display_name;
      active = true;
      password_hash = some password_hash;
    }
    taken ← gets (λ db. any_row (λ a. a.email == account.email) db.user_account)
    raise_if taken email_already_registered
    modify (λ db. record db { user_account = add_row account db.user_account })
    pure account

  -- `_issue_session`
  unfoldable pub issue_session : UserAccount → Text → ℕ → Draw → Action Database IssuedSession
  issue_session account secret now draw = do
    let digest = hash_refresh_token lib draw.token
    let user_session : UserSession = record {
      id = draw.uuid;
      user_id = account.id;
      refresh_digest = digest;
      expires_at = refresh_expiry now;
      revoked_at = none;
      last_used_at = some now;
    }
    insert_unique (λ s. s.refresh_digest == digest) user_session (λ db. db.user_session)
        (λ rows db. record db { user_session = rows })
    pure (record {
      access_token = issue_access_token lib account.id draw.uuid secret now;
      refresh_token = draw.token;
      session_id = draw.uuid;
      user = account;
    })

  -- The stored hash moves forward to the current parameters.
  unfoldable pub migrate_hash : UserAccount → Text → ℕ → Action Database UserAccount
  migrate_hash account password salt db =
      let stored : Text = elim account.password_hash [ none ↦ [] | some h ↦ h ] in
      if needs_rehash lib stored
      then (do
        password_hash ← hash_password lib salt password
        let migrated : UserAccount = record account { password_hash = some password_hash }
        modify (λ d. record d {
          user_account =
              update_rows (λ a. a.id == account.id)
                (λ a. record a { password_hash = some password_hash }) d.user_account;
        })
        pure migrated)
          db
      else (ok account, db)

  -- What follows once the credentials are accepted.
  unfoldable pub sign_in : UserAccount → Text → Text → Text → Moment → Draw → Action Database Login
  sign_in account normalized password secret t draw = do
    account' ← migrate_hash account password draw.salt
    active ← gets (is_mfa_active account'.id)
    (if active
        then pure (mfa_required (issue_mfa_challenge lib account'.id secret t.now) account'.id)
        else do
          session ← issue_session account' secret t.now draw
          modify (
              put_auth_event (record {
                email = normalized;
                user_id = some account'.id;
                event_type = login_succeeded;
                created_at = t.transaction;
              }))
          pure (issued session))

  -- `account is None or not matched or not account.active`, negated
  abbrev pub accepts : Option UserAccount → Text → Bool
  accepts none password = false
  accepts (some account) password =
      verify_password_against lib password account.password_hash && account.active

  unfoldable pub admit :
      Option UserAccount → Text → Text → Text → Moment → Draw → Action Database Login
  admit none normalized password secret t draw = fail_login normalized none t
  admit (some account) normalized password secret t draw =
      if accepts (some account) password
      then sign_in account normalized password secret t draw
      else fail_login normalized (some account) t

  unfoldable pub authenticate : Text → Text → Text → Moment → Draw → Action Database Login
  authenticate email password secret t draw = do
    let normalized = normalize_email email
    attempts ← gets (failed_attempts_since normalized (t.now - login_window))
    raise_if (leb max_failed_logins attempts) (rate_limited login_window)
    account ← gets (account_by_email normalized)
    admit account normalized password secret t draw

  -- The rotation of a live session's token: the old digest is used up, the new one stands.
  unfoldable pub rotate :
      UserSession → UserAccount → Text → Text → ℕ → Draw → Action Database IssuedSession
  rotate user_session account digest secret now draw = do
    insert_unique (λ u. u.digest == digest)
        (record { session_id = user_session.id; digest = digest }) (λ db. db.used_refresh_token)
        (λ rows db. record db { used_refresh_token = rows })
    let next = hash_refresh_token lib draw.token
    held ← gets (λ db.
        any_row (λ s. (s.refresh_digest == next) && not (s.id == user_session.id)) db.user_session)
    raise_if held integrity_error
    modify (
        update_sessions (λ s. s.id == user_session.id)
          (λ s. record s { refresh_digest = next; last_used_at = some now }))
    pure (record {
      access_token = issue_access_token lib account.id user_session.id secret now;
      refresh_token = draw.token;
      session_id = user_session.id;
      user = account;
    })

  unfoldable pub refresh_fresh : Text → Text → ℕ → Draw → Action Database IssuedSession
  refresh_fresh digest secret now draw = do
    found ← gets (session_by_digest digest)
    user_session ← or_raise (live found now) invalid_refresh_token
    owner ← gets (account_by_id user_session.user_id)
    account ← or_raise (enabled owner) invalid_refresh_token
    rotate user_session account digest secret now draw

  unfoldable pub refresh_branch :
      Option UsedRefreshToken → Text → Text → ℕ → Draw → Action Database IssuedSession
  refresh_branch none digest secret now draw = refresh_fresh digest secret now draw
  refresh_branch (some used) digest secret now draw = refresh_replayed used now

  unfoldable pub refresh_session : Text → Text → ℕ → Draw → Action Database IssuedSession
  refresh_session refresh_token secret now draw = do
    let digest = hash_refresh_token lib refresh_token
    replayed ← gets (used_token digest)
    refresh_branch replayed digest secret now draw

  -- `complete_mfa_login`
  unfoldable pub complete_mfa_login :
      UserAccount → Text → Moment → Draw → Action Database IssuedSession
  complete_mfa_login account secret t draw = do
    session ← issue_session account secret t.now draw
    modify (
        put_auth_event (record {
          email = account.email;
          user_id = some account.id;
          event_type = login_succeeded;
          created_at = t.transaction;
        }))
    pure session
