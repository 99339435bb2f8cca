-- ===== src/Api/Accounts.antt =====
-- backend/app/api/auth.py
pub mod Exchanges
pub mod Transactions
pub mod Access
use counselready.Common.{ℕ, Bool, true, false, ◌&&◌, Option, none, some, is_none}
use counselready.Common.Equality.{◌==◌, nat_eq}
use counselready.Common.Text.{Text}
use counselready.Effects.Exceptions.{
  Exn, http, rate_limited, authentication_error, invalid_refresh_token, weak_password,
  email_already_registered,
}
use counselready.Effects.Action.{Action, Result, ok, err, ◌>>=◌, ◌>>◌, pure, raise, catch, modify}
use counselready.Effects.Library.{Library, Moment, Draw}
use counselready.Models.Accounts.{UserAccount}
use counselready.Models.Database.{Database}
use counselready.Auth.Sessions.{
  IssuedSession, Login, issued, mfa_required, authenticate, refresh_session, register_account,
  revoke_session, update_sessions,
}
use counselready.Api.Deps.{authenticated, current_user}

abbrev pub invalid_credentials : Exn
invalid_credentials = http 401 "Invalid email or password" none

abbrev pub invalid_refresh : Exn
invalid_refresh = http 401 "Session is no longer valid" none

pub record TokenResponse : Type 0 where
  pub access_token : Text
  pub refresh_token : Text

pub data LoginResponse : Type 0 where
  tokens : TokenResponse → LoginResponse
  challenge : Text → LoginResponse

pub record AccountResponse : Type 0 where
  pub id : ℕ
  pub email : Text
  pub display_name : Option Text

abbrev pub account_response : UserAccount → AccountResponse
account_response a = record { id = a.id; email = a.email; display_name = a.display_name }

-- `_tokens`
abbrev pub tokens_of : IssuedSession → TokenResponse
tokens_of s = record { access_token = s.access_token; refresh_token = s.refresh_token }

unfoldable pub login_response : Login → LoginResponse
login_response (mfa_required token user_id) = challenge token
login_response (issued s) = tokens (tokens_of s)

-- The `except` clauses of `register`, `login` and `refresh`. The detail of the 422 is the exception's
-- message, for which a fixed text stands.
unfoldable pub register_error : Exn → Exn
register_error weak_password = http 422 "password length" none
register_error email_already_registered = http 409 "Email is already registered" none
register_error e = e

unfoldable pub login_error : Exn → Exn
login_error (rate_limited retry_after) =
    http 429 "Too many sign-in attempts. Try again later." (some retry_after)
login_error authentication_error = invalid_credentials
login_error e = e

unfoldable pub refresh_error : Exn → Exn
refresh_error invalid_refresh_token = invalid_refresh
refresh_error e = e

-- The one statement that `logout_everywhere` executes.
abbrev pub end_sessions_of : ℕ → ℕ → Database → Database
end_sessions_of user_id now =
    update_sessions (λ s. (s.user_id == user_id) && is_none s.revoked_at)
      (λ s. record s { revoked_at = some now })

module _ (lib : Library) where
  unfoldable pub register : Text → Text → Option Text → Draw → Action Database AccountResponse
  register email password display_name draw = do
    account ←
        catch (register_account lib email password display_name draw)
          (λ e. raise (register_error e))
    pure (account_response account)

  unfoldable pub login : Text → Text → Text → Moment → Draw → Action Database LoginResponse
  login email password secret t draw = do
    outcome ← catch (authenticate lib email password secret t draw) (λ e. raise (login_error e))
    pure (login_response outcome)

  unfoldable pub refresh : Text → Text → Moment → Draw → Action Database TokenResponse
  refresh refresh_token secret t draw = do
    session ←
        catch (refresh_session lib refresh_token secret t.now draw) (λ e. raise (refresh_error e))
    pure (tokens_of session)

  unfoldable pub logout : Option Text → Text → Moment → Action Database (Unit {0})
  logout credentials secret t = do
    auth ← authenticated lib credentials secret t.now
    revoke_session auth.session_id t.now

  unfoldable pub me : Option Text → Text → Moment → Action Database AccountResponse
  me credentials secret t = do
    account ← current_user lib credentials secret t.now
    pure (account_response account)

  unfoldable pub logout_everywhere : Option Text → Text → Moment → Action Database (Unit {0})
  logout_everywhere credentials secret t = do
    account ← current_user lib credentials secret t.now
    modify (end_sessions_of account.id t.now)
