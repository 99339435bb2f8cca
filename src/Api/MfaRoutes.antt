-- ===== src/Api/MfaRoutes.antt =====
-- backend/app/api/mfa.py
use counselready.Common.{ℕ, Bool, not, Option, none, if◌then◌else◌}
use counselready.Common.Text.{Text}
use counselready.Effects.Exceptions.{
  Exn, http, mfa_not_configured, mfa_already_enrolled, mfa_not_enrolled, invalid_mfa_code,
  secret_decryption,
}
use counselready.Effects.Action.{Action, ◌>>=◌, ◌>>◌, pure, raise, catch, gets, or_raise, raise_if}
use counselready.Effects.Library.{Library, Moment, Draw}
use counselready.Models.Database.{Database}
use counselready.Auth.Passwords.{verify_password_against}
use counselready.Auth.Tokens.{decode_mfa_challenge}
use counselready.Auth.Totp.{EnrolmentDraw}
use counselready.Auth.Mfa.{
  PendingEnrolment, is_mfa_active, remaining_recovery_codes, start_enrolment, confirm_enrolment,
  verify_code_for_login, disable_mfa,
}
use counselready.Auth.Sessions.{account_by_id, enabled, complete_mfa_login}
use counselready.Api.Deps.{current_user}
use counselready.Api.Accounts.{TokenResponse, tokens_of}

abbrev pub invalid_code : Exn
invalid_code = http 401 "Invalid verification code" none

abbrev pub not_enrolled : Exn
not_enrolled = http 409 "Multi-factor authentication is not enabled" none

abbrev pub mfa_unavailable : Exn
mfa_unavailable = http 503 "Multi-factor authentication is not configured on this server" none

abbrev pub already_enabled : Exn
already_enabled = http 409 "Multi-factor authentication is already enabled" none

pub record StatusResponse : Type 0 where
  pub enabled : Bool
  pub recovery_codes_remaining : ℕ

-- The `except` clauses of each route.
unfoldable pub setup_error : Exn → Exn
setup_error mfa_not_configured = mfa_unavailable
setup_error mfa_already_enrolled = already_enabled
setup_error e = e

unfoldable pub confirm_error : Exn → Exn
confirm_error mfa_not_configured = mfa_unavailable
confirm_error mfa_not_enrolled = http 409 "Start setup before confirming" none
confirm_error mfa_already_enrolled = already_enabled
confirm_error invalid_mfa_code = invalid_code
confirm_error secret_decryption = invalid_code
confirm_error e = e

unfoldable pub verify_error : Exn → Exn
verify_error mfa_not_configured = mfa_unavailable
verify_error invalid_mfa_code = invalid_code
verify_error mfa_not_enrolled = invalid_code
verify_error secret_decryption = invalid_code
verify_error e = e

unfoldable pub disable_error : Exn → Exn
disable_error mfa_not_configured = mfa_unavailable
disable_error mfa_not_enrolled = not_enrolled
disable_error invalid_mfa_code = invalid_code
disable_error secret_decryption = invalid_code
disable_error e = e

-- `key` is the server's `MFA_ENCRYPTION_KEY`.
module _ (lib : Library) (key : Option Text) where
  unfoldable pub mfa_status : Option Text → Text → Moment → Action Database StatusResponse
  mfa_status credentials secret t = do
    account ← current_user lib credentials secret t.now
    active ← gets (is_mfa_active account.id)
    remaining ← gets (remaining_recovery_codes account.id)
    pure (record { enabled = active; recovery_codes_remaining = if active then remaining else 0 })

  unfoldable pub setup :
      Option Text → Text → Moment → EnrolmentDraw → Action Database PendingEnrolment
  setup credentials secret t draw = do
    account ← current_user lib credentials secret t.now
    catch (start_enrolment lib account key draw) (λ e. raise (setup_error e))

  unfoldable pub confirm : Text → Option Text → Text → Moment → Action Database (Unit {0})
  confirm code credentials secret t = do
    account ← current_user lib credentials secret t.now
    catch (confirm_enrolment lib account code key t.now) (λ e. raise (confirm_error e))

  -- A login challenge and a code are exchanged for a session.
  unfoldable pub verify : Text → Text → Text → Moment → Draw → Action Database TokenResponse
  verify challenge_token code secret t draw = do
    user_id ← or_raise (decode_mfa_challenge lib challenge_token secret t.now) invalid_code
    found ← gets (account_by_id user_id)
    account ← or_raise (enabled found) invalid_code
    catch (verify_code_for_login lib account code key t.now) (λ e. raise (verify_error e))
    session ← complete_mfa_login lib account secret t draw
    pure (tokens_of session)

  unfoldable pub disable : Text → Text → Option Text → Text → Moment → Action Database (Unit {0})
  disable password code credentials secret t = do
    account ← current_user lib credentials secret t.now
    raise_if (not (verify_password_against lib password account.password_hash)) invalid_code
    catch (do verify_code_for_login lib account code key t.now; disable_mfa account)
        (λ e. raise (disable_error e))
