-- ===== src/Tests/Logins.antt =====
-- Sign-in, refresh and sign-out at concrete data.
use counselready.Common.{◌-◌, ◌≡◌, ◌<◌, refl, true, false, some, none, [], ◌∷◌}
use counselready.Common.Equality.{nat_eq, list_eq, option_eq, ℕ_discrete}
use counselready.Common.Table.{find_row, update_rows, add_row, any_row, count_rows}
use counselready.Common.Text.{codes, to_casefold, strip}
use counselready.Effects.Action.{ok}
use counselready.Models.Accounts.{
  UserAccount, UserSession, UsedRefreshToken, AuthEvent, login_failed, login_succeeded, is_active,
}
use counselready.Models.Database.{Database}
use counselready.Auth.Passwords.{verify_password_against, needs_rehash}
use counselready.Auth.Tokens.{
  hash_refresh_token, issue_access_token, issue_mfa_challenge, refresh_expiry,
}
use counselready.Auth.Mfa.{is_mfa_active, load_mfa}
use counselready.Auth.Sessions.{
  IssuedSession, issued, mfa_required, authenticate, failed_attempts_since, normalize_email,
  account_by_email, migrate_hash, sign_in, admit, issue_session, refresh_session, session_by_id,
  used_token, refresh_branch, refresh_fresh, rotate, max_failed_logins, login_window,
}
use counselready.Auth.Sessions.Authenticate.{authenticate_issued}
use counselready.Auth.Sessions.Refresh.{refresh_session_rotates}
use counselready.Tests.World.{
  toy, email, password, secret, alice, laptop, with_account, with_factor, noon, draw,
}

-- Ten failures a minute ago.
abbrev failure : AuthEvent
failure = record { email = email; user_id = none; event_type = login_failed; created_at = 940 }

abbrev besieged : Database
besieged = record with_account {
  auth_event =
      failure ∷ failure ∷ failure ∷ failure ∷ failure ∷ failure ∷ failure ∷ failure ∷ failure
      ∷ failure ∷ [];
}

abbrev new_session : IssuedSession
new_session = record {
  access_token = issue_access_token toy 7 11 secret 1000;
  refresh_token = codes "r2";
  session_id = 11;
  user = alice;
}

abbrev signed_in : Database
signed_in = record with_account {
  user_session =
      laptop
      ∷ record {
        id = 11;
        user_id = 7;
        refresh_digest = codes "r2";
        expires_at = refresh_expiry 1000;
        revoked_at = none;
        last_used_at = some 1000;
      }
      ∷ [];
  auth_event =
      record { email = email; user_id = some 7; event_type = login_succeeded; created_at = 1000 }
      ∷ [];
}

signs_in :
    authenticate toy email password secret noon draw with_account
    ≡ (ok (issued new_session), signed_in)
unfolding authenticate failed_attempts_since count_rows normalize_email to_casefold strip ℕ_discrete
    list_eq find_row verify_password_against admit sign_in migrate_hash needs_rehash is_mfa_active
    load_mfa issue_session hash_refresh_token any_row add_row
signs_in = refl

authenticate_issued_example :
    (a : UserAccount) × (account_by_email (normalize_email toy email) with_account ≡ some a)
    × (a.active ≡ true)
    × (verify_password_against toy password a.password_hash ≡ true)
    × (is_mfa_active a.id with_account ≡ false)
    × (failed_attempts_since (normalize_email toy email) (1000 - login_window) with_account
        < max_failed_logins)
    × (7 ≡ a.id)
authenticate_issued_example =
    authenticate_issued toy email password secret noon draw with_account signs_in

challenged :
    authenticate toy email password secret noon draw with_factor
    ≡ (ok (mfa_required (issue_mfa_challenge toy 7 secret 1000) 7), with_factor)
unfolding authenticate failed_attempts_since count_rows normalize_email to_casefold strip ℕ_discrete
    list_eq find_row verify_password_against admit sign_in migrate_hash needs_rehash is_mfa_active
    load_mfa
challenged = refl

-- The laptop's session after its token "r1" has been exchanged for "r2".
abbrev rotated : UserSession
rotated = record laptop { refresh_digest = codes "r2"; last_used_at = some 1000 }

abbrev used : UsedRefreshToken
used = record { session_id = 3; digest = codes "r1" }

abbrev after_rotation : Database
after_rotation = record with_account { user_session = rotated ∷ []; used_refresh_token = used ∷ [] }

abbrev refreshed : IssuedSession
refreshed = record {
  access_token = issue_access_token toy 7 3 secret 1000;
  refresh_token = codes "r2";
  session_id = 3;
  user = alice;
}

rotates :
    refresh_session toy (codes "r1") secret 1000 draw with_account ≡ (ok refreshed, after_rotation)
unfolding refresh_session refresh_branch refresh_fresh rotate hash_refresh_token is_active find_row
    any_row add_row update_rows ℕ_discrete list_eq
rotates = refl

refresh_session_rotates_example :
    (is_active laptop 1000 ≡ true)
    × (refreshed.session_id ≡ 3)
    × (refreshed.refresh_token ≡ codes "r2")
    × (session_by_id 3 after_rotation
        ≡ some (record laptop {
          refresh_digest = hash_refresh_token toy (codes "r2");
          last_used_at = some 1000;
        }))
    × (used_token (hash_refresh_token toy (codes "r1")) after_rotation
        ≡ some (record { session_id = 3; digest = hash_refresh_token toy (codes "r1") }))
unfolding hash_refresh_token find_row ℕ_discrete list_eq
refresh_session_rotates_example =
    refresh_session_rotates toy (codes "r1") secret draw 1000 laptop with_account refl refl refl
      rotates
