-- ===== src/Tests/Requests.antt =====
-- Whole requests at concrete data.
use counselready.Common.{ℕ, ◌≡◌, ◌<◌, refl, arith, some, List, [], ◌∷◌, All}
use counselready.Common.Equality.{nat_eq, list_eq, option_eq, ℕ_discrete}
use counselready.Common.Table.{find_row, update_rows, count_rows, add_row, any_row}
use counselready.Common.Text.{Text, codes}
use counselready.Effects.Action.{ok, err, in_transaction}
use counselready.Models.Accounts.{UserSession, UsedRefreshToken, is_active}
use counselready.Models.Database.{Database}
use counselready.Auth.Tokens.{
  AccessTokenClaims, hash_refresh_token, decode_access_token, issue_access_token,
}
use counselready.Auth.Sessions.{
  refresh_session, refresh_branch, refresh_fresh, rotate, failed_attempts_since, account_by_id,
  enabled, load_active_session, revoke_session, max_failed_logins,
}
use counselready.Api.Deps.{Authenticated, authenticated, current_user, unauthenticated}
use counselready.Api.Accounts.{TokenResponse, refresh, invalid_refresh, logout, logout_everywhere}
use counselready.Api.Accounts.Access.{authenticated_sound, logout_ends_access}
use counselready.Api.Accounts.Transactions.{
  LoginAttempt, serve_logins, serve_logins_never_limited, IsRateLimited, refresh_replay_rolled_back,
}
use counselready.Api.Accounts.Exchanges.{
  RefreshAttempt, serve_refresh, serve_refreshes, refresh_exchanged_once,
}
use counselready.Tests.World.{toy, email, secret, alice, laptop, with_account, noon, draw}

abbrev guess : LoginAttempt
guess = record { email = email; password = codes "guess"; moment = noon; draw = draw }

abbrev guesses : List LoginAttempt
guesses =
    guess ∷ guess ∷ guess ∷ guess ∷ guess ∷ guess ∷ guess ∷ guess ∷ guess ∷ guess ∷ guess ∷ guess
    ∷ []

none_counted :
    (counted : Text) (since : ℕ)
    → failed_attempts_since counted since with_account < max_failed_logins
unfolding failed_attempts_since count_rows
none_counted counted since = omega arith

serve_logins_never_limited_example :
    All (λ r. ¬ IsRateLimited toy secret r) (serve_logins toy secret guesses with_account).0
serve_logins_never_limited_example =
    serve_logins_never_limited toy secret guesses with_account none_counted

abbrev used : UsedRefreshToken
used = record { session_id = 3; digest = codes "r0" }

abbrev after_rotation : Database
after_rotation = record with_account { used_refresh_token = used ∷ [] }

refresh_replay_rolled_back_example :
    (in_transaction (refresh toy (codes "r0") secret noon draw) after_rotation
      ≡ (err invalid_refresh, after_rotation))
    × (load_active_session 3 1200
          (in_transaction (refresh toy (codes "r0") secret noon draw) after_rotation).1
        ≡ load_active_session 3 1200 after_rotation)
unfolding hash_refresh_token find_row ℕ_discrete list_eq
refresh_replay_rolled_back_example =
    refresh_replay_rolled_back toy secret (codes "r0") noon draw after_rotation used 1200 refl

-- The laptop's token "r1" is exchanged; then "r1" and another token are tried.
abbrev exchange : RefreshAttempt
exchange = record { token = codes "r1"; moment = noon; draw = draw }

abbrev unknown : RefreshAttempt
unknown = record { token = codes "r9"; moment = noon; draw = draw }

abbrev exchanged : TokenResponse
exchanged = record {
  access_token = issue_access_token toy 7 3 secret 1000;
  refresh_token = codes "r2";
}

abbrev after_exchange : Database
after_exchange = record with_account {
  user_session = record laptop { refresh_digest = codes "r2"; last_used_at = some 1000 } ∷ [];
  used_refresh_token = record { session_id = 3; digest = codes "r1" } ∷ [];
}

exchanges : serve_refresh toy secret exchange with_account ≡ (ok exchanged, after_exchange)
unfolding serve_refresh in_transaction refresh refresh_session refresh_branch refresh_fresh rotate
    hash_refresh_token is_active find_row any_row add_row update_rows ℕ_discrete list_eq
exchanges = refl

refresh_exchanged_once_example :
    in_transaction
      (refresh toy (codes "r1") secret noon draw)
      (serve_refreshes toy secret (unknown ∷ exchange ∷ []) after_exchange)
    ≡ (err invalid_refresh, serve_refreshes toy secret (unknown ∷ exchange ∷ []) after_exchange)
refresh_exchanged_once_example =
    refresh_exchanged_once toy secret exchange (unknown ∷ exchange ∷ []) noon draw with_account
      exchanges

abbrev token : Text
token = 1 ∷ 8 ∷ 4 ∷ 901 ∷ 1801 ∷ codes "access"

abbrev claims : AccessTokenClaims
claims = record { user_id = 7; session_id = 3; expires_at = 1800 }

decodes : decode_access_token toy token secret 1000 ≡ some claims
unfolding decode_access_token ℕ_discrete list_eq option_eq
decodes = refl

abbrev auth : Authenticated
auth = record { account = alice; session_id = 3 }

admitted : authenticated toy (some token) secret 1000 with_account ≡ (ok auth, with_account)
unfolding authenticated decode_access_token load_active_session find_row is_active ℕ_discrete
    list_eq option_eq
admitted = refl

authenticated_sound_example :
    (token' : Text) × (claims : AccessTokenClaims) × (session : UserSession) × (some token
      ≡ some token')
    × (decode_access_token toy token' secret 1000 ≡ some claims)
    × (load_active_session claims.session_id 1000 with_account ≡ some session)
    × (enabled (account_by_id claims.user_id with_account) ≡ some alice)
    × (3 ≡ claims.session_id)
    × (with_account ≡ with_account)
authenticated_sound_example = authenticated_sound toy (some token) secret 1000 with_account admitted

abbrev logged_out : Database
logged_out = record with_account { user_session = record laptop { revoked_at = some 1000 } ∷ [] }

refused : authenticated toy (some token) secret 1000 logged_out ≡ (err unauthenticated, logged_out)
unfolding authenticated decode_access_token load_active_session find_row is_active ℕ_discrete
    list_eq option_eq
refused = refl

logs_out : logout toy (some token) secret noon with_account ≡ (ok tt, logged_out)
unfolding logout authenticated decode_access_token load_active_session find_row update_rows
    is_active ℕ_discrete list_eq option_eq revoke_session
logs_out = refl

logout_ends_access_example :
    authenticated toy (some token) secret 1000 logged_out ≡ (err unauthenticated, logged_out)
logout_ends_access_example =
    logout_ends_access toy token token secret claims claims noon 1000 with_account decodes logs_out
      decodes refl

whose : current_user toy (some token) secret 1000 with_account ≡ (ok alice, with_account)
unfolding current_user authenticated decode_access_token load_active_session find_row is_active
    ℕ_discrete list_eq option_eq
whose = refl

logs_out_everywhere :
    logout_everywhere toy (some token) secret noon with_account ≡ (ok tt, logged_out)
unfolding logout_everywhere current_user authenticated decode_access_token load_active_session
    find_row update_rows is_active ℕ_discrete list_eq option_eq
logs_out_everywhere = refl
