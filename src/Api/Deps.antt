-- ===== src/Api/Deps.antt =====
-- backend/app/api/deps.py
use counselready.Common.{ℕ, Option, none, is_none}
use counselready.Common.Text.{Text}
use counselready.Effects.Exceptions.{Exn, http}
use counselready.Effects.Action.{Action, ◌>>=◌, ◌>>◌, pure, gets, or_raise, raise_if}
use counselready.Effects.Library.{Library}
use counselready.Models.Accounts.{UserAccount}
use counselready.Models.Database.{Database}
use counselready.Auth.Tokens.{decode_access_token}
use counselready.Auth.Sessions.{load_active_session, account_by_id, enabled}

abbrev pub unauthenticated : Exn
unauthenticated = http 401 "Not authenticated" none

pub record Authenticated : Type 0 where
  pub account : UserAccount
  pub session_id : ℕ

module _ (lib : Library) where
  -- `credentials` is the bearer token of the request, if there is one.
  unfoldable pub authenticated : Option Text → Text → ℕ → Action Database Authenticated
  authenticated credentials secret now = do
    token ← or_raise credentials unauthenticated
    claims ← or_raise (decode_access_token lib token secret now) unauthenticated
    session ← gets (load_active_session claims.session_id now)
    raise_if (is_none session) unauthenticated
    owner ← gets (account_by_id claims.user_id)
    account ← or_raise (enabled owner) unauthenticated
    pure (record { account = account; session_id = claims.session_id })

  unfoldable pub current_user : Option Text → Text → ℕ → Action Database UserAccount
  current_user credentials secret now = do
    auth ← authenticated credentials secret now
    pure auth.account
