-- ===== src/Api/Accounts/Exchanges.antt =====
-- The exchange of refresh tokens by whole requests, each with its transaction.
use counselready.Common.{some, List, [], ◌∷◌, ◌≡◌, refl, sym, subst, arith}
use counselready.Common.Text.{Text}
use counselready.Effects.Action.{Action, Result, ok, err, in_transaction}
use counselready.Effects.Library.{Library, Moment, Draw}
use counselready.Models.Accounts.{UsedRefreshToken}
use counselready.Models.Database.{Database}
use counselready.Auth.Tokens.{hash_refresh_token}
use counselready.Auth.Sessions.{IssuedSession, used_token, refresh_session}
use counselready.Auth.Sessions.Refresh.{Spends, refresh_session-Spends, refresh_session-stays}
use counselready.Api.Accounts.{TokenResponse, tokens_of, refresh_error, refresh, invalid_refresh}
use counselready.Api.Accounts.Transactions.{refresh_replay_rolled_back}

pub record RefreshAttempt : Type 0 where
  pub token : Text
  pub moment : Moment
  pub draw : Draw

module _ (lib : Library) (secret : Text) where
  -- One refresh request, with its transaction.
  unfoldable pub serve_refresh : RefreshAttempt → Action Database TokenResponse
  serve_refresh r = in_transaction (refresh lib r.token secret r.moment r.draw)

  -- The database after a sequence of refresh requests.
  unfoldable pub serve_refreshes : List RefreshAttempt → Database → Database
  serve_refreshes [] db = db
  serve_refreshes (r ∷ rs) db = serve_refreshes rs (serve_refresh r db).1

  serve_refresh-stays :
      (r : RefreshAttempt) (other : Text) (used : UsedRefreshToken) (db : Database)
      → used_token other db ≡ some used
      → used_token other (serve_refresh r db).1 ≡ some used
  unfolding serve_refresh in_transaction refresh
  serve_refresh-stays r other used db e =
      ground
        (arith, refresh_session-stays lib r.token secret r.draw other used r.moment.now db e, e)

  serve_refreshes-stays :
      (rs : List RefreshAttempt) (other : Text) (used : UsedRefreshToken) (db : Database)
      → used_token other db ≡ some used
      → used_token other (serve_refreshes rs db) ≡ some used
  unfolding serve_refreshes
  serve_refreshes-stays [] other used db e = e
  serve_refreshes-stays (r ∷ rs) other used db e =
      serve_refreshes-stays rs other used (serve_refresh r db).1
        (serve_refresh-stays r other used db e)

  -- A response with tokens comes with a row of the digest of `token` among the used ones.
  abbrev Exchanges : Text → Result TokenResponse × Database → Type 0
  Exchanges token (ok tokens, db') =
      (used : UsedRefreshToken) × (used_token (hash_refresh_token lib token) db' ≡ some used)
  Exchanges token (err e, db') = Unit

  refreshed-Exchanges :
      (r : RefreshAttempt) (db : Database) (x : Result IssuedSession × Database)
      → refresh_session lib r.token secret r.moment.now r.draw db ≡ x
      → Spends lib r.token secret r.draw x
      → Exchanges r.token (serve_refresh r db)
  unfolding serve_refresh in_transaction refresh
  refreshed-Exchanges r db (ok issued, db') e (used, spent) =
      let response : serve_refresh r db ≡ (ok (tokens_of issued), db') = ground (arith, e) in
      subst (Exchanges r.token) (sym response) (used, spent)
  refreshed-Exchanges r db (err raised, db') e spent =
      let response : serve_refresh r db ≡ (err (refresh_error raised), db) = ground (arith, e) in
      subst (Exchanges r.token) (sym response) tt

  serve_refresh-Exchanges :
      (r : RefreshAttempt) (db : Database) → Exchanges r.token (serve_refresh r db)
  serve_refresh-Exchanges r db =
      refreshed-Exchanges r db _ refl
        (refresh_session-Spends lib r.token secret r.draw r.moment.now db)

  -- A refresh token that a request has exchanged is never exchanged again: after any further refresh
  -- requests, a request with it is answered with 401 and changes nothing.
  pub refresh_exchanged_once :
      (r : RefreshAttempt) (rs : List RefreshAttempt) (again : Moment) (draw : Draw) (db : Database)
      {tokens : TokenResponse} {db' : Database}
      → serve_refresh r db ≡ (ok tokens, db')
      → in_transaction (refresh lib r.token secret again draw) (serve_refreshes rs db')
        ≡ (err invalid_refresh, serve_refreshes rs db')
  refresh_exchanged_once r rs again draw db {db'} h =
      let (used, e) = subst (Exchanges r.token) h (serve_refresh-Exchanges r db) in
      (refresh_replay_rolled_back lib secret r.token again draw (serve_refreshes rs db') used 0
        (serve_refreshes-stays rs (hash_refresh_token lib r.token) used db' e)).0
