-- ===== src/Api/Accounts/Transactions.antt =====
-- What is left of a refused request once its transaction has been rolled back.
use counselready.Common.{ℕ, ◌-◌, ◌<◌, some, List, [], ◌∷◌, ◌≡◌, refl, ◌∙◌, arith, All}
use counselready.Common.Text.{Text}
use counselready.Effects.Exceptions.{http}
use counselready.Effects.Action.{Action, Result, err, in_transaction}
use counselready.Effects.Library.{Library, Moment, Draw}
use counselready.Models.Accounts.{UsedRefreshToken}
use counselready.Models.Database.{Database}
use counselready.Auth.Tokens.{hash_refresh_token}
use counselready.Auth.Sessions.{
  failed_attempts_since, max_failed_logins, login_window, normalize_email, used_token,
  load_active_session,
}
use counselready.Auth.Sessions.Failures.{authenticate-Keeps, authenticate-Raises}
use counselready.Auth.Sessions.Refresh.{refresh_session_replayed}
use counselready.Api.Accounts.{
  LoginResponse, login, refresh, invalid_refresh, login_error, refresh_error,
}

pub record LoginAttempt : Type 0 where
  pub email : Text
  pub password : Text
  pub moment : Moment
  pub draw : Draw

module _ (lib : Library) (secret : Text) where
  -- One login request, with its transaction.
  unfoldable pub serve_login : LoginAttempt → Action Database LoginResponse
  serve_login r = in_transaction (login lib r.email r.password secret r.moment r.draw)

  -- The responses to a sequence of login requests, and the database after them.
  unfoldable pub serve_logins :
      List LoginAttempt → Database → List (Result LoginResponse) × Database
  serve_logins [] db = ([], db)
  serve_logins (r ∷ rs) db =
      let (response, db') = serve_login r db in
      let (responses, db'') = serve_logins rs db' in (response ∷ responses, db'')

  serve_login-keeps :
      (r : LoginAttempt) (counted : Text) (since : ℕ) (db : Database)
      → failed_attempts_since counted since (serve_login r db).1
        ≡ failed_attempts_since counted since db
  unfolding serve_login in_transaction login
  serve_login-keeps r counted since db =
      ground
        (arith, authenticate-Keeps lib counted since r.email r.password secret r.moment r.draw db)

  -- No sequence of login requests, however many of them fail, changes the number of failed
  -- attempts that the database holds for any email and any window.
  pub serve_logins_uncounted :
      (rs : List LoginAttempt) (counted : Text) (since : ℕ) (db : Database)
      → failed_attempts_since counted since (serve_logins rs db).1
        ≡ failed_attempts_since counted since db
  unfolding serve_logins
  serve_logins_uncounted [] counted since db = refl
  serve_logins_uncounted (r ∷ rs) counted since db =
      serve_logins_uncounted rs counted since (serve_login r db).1
      ∙ serve_login-keeps r counted since db

  -- The response "429 Too many sign-in attempts".
  abbrev pub IsRateLimited : Result LoginResponse → Type 0
  IsRateLimited r =
      (n : ℕ) × (r ≡ err (http 429 "Too many sign-in attempts. Try again later." (some n)))

  serve_login-free :
      (r : LoginAttempt) (db : Database)
      → failed_attempts_since (normalize_email lib r.email) (r.moment.now - login_window) db
        < max_failed_logins
      → ¬ IsRateLimited (serve_login r db).0
  unfolding serve_login in_transaction login login_error
  serve_login-free r db below (n, e) =
      ground (arith, authenticate-Raises lib r.email r.password secret r.moment r.draw db below)

  -- A database that holds fewer than ten failures for every email and window, as a new one does,
  -- answers no sequence of login requests with 429: the limit on guessing is never reached.
  pub serve_logins_never_limited :
      (rs : List LoginAttempt) (db : Database)
      → ((counted : Text) (since : ℕ) → failed_attempts_since counted since db < max_failed_logins)
      → All (λ r. ¬ IsRateLimited r) (serve_logins rs db).0
  unfolding serve_logins
  serve_logins_never_limited [] db h = tt
  serve_logins_never_limited (r ∷ rs) db h = (
    serve_login-free r db (h _ _),
    serve_logins_never_limited rs (serve_login r db).1
        (λ counted since. rw (serve_login-keeps r counted since db) (h counted since)),
  )

  -- A refresh with a token that had been rotated away is answered with 401, and its request leaves
  -- the database as it was, so the session that the replay should have ended is loaded as before.
  pub refresh_replay_rolled_back :
      (token : Text) (t : Moment) (draw : Draw) (db : Database) (used : UsedRefreshToken)
      (later : ℕ)
      → used_token (hash_refresh_token lib token) db ≡ some used
      → (in_transaction (refresh lib token secret t draw) db ≡ (err invalid_refresh, db))
        × (load_active_session used.session_id later
              (in_transaction (refresh lib token secret t draw) db).1
            ≡ load_active_session used.session_id later db)
  unfolding in_transaction refresh refresh_error
  refresh_replay_rolled_back token t draw db used later replayed =
      let refused =
        (refresh_session_replayed lib token secret draw t.now later db used replayed).0 in
      (ground (arith, refused), ground (arith, refused))
