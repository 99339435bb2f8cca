-- ===== src/Auth/Sessions/Authenticate.antt =====
-- What `authenticate` does on each of its branches.
use counselready.Common.{
  ℕ, ◌-◌, ◌≤◌, ◌<◌, true, false, Option, none, some, ◌≡◌, refl, subst, inl, inr, leb, arith,
  Bool-cases,
}
use counselready.Common.Equality.{nat_eq, list_eq}
use counselready.Common.Text.{Text}
use counselready.Effects.Exceptions.{
  authentication_error, rate_limited, weak_password, integrity_error,
}
use counselready.Effects.Action.{Result, ok, err}
use counselready.Effects.Library.{Library, Moment, Draw}
use counselready.Models.Accounts.{UserAccount, AuthEvent, login_failed}
use counselready.Models.Database.{Database}
use counselready.Auth.Mfa.{is_mfa_active, load_mfa}
use counselready.Auth.Passwords.{verify_password_against, hash_password}
use counselready.Auth.Sessions.{
  IssuedSession, Login, issued, mfa_required, authenticate, admit, sign_in, fail_login,
  migrate_hash, normalize_email, account_by_email, failed_attempts_since, accepts,
  max_failed_logins, login_window, put_auth_event, issue_session,
}

-- The row that a refused attempt leaves.
abbrev pub failure_event : Text → Option UserAccount → Moment → AuthEvent
failure_event normalized account t = record {
  email = normalized;
  user_id = elim account [ none ↦ none | some a ↦ some a.id ];
  event_type = login_failed;
  created_at = t.transaction;
}

module _ (lib : Library) where
  abbrev Migrates : UserAccount → Database → Result UserAccount × Database → Type 0
  Migrates a db (ok a', db') =
      (a'.id ≡ a.id)
      × (db'.user_mfa ≡ db.user_mfa)
      × (db'.user_session ≡ db.user_session)
      × (db'.auth_event ≡ db.auth_event)
  Migrates a db (err e, db') = (db' ≡ db) × (e ≡ weak_password)

  migrate_hash-Migrates :
      (a : UserAccount) (password : Text) (salt : ℕ) (db : Database)
      → Migrates a db (migrate_hash lib a password salt db)
  unfolding migrate_hash hash_password
  migrate_hash-Migrates a password salt db = ground arith

  abbrev Issues : UserAccount → Database → Result IssuedSession × Database → Type 0
  Issues a db (ok s, db') = (s.user ≡ a) × (db'.user_mfa ≡ db.user_mfa)
  Issues a db (err e, db') = (db' ≡ db) × (e ≡ integrity_error)

  issue_session-Issues :
      (a : UserAccount) (secret : Text) (now : ℕ) (draw : Draw) (db : Database)
      → Issues a db (issue_session lib a secret now draw db)
  unfolding issue_session
  issue_session-Issues a secret now draw db = ground arith

  abbrev SignsIn : UserAccount → Database → Result Login × Database → Type 0
  SignsIn a db (ok (issued s), db') = (is_mfa_active a.id db ≡ false) × (s.user.id ≡ a.id)
  SignsIn a db (ok (mfa_required token user_id), db') =
      (user_id ≡ a.id)
      × (is_mfa_active a.id db ≡ true)
      × (db'.user_session ≡ db.user_session)
      × (db'.auth_event ≡ db.auth_event)
  SignsIn a db (err e, db') = Unit

  sign_in_lem :
      (a : UserAccount) (normalized password secret : Text) (t : Moment) (draw : Draw)
      (db : Database)
      → SignsIn a db (sign_in lib a normalized password secret t draw db)
  unfolding sign_in is_mfa_active load_mfa
  sign_in_lem a normalized password secret t draw db =
      grind (arith, migrate_hash-Migrates a password draw.salt db, issue_session-Issues)

module _ (lib : Library) (email password secret : Text) (t : Moment) (draw : Draw)
    (db : Database) where
  abbrev attempts : ℕ
  attempts = failed_attempts_since (normalize_email lib email) (t.now - login_window) db

  abbrev account : Option UserAccount
  account = account_by_email (normalize_email lib email) db

  -- Ten failures in the window refuse every further attempt, whatever the password is, and nothing
  -- is written.
  pub authenticate_rate_limited :
      max_failed_logins ≤ attempts
      → authenticate lib email password secret t draw db ≡ (err (rate_limited login_window), db)
  unfolding authenticate
  authenticate_rate_limited h = ground arith

  -- Below the limit, credentials that are not accepted (no such account, a wrong password or a
  -- deactivated account) raise one and the same exception and record one failed attempt.
  pub authenticate_refused :
      attempts < max_failed_logins
      → accepts lib account password ≡ false
      → authenticate lib email password secret t draw db ≡ (
        err authentication_error,
        put_auth_event (failure_event (normalize_email lib email) account t) db,
      )
  unfolding authenticate admit fail_login
  authenticate_refused h r = ground arith

  -- What the result of an attempt says of the account.
  abbrev Outcome : Result Login × Database → Type 0
  Outcome (ok (issued s), db') =
      (a : UserAccount) × (account ≡ some a)
      × (a.active ≡ true)
      × (verify_password_against lib password a.password_hash ≡ true)
      × (is_mfa_active a.id db ≡ false)
      × (attempts < max_failed_logins)
      × (s.user.id ≡ a.id)
  Outcome (ok (mfa_required token user_id), db') =
      (is_mfa_active user_id db ≡ true)
      × (db'.user_session ≡ db.user_session)
      × (db'.auth_event ≡ db.auth_event)
  Outcome (err e, db') = Unit

  accepted-Outcome :
      (a : UserAccount)
      → account ≡ some a
      → accepts lib (some a) password ≡ true
      → attempts < max_failed_logins
      → (r : Result Login × Database) → SignsIn lib a db r
      → Outcome r
  accepted-Outcome a e accepted below (ok (issued s), db') h =
      (a, e, ground arith, ground arith, h.0, below, h.1)
  accepted-Outcome a e accepted below (ok (mfa_required token user_id), db') h =
      (rw h.0 h.1, h.2, h.3)
  accepted-Outcome a e accepted below (err x, db') h = tt

  admit-Outcome :
      (o : Option UserAccount)
      → account ≡ o
      → attempts < max_failed_logins
      → Outcome (admit lib o (normalize_email lib email) password secret t draw db)
  unfolding admit fail_login
  admit-Outcome none e below = tt
  admit-Outcome (some a) e below = elim (Bool-cases (accepts lib (some a) password)) [
    | inl accepted ↦
        rw (accepted, admit)
          (accepted-Outcome a e accepted below _ (sign_in_lem lib a _ password secret t draw db))
    | inr refused ↦ rw (refused, admit) tt
  ]

  authenticate-Outcome : Outcome (authenticate lib email password secret t draw db)
  unfolding authenticate
  authenticate-Outcome = elim (Bool-cases (leb max_failed_logins attempts)) [
    | inl limited ↦ rw (limited, authenticate) tt
    | inr below ↦ rw (below, authenticate) (admit-Outcome account refl (ground arith))
  ]

  -- A session comes only from an existing active account whose password verifies, with no active
  -- second factor, below the limit of failures; it is a session of that account.
  pub authenticate_issued :
      {s : IssuedSession} {db' : Database}
      → authenticate lib email password secret t draw db ≡ (ok (issued s), db')
      → (a : UserAccount) × (account ≡ some a)
        × (a.active ≡ true)
        × (verify_password_against lib password a.password_hash ≡ true)
        × (is_mfa_active a.id db ≡ false)
        × (attempts < max_failed_logins)
        × (s.user.id ≡ a.id)
  authenticate_issued h = subst Outcome h authenticate-Outcome

  -- With an active second factor the password yields a challenge only: no session, no recorded
  -- event.
  pub authenticate_challenged :
      {token : Text} {user_id : ℕ} {db' : Database}
      → authenticate lib email password secret t draw db ≡ (ok (mfa_required token user_id), db')
      → (is_mfa_active user_id db ≡ true)
        × (db'.user_session ≡ db.user_session)
        × (db'.auth_event ≡ db.auth_event)
  authenticate_challenged h = subst Outcome h authenticate-Outcome
