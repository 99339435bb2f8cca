-- ===== src/Auth/Sessions/Failures.antt =====
-- What the rate limiter counts.
use counselready.Common.{
  ℕ, ◌-◌, ◌<◌, false, Option, none, some, ◌≡◌, refl, arith, ◌⊎◌, inl, inr, leb, ◌&&◌, Bool-cases,
}
use counselready.Common.Equality.{◌==◌, nat_eq, list_eq}
use counselready.Common.Table.{count_rows-add_row}
use counselready.Common.Text.{Text}
use counselready.Effects.Exceptions.{authentication_error, weak_password, integrity_error}
use counselready.Effects.Action.{Result, ok, err}
use counselready.Effects.Library.{Library, Moment, Draw}
use counselready.Models.Accounts.{UserAccount, login_succeeded, is_login_failed}
use counselready.Models.Database.{Database}
use counselready.Auth.Passwords.{hash_password}
use counselready.Auth.Sessions.{
  authenticate, admit, sign_in, fail_login, migrate_hash, issue_session, failed_attempts_since,
  max_failed_logins, login_window, normalize_email, account_by_email, put_auth_event, accepts,
}

-- A success adds nothing to the count.
failed_attempts-succeeded :
    (email other : Text) (since at : ℕ) (user_id : Option ℕ) (db : Database)
    → failed_attempts_since email since (
        put_auth_event
          (record {
            email = other;
            user_id = user_id;
            event_type = login_succeeded;
            created_at = at;
          })
          db)
      ≡ failed_attempts_since email since db
unfolding failed_attempts_since
failed_attempts-succeeded email other since at user_id db =
    rw
      (count_rows-add_row
        (λ e. (e.email == email) && is_login_failed e.event_type && leb since e.created_at) _
        db.auth_event)
      (ground arith)

module _ (lib : Library) (counted : Text) (since : ℕ) where
  -- A call that returns leaves the count of failures as it was.
  abbrev pub Keeps : {A : Type 0} → Database → Result A × Database → Type 0
  Keeps db (ok a, db') =
      failed_attempts_since counted since db' ≡ failed_attempts_since counted since db
  Keeps db (err e, db') = Unit

  migrate_hash-Keeps :
      (a : UserAccount) (password : Text) (salt : ℕ) (db : Database)
      → Keeps db (migrate_hash lib a password salt db)
  unfolding migrate_hash hash_password failed_attempts_since
  migrate_hash-Keeps a password salt db = ground arith

  issue_session-Keeps :
      (a : UserAccount) (secret : Text) (now : ℕ) (draw : Draw) (db : Database)
      → Keeps db (issue_session lib a secret now draw db)
  unfolding issue_session failed_attempts_since
  issue_session-Keeps a secret now draw db = ground arith

  sign_in-Keeps :
      (a : UserAccount) (normalized password secret : Text) (t : Moment) (draw : Draw)
      (db : Database)
      → Keeps db (sign_in lib a normalized password secret t draw db)
  unfolding sign_in
  sign_in-Keeps a normalized password secret t draw db = grind (
    arith,
    migrate_hash-Keeps a password draw.salt db,
    issue_session-Keeps,
    failed_attempts-succeeded,
  )

  admit-Keeps :
      (o : Option UserAccount) (normalized password secret : Text) (t : Moment) (draw : Draw)
      (db : Database)
      → Keeps db (admit lib o normalized password secret t draw db)
  unfolding admit fail_login
  admit-Keeps none normalized password secret t draw db = tt
  admit-Keeps (some a) normalized password secret t draw db =
      elim (Bool-cases (accepts lib (some a) password)) [
        | inl accepted ↦ rw (accepted, admit) (sign_in-Keeps a normalized password secret t draw db)
        | inr refused ↦ rw (refused, admit) tt
      ]

  pub authenticate-Keeps :
      (email password secret : Text) (t : Moment) (draw : Draw) (db : Database)
      → Keeps db (authenticate lib email password secret t draw db)
  unfolding authenticate
  authenticate-Keeps email password secret t draw db =
      let normalized = normalize_email lib email in
      elim (Bool-cases
        (leb max_failed_logins (failed_attempts_since normalized (t.now - login_window) db))) [
          | inl limited ↦ rw (limited, authenticate) tt
          | inr below ↦
              rw (below, authenticate)
                (admit-Keeps (account_by_email normalized db) normalized password secret t draw db)
        ]

module _ (lib : Library) where
  -- The exceptions that an attempt below the limit can end in.
  abbrev pub Raises : {A : Type 0} → Result A × Database → Type 0
  Raises (ok a, db') = Unit
  Raises (err e, db') = (e ≡ authentication_error) ⊎ (e ≡ weak_password) ⊎ (e ≡ integrity_error)

  migrate_hash-Raises :
      (a : UserAccount) (password : Text) (salt : ℕ) (db : Database)
      → Raises (migrate_hash lib a password salt db)
  unfolding migrate_hash hash_password
  migrate_hash-Raises a password salt db = ground arith

  issue_session-Raises :
      (a : UserAccount) (secret : Text) (now : ℕ) (draw : Draw) (db : Database)
      → Raises (issue_session lib a secret now draw db)
  unfolding issue_session
  issue_session-Raises a secret now draw db = ground arith

  sign_in-Raises :
      (a : UserAccount) (normalized password secret : Text) (t : Moment) (draw : Draw)
      (db : Database)
      → Raises (sign_in lib a normalized password secret t draw db)
  unfolding sign_in
  sign_in-Raises a normalized password secret t draw db =
      grind (arith, migrate_hash-Raises a password draw.salt db, issue_session-Raises)

  admit-Raises :
      (o : Option UserAccount) (normalized password secret : Text) (t : Moment) (draw : Draw)
      (db : Database)
      → Raises (admit lib o normalized password secret t draw db)
  unfolding admit fail_login
  admit-Raises none normalized password secret t draw db = inl refl
  admit-Raises (some a) normalized password secret t draw db =
      elim (Bool-cases (accepts lib (some a) password)) [
        | inl accepted ↦
            rw (accepted, admit) (sign_in-Raises a normalized password secret t draw db)
        | inr refused ↦ rw (refused, admit) (inl refl)
      ]

  pub authenticate-Raises :
      (email password secret : Text) (t : Moment) (draw : Draw) (db : Database)
      → failed_attempts_since (normalize_email lib email) (t.now - login_window) db
        < max_failed_logins
      → Raises (authenticate lib email password secret t draw db)
  unfolding authenticate
  authenticate-Raises email password secret t draw db below =
      let normalized = normalize_email lib email in
      let free : leb max_failed_logins (failed_attempts_since normalized (t.now - login_window) db)
          ≡ false =
        ground arith in
      rw (free, authenticate)
        (admit-Raises (account_by_email normalized db) normalized password secret t draw db)
