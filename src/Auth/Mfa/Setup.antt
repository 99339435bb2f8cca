-- ===== src/Auth/Mfa/Setup.antt =====
-- Enrolment in two steps, and turning the factor off.
use counselready.Common.{
  ℕ, ◌+◌, Bool, false, Option, none, some, List, [], ◌∷◌, ◌≡◌, ◌≢◌, refl, sym, subst, arith, ◌&&◌,
  is_none, is_some, Bool-cases, Option-cases, inl, inr, ◌⊎◌, length,
}
use mathlib.Core.Option.{or_else}
use counselready.Common.Equality.{◌==◌, nat_eq, list_eq}
use counselready.Common.Int.{ℤ}
use counselready.Common.Table.{
  find_row-add_row, count_rows, delete_rows, add_row, count_rows-add_row,
}
use counselready.Common.Text.{Text}
use counselready.Effects.Exceptions.{Exn, mfa_not_configured, secret_decryption}
use counselready.Effects.Action.{Result, ok, err, Action, insert_unique, ◌>>=◌}
use counselready.Effects.Action.Laws.{insert_unique-cases, >>=-ok, >>=-err}
use counselready.Effects.Library.{Library}
use counselready.Models.Accounts.{UserAccount, UserMfa, RecoveryCode, mfa_is_active}
use counselready.Models.Database.{Database}
use counselready.Auth.Totp.{
  Enrolment, EnrolmentDraw, begin_enrolment, encrypt_secret, cipher, recovery_code_count,
  range_from, decrypt_secret, matching_counter,
}
use counselready.Auth.Mfa.{
  load_mfa, active_mfa, is_mfa_active, put_secret, delete_codes, add_codes,
  remaining_recovery_codes, start_enrolment, confirm_enrolment, PendingEnrolment,
}
use counselready.Auth.Mfa.Factors.{load_mfa-update}

abbrev unused_of : ℕ → RecoveryCode → Bool
unused_of u c = (c.user_id == u) && is_none c.used_at

abbrev of_user : ℕ → RecoveryCode → Bool
of_user u c = c.user_id == u

count-delete_own :
    (u : ℕ) (rows : List RecoveryCode) → count_rows (unused_of u) (delete_rows (of_user u) rows) ≡ 0
unfolding count_rows delete_rows
count-delete_own u [] = refl
count-delete_own u (c ∷ rows) = ground (arith, count-delete_own u rows)

count-delete_other :
    (u v : ℕ) (rows : List RecoveryCode)
    → v ≢ u
    → count_rows (unused_of v) (delete_rows (of_user u) rows) ≡ count_rows (unused_of v) rows
unfolding count_rows delete_rows
count-delete_other u v [] ne = refl
count-delete_other u v (c ∷ rows) ne = ground (arith, count-delete_other u v rows ne)

module _ (u v : ℕ) where
  abbrev with_code : Text → Database → Database
  with_code d db = record db {
    recovery_code = add_row (record { user_id = u; digest = d; used_at = none }) db.recovery_code;
  }

  -- What adding the codes of the user `u` leaves to `u` and to `v`, if no index refuses a row.
  abbrev Adds : List Text → Database → Result (Unit {0}) × Database → Type 0
  Adds digests db (ok _, db') =
      (remaining_recovery_codes u db' ≡ remaining_recovery_codes u db + length digests)
      × (v ≢ u → remaining_recovery_codes v db' ≡ remaining_recovery_codes v db)
      × (db'.user_mfa ≡ db.user_mfa)
  Adds digests db (err e, db') = Unit

  Adds-cons :
      (d : Text) (ds : List Text) (db : Database) (r : Result (Unit {0}) × Database)
      → Adds ds (with_code d db) r
      → Adds (d ∷ ds) db r
  unfolding remaining_recovery_codes
  Adds-cons d ds db (ok _, db') h =
      let row : RecoveryCode = record { user_id = u; digest = d; used_at = none } in
      (
        ground (arith, h.0, count_rows-add_row (unused_of u) row db.recovery_code),
        λ ne. ground (arith, h.1 ne, count_rows-add_row (unused_of v) row db.recovery_code),
        h.2,
      )
  Adds-cons d ds db (err e, db') h = tt

  add_codes-Adds : (digests : List Text) (db : Database) → Adds digests db (add_codes u digests db)
  unfolding add_codes remaining_recovery_codes
  add_codes-Adds [] db = (omega arith, λ ne. refl, refl)
  add_codes-Adds (d ∷ ds) db =
      let add : Action Database (Unit {0}) =
        insert_unique (λ c. (c.user_id == u) && (c.digest == d))
          (record { user_id = u; digest = d; used_at = none }) (λ db. db.recovery_code)
          (λ rows db. record db { recovery_code = rows }) in
      elim (insert_unique-cases (λ c. (c.user_id == u) && (c.digest == d))
        (record { user_id = u; digest = d; used_at = none }) (λ (db : Database). db.recovery_code)
        (λ rows db. record db { recovery_code = rows }) db) [
          | inl (_, e) ↦ subst (Adds (d ∷ ds) db) (sym (>>=-err add (λ _. add_codes u ds) db e)) tt
          | inr (_, e) ↦
              subst (Adds (d ∷ ds) db) (sym (>>=-ok add (λ _. add_codes u ds) db e))
                (Adds-cons d ds db _ (add_codes-Adds ds (with_code d db)))
        ]

-- The enrolment's digests number ten.
abbrev Begins : Database → Result Enrolment × Database → Type 0
Begins db (ok e, db') = (length e.recovery_digests ≡ recovery_code_count) × (db' ≡ db)
Begins db (err e, db') = db' ≡ db

begin_enrolment-Begins :
    (lib : Library) (email : Text) (key : Option Text) (draw : EnrolmentDraw) (db : Database)
    → Begins db (begin_enrolment lib email key draw db)
unfolding begin_enrolment encrypt_secret cipher range_from
begin_enrolment-Begins lib email none draw db = ground arith
begin_enrolment-Begins lib email (some []) draw db = ground arith
begin_enrolment-Begins lib email (some (c ∷ k)) draw db = ground arith

abbrev Puts : ℕ → Database → Result (Unit {0}) × Database → Type 0
Puts u db (ok _, db') = (is_mfa_active u db' ≡ false) × (db'.recovery_code ≡ db.recovery_code)
Puts u db (err e, db') = Unit

put_secret-Puts :
    (o : Option UserMfa) (u : ℕ) (encrypted : Text) (db : Database)
    → load_mfa u db ≡ o
    → is_some (active_mfa o) ≡ false
    → Puts u db (put_secret o u encrypted db)
unfolding put_secret is_mfa_active load_mfa or_else
put_secret-Puts (some m) u encrypted db found idle = ground (
  arith,
  load_mfa-update u (λ r. record r { encrypted_secret = encrypted; last_used_counter = none }) db
      (λ r. refl) found,
)
put_secret-Puts none u encrypted db found idle =
    let row : UserMfa = record {
      user_id = u;
      encrypted_secret = encrypted;
      confirmed_at = none;
      last_used_counter = none;
    } in
    ground (arith, find_row-add_row (λ m. m.user_id == u) row db.user_mfa)

-- Setup, if it returns, leaves the factor inactive and the account with ten unused recovery codes,
-- and changes the number of nobody else's.
pub start_enrolment_resets :
    (lib : Library) (account : UserAccount) (key : Option Text) (draw : EnrolmentDraw)
    (db : Database) (v : ℕ) {pending : PendingEnrolment} {db' : Database}
    → start_enrolment lib account key draw db ≡ (ok pending, db')
    → (is_mfa_active account.id db' ≡ false)
      × (remaining_recovery_codes account.id db' ≡ recovery_code_count)
      × (v ≢ account.id → remaining_recovery_codes v db' ≡ remaining_recovery_codes v db)
unfolding start_enrolment delete_codes remaining_recovery_codes is_mfa_active load_mfa
start_enrolment_resets lib account key draw db v h = grind (
  arith,
  begin_enrolment-Begins lib account.email key draw db,
  put_secret-Puts,
  add_codes-Adds account.id v,
  count-delete_own,
  count-delete_other,
)

decrypt_secret-cases :
    (lib : Library) (encrypted : Text) (key : Option Text) (db : Database)
    → ((secret : Text) × (decrypt_secret lib encrypted key db ≡ (ok secret, db)))
      ⊎ ((e : Exn) × (decrypt_secret lib encrypted key db ≡ (err e, db)))
unfolding decrypt_secret cipher
decrypt_secret-cases lib encrypted none db = inr (mfa_not_configured, refl)
decrypt_secret-cases lib encrypted (some []) db = inr (mfa_not_configured, refl)
decrypt_secret-cases lib encrypted (some (c ∷ k)) db =
    elim (Bool-cases (lib.fernet_key_is_valid (c ∷ k))) [
      | inr bad ↦ inr (mfa_not_configured, ground arith)
      | inl good ↦ elim (Option-cases (lib.fernet_decrypt (c ∷ k) encrypted)) [
        | inl lost ↦ inr (secret_decryption, ground arith)
        | inr (secret, e) ↦ inl (secret, ground arith)
      ]
    ]

module _ (lib : Library) (account : UserAccount) (code : Text) (key : Option Text) (now : ℕ)
    (db : Database) where
  abbrev Confirms : Result (Unit {0}) × Database → Type 0
  Confirms (ok _, db') =
      (m : UserMfa) × (secret : Text) × (step : ℤ) × (load_mfa account.id db ≡ some m)
      × (mfa_is_active m ≡ false)
      × (matching_counter lib secret code now ≡ some step)
      × (load_mfa account.id db'
          ≡ some (record m { confirmed_at = some now; last_used_counter = some step }))
  Confirms (err e, db') = Unit

  confirm_enrolment-Confirms : Confirms (confirm_enrolment lib account code key now db)
  unfolding confirm_enrolment
  confirm_enrolment-Confirms = elim (Option-cases (load_mfa account.id db)) [
    | inl missing ↦ rw (missing, confirm_enrolment) tt
    | inr (m, found) ↦
        rw (found, confirm_enrolment)
          (elim (Bool-cases (mfa_is_active m)) [
            | inl active ↦ rw active tt
            | inr idle ↦ rw idle (elim (decrypt_secret-cases lib m.encrypted_secret key db) [
              | inr (e, refused) ↦ rw (refused, ◌>>=◌) tt
              | inl (secret, opened) ↦
                  rw (opened, ◌>>=◌)
                    (elim (Option-cases (matching_counter lib secret code now)) [
                      | inl miss ↦ rw miss tt
                      | inr (step, hit) ↦ rw hit (
                        m,
                        secret,
                        step,
                        found,
                        idle,
                        hit,
                        rw opened (
                            load_mfa-update account.id
                              (λ r. record r {
                                confirmed_at = some now;
                                last_used_counter = some step;
                              })
                              db (λ r. refl) found),
                      )
                    ])
            ])
          ])
  ]

  -- Confirmation succeeds only with a code of the pending secret. It activates the factor and
  -- records the code's step as used.
  pub confirm_enrolment_activates :
      {db' : Database}
      → confirm_enrolment lib account code key now db ≡ (ok tt, db')
      → (m : UserMfa) × (secret : Text) × (step : ℤ) × (load_mfa account.id db ≡ some m)
        × (mfa_is_active m ≡ false)
        × (matching_counter lib secret code now ≡ some step)
        × (load_mfa account.id db'
            ≡ some (record m { confirmed_at = some now; last_used_counter = some step }))
  confirm_enrolment_activates h = subst Confirms h confirm_enrolment-Confirms
