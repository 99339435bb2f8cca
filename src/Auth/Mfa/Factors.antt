-- ===== src/Auth/Mfa/Factors.antt =====
-- A second factor is spent by its use.
use counselready.Common.{ℕ, true, Option, none, some, List, ◌∷◌, ◌≡◌, refl, sym, ap, ◌∙◌, arith}
use counselready.Common.Equality.{◌==◌, nat_eq, list_eq}
use counselready.Common.Int.{ℤ, ◌≤ℤ◌}
use counselready.Common.Table.{find_row, update_rows, find_row-update_rows, find_row_sound}
use counselready.Common.Text.{Text}
use counselready.Effects.Exceptions.{invalid_mfa_code}
use counselready.Effects.Action.{ok, err}
use counselready.Effects.Library.{Library}
use counselready.Models.Accounts.{UserAccount, UserMfa, RecoveryCode, mfa_is_active}
use counselready.Models.Database.{Database}
use counselready.Auth.Totp.{matching_counter, decrypt_secret, cipher, hash_recovery_code}
use counselready.Auth.Mfa.{
  load_mfa, update_mfa, verify_code_for_login, accept_step, consume_recovery_code, unused,
  has_digest,
}

pub load_mfa-update :
    (user_id : ℕ) (f : UserMfa → UserMfa) (db : Database) {m : UserMfa}
    → ((r : UserMfa) → (f r).user_id ≡ r.user_id)
    → load_mfa user_id db ≡ some m
    → load_mfa user_id (update_mfa user_id f db) ≡ some (f m)
unfolding load_mfa
load_mfa-update user_id f db {m} keeps found = rw (
  find_row-update_rows (λ r. r.user_id == user_id) (λ r. r.user_id == user_id) f (λ r. rw (keeps r))
      db.user_mfa,
  found,
  find_row_sound (λ r. r.user_id == user_id) db.user_mfa found,
)

module _ (lib : Library) (account : UserAccount) (c : ℕ) (k : Text) (secret : Text) where
  abbrev key : Option Text
  key = some (c ∷ k)

  decrypts :
      (encrypted : Text) (db : Database)
      → lib.fernet_key_is_valid (c ∷ k) ≡ true
      → lib.fernet_decrypt (c ∷ k) encrypted ≡ some secret
      → decrypt_secret lib encrypted key db ≡ (ok secret, db)
  unfolding decrypt_secret cipher
  decrypts encrypted db valid opens = ground arith

  -- With an active enrolment and a key that decrypts its secret, the check is that of the step.
  verify-eq-accept :
      (m : UserMfa) (code : Text) (now : ℕ) (db : Database)
      → load_mfa account.id db ≡ some m
      → mfa_is_active m ≡ true
      → lib.fernet_key_is_valid (c ∷ k) ≡ true
      → lib.fernet_decrypt (c ∷ k) m.encrypted_secret ≡ some secret
      → verify_code_for_login lib account code key now db
        ≡ accept_step lib account m code now (matching_counter lib secret code now) db
  unfolding verify_code_for_login
  verify-eq-accept m code now db found active valid opens =
      ground (arith, decrypts m.encrypted_secret db valid opens)

  abbrev spent : UserMfa → ℤ → UserMfa
  spent m step = record m { last_used_counter = some step }

  accept_step-ok :
      (m : UserMfa) (code : Text) (now : ℕ) (step : ℤ) (db : Database) {db' : Database}
      → accept_step lib account m code now (some step) db ≡ (ok tt, db')
      → db' ≡ update_mfa account.id (λ r. spent r step) db
  unfolding accept_step
  accept_step-ok m code now step db h = ground arith

  accept_step-replay :
      (m : UserMfa) (code : Text) (now : ℕ) (step step' : ℤ) (db : Database)
      → step' ≤ℤ step
      → accept_step lib account (spent m step) code now (some step') db ≡ (err invalid_mfa_code, db)
  unfolding accept_step
  accept_step-replay m code now step step' db low = ground arith

  -- For an account whose factor is active and whose secret decrypts: once a code has been accepted
  -- for a step, every code of that step or of an earlier one is refused, and nothing is written.
  pub verify_code_for_login_spent :
      (m : UserMfa) (code code' : Text) (now now' : ℕ) (step step' : ℤ) (db : Database)
      {db' : Database}
      → load_mfa account.id db ≡ some m
      → mfa_is_active m ≡ true
      → lib.fernet_key_is_valid (c ∷ k) ≡ true
      → lib.fernet_decrypt (c ∷ k) m.encrypted_secret ≡ some secret
      → matching_counter lib secret code now ≡ some step
      → verify_code_for_login lib account code key now db ≡ (ok tt, db')
      → matching_counter lib secret code' now' ≡ some step'
      → step' ≤ℤ step
      → verify_code_for_login lib account code' key now' db' ≡ (err invalid_mfa_code, db')
  verify_code_for_login_spent m code code' now now' step step' db {db'} found active valid opens hit
        h hit' low =
      let taken = accept_step-ok m code now step db (
        ap (λ x. accept_step lib account m code now x db) (sym hit)
        ∙ sym (verify-eq-accept m code now db found active valid opens)
        ∙ h) in
      verify-eq-accept (spent m step) code' now' db'
        (ap (load_mfa account.id) taken
          ∙ load_mfa-update account.id (λ r. spent r step) db (λ r. refl) found)
        active valid opens
      ∙ rw hit' (accept_step-replay m code' now' step step' db' low)

  consume-ok :
      (code : Text) (now : ℕ) (db : Database) {db' : Database}
      → consume_recovery_code lib account code now db ≡ (ok tt, db')
      → (r : RecoveryCode) × (find_row
            (has_digest account.id (hash_recovery_code lib code))
            db.recovery_code
          ≡ some r)
        × (db' ≡ record db {
          recovery_code =
              update_rows
                (has_digest account.id (hash_recovery_code lib code))
                (λ x. record x { used_at = some now })
                db.recovery_code;
        })
  unfolding consume_recovery_code
  consume-ok code now db h = ground arith

  consume-spent :
      (digest : Text) (now : ℕ) (rows : List RecoveryCode) {r : RecoveryCode}
      → find_row (has_digest account.id digest) rows ≡ some r
      → unused (
          find_row (has_digest account.id digest) (
            update_rows (has_digest account.id digest) (λ x. record x { used_at = some now }) rows))
        ≡ none
  consume-spent digest now rows found = rw (
    find_row-update_rows (has_digest account.id digest) (has_digest account.id digest)
        (λ x. record x { used_at = some now }) (λ x. refl) rows,
    found,
    find_row_sound (has_digest account.id digest) rows found,
  )

  consume-refused :
      (code : Text) (now : ℕ) (db : Database)
      → unused (find_row (has_digest account.id (hash_recovery_code lib code)) db.recovery_code)
        ≡ none
      → consume_recovery_code lib account code now db ≡ (err invalid_mfa_code, db)
  unfolding consume_recovery_code
  consume-refused code now db h = ground arith

  -- For an account whose factor is active and whose secret decrypts: a recovery code, which matches
  -- no step, is spent once it has let somebody in. Presented again, in any form that has the same
  -- digest and matches no step, it is refused, and nothing is written.
  pub recovery_code_spent :
      (m : UserMfa) (code code' : Text) (now now' : ℕ) (db : Database) {db' : Database}
      → load_mfa account.id db ≡ some m
      → mfa_is_active m ≡ true
      → lib.fernet_key_is_valid (c ∷ k) ≡ true
      → lib.fernet_decrypt (c ∷ k) m.encrypted_secret ≡ some secret
      → matching_counter lib secret code now ≡ none
      → verify_code_for_login lib account code key now db ≡ (ok tt, db')
      → matching_counter lib secret code' now' ≡ none
      → hash_recovery_code lib code' ≡ hash_recovery_code lib code
      → verify_code_for_login lib account code' key now' db' ≡ (err invalid_mfa_code, db')
  unfolding accept_step load_mfa
  recovery_code_spent m code code' now now' db {db'} found active valid opens miss h miss' same =
      let taken = consume-ok code now db (
        ap (λ x. accept_step lib account m code now x db) (sym miss)
        ∙ sym (verify-eq-accept m code now db found active valid opens)
        ∙ h) in
      verify-eq-accept m code' now' db' (ap (λ d. load_mfa account.id d) taken.2 ∙ found) active
        valid opens
      ∙ rw miss' (
          consume-refused code' now' db'
            (rw (same, taken.2) (consume-spent _ now db.recovery_code taken.1)))
