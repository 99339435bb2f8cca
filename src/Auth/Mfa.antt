-- ===== src/Auth/Mfa.antt =====
-- backend/app/auth/mfa_service.py: enrolment, and the check of a code at login.
pub mod Factors
pub mod Setup
use counselready.Common.{
  ℕ, suc, Bool, true, false, not, ◌&&◌, ◌||◌, Option, none, some, List, [], ◌∷◌, if◌then◌else◌,
  is_none, is_some, map,
}
use counselready.Common.Equality.{◌==◌, nat_eq, list_eq}
use counselready.Common.Int.{ℤ, leb_ℤ}
use counselready.Common.Table.{find_row, count_rows, update_rows, delete_rows, add_row}
use counselready.Common.Text.{Text}
use counselready.Effects.Exceptions.{mfa_already_enrolled, mfa_not_enrolled, invalid_mfa_code}
use counselready.Effects.Action.{
  Action, Result, ok, err, ◌>>=◌, ◌>>◌, pure, raise, gets, or_raise, raise_if, modify,
  insert_unique,
}
use counselready.Effects.Library.{Library}
use counselready.Models.Accounts.{UserAccount, UserMfa, RecoveryCode, mfa_is_active}
use counselready.Models.Database.{Database}
use counselready.Auth.Totp.{
  Enrolment, EnrolmentDraw, begin_enrolment, decrypt_secret, hash_recovery_code, matching_counter,
}

unfoldable pub load_mfa : ℕ → Database → Option UserMfa
load_mfa user_id db = find_row (λ m. m.user_id == user_id) db.user_mfa

-- `record is not None and record.is_active`
abbrev pub active_mfa : Option UserMfa → Option UserMfa
active_mfa none = none
active_mfa (some m) = if mfa_is_active m then some m else none

unfoldable pub is_mfa_active : ℕ → Database → Bool
is_mfa_active user_id db = is_some (active_mfa (load_mfa user_id db))

pub record PendingEnrolment : Type 0 where
  pub provisioning_uri : Text
  pub recovery_codes : List Text

abbrev pub update_mfa : ℕ → (UserMfa → UserMfa) → Database → Database
update_mfa user_id f db = record db {
  user_mfa = update_rows (λ m. m.user_id == user_id) f db.user_mfa;
}

-- The unconfirmed enrolment is created, or its secret replaced.
unfoldable pub put_secret : Option UserMfa → ℕ → Text → Action Database (Unit {0})
put_secret (some existing) user_id encrypted =
    modify (
      update_mfa user_id (λ m. record m { encrypted_secret = encrypted; last_used_counter = none }))
put_secret none user_id encrypted =
    insert_unique (λ m. m.user_id == user_id)
      (record {
        user_id = user_id;
        encrypted_secret = encrypted;
        confirmed_at = none;
        last_used_counter = none;
      })
      (λ db. db.user_mfa) (λ rows db. record db { user_mfa = rows })

unfoldable pub delete_codes : ℕ → Database → Database
delete_codes user_id db = record db {
  recovery_code = delete_rows (λ c. c.user_id == user_id) db.recovery_code;
}

-- `session.add_all([RecoveryCode(…) for digest in …])`, under the unique index of the table
unfoldable pub add_codes : ℕ → List Text → Action Database (Unit {0})
add_codes user_id [] = pure tt
add_codes user_id (digest ∷ digests) = do
  insert_unique (λ c. (c.user_id == user_id) && (c.digest == digest))
      (record { user_id = user_id; digest = digest; used_at = none }) (λ db. db.recovery_code)
      (λ rows db. record db { recovery_code = rows })
  add_codes user_id digests

unfoldable pub remaining_recovery_codes : ℕ → Database → ℕ
remaining_recovery_codes user_id db =
    count_rows (λ c. (c.user_id == user_id) && is_none c.used_at) db.recovery_code

unfoldable pub disable_mfa : UserAccount → Action Database (Unit {0})
disable_mfa account = do
  found ← gets (load_mfa account.id)
  _ ← or_raise (active_mfa found) mfa_not_enrolled
  modify (λ db. record db { user_mfa = delete_rows (λ m. m.user_id == account.id) db.user_mfa })
  modify (delete_codes account.id)

-- `recovery is None or recovery.used_at is not None`, negated
abbrev pub unused : Option RecoveryCode → Option RecoveryCode
unused none = none
unused (some c) = if is_none c.used_at then some c else none

abbrev pub has_digest : ℕ → Text → RecoveryCode → Bool
has_digest user_id digest c = (c.user_id == user_id) && (c.digest == digest)

-- `record.last_used_counter is not None and step <= record.last_used_counter`
abbrev pub is_replay : Option ℤ → ℤ → Bool
is_replay none step = false
is_replay (some last) step = leb_ℤ step last

module _ (lib : Library) where
  unfoldable pub start_enrolment :
      UserAccount → Option Text → EnrolmentDraw → Action Database PendingEnrolment
  start_enrolment account key draw = do
    existing ← gets (load_mfa account.id)
    raise_if (is_some (active_mfa existing)) mfa_already_enrolled
    enrolment ← begin_enrolment lib account.email key draw
    put_secret existing account.id enrolment.encrypted_secret
    modify (delete_codes account.id)
    add_codes account.id enrolment.recovery_digests
    pure (record {
      provisioning_uri = enrolment.provisioning_uri;
      recovery_codes = enrolment.recovery_codes;
    })

  unfoldable pub confirm_enrolment :
      UserAccount → Text → Option Text → ℕ → Action Database (Unit {0})
  confirm_enrolment account code key now = do
    found ← gets (load_mfa account.id)
    mfa ← or_raise found mfa_not_enrolled
    raise_if (mfa_is_active mfa) mfa_already_enrolled
    secret ← decrypt_secret lib mfa.encrypted_secret key
    step ← or_raise (matching_counter lib secret code now) invalid_mfa_code
    modify (
        update_mfa account.id
          (λ m. record m { confirmed_at = some now; last_used_counter = some step }))

  -- `_consume_recovery_code`
  unfoldable pub consume_recovery_code : UserAccount → Text → ℕ → Action Database (Unit {0})
  consume_recovery_code account code now = do
    found ←
        gets (λ db. find_row (has_digest account.id (hash_recovery_code lib code)) db.recovery_code)
    _ ← or_raise (unused found) invalid_mfa_code
    modify (λ db. record db {
      recovery_code =
          update_rows (has_digest account.id (hash_recovery_code lib code))
            (λ c. record c { used_at = some now }) db.recovery_code;
    })

  unfoldable pub accept_step :
      UserAccount → UserMfa → Text → ℕ → Option ℤ → Action Database (Unit {0})
  accept_step account mfa code now (some step) = do
    raise_if (is_replay mfa.last_used_counter step) invalid_mfa_code
    modify (update_mfa account.id (λ m. record m { last_used_counter = some step }))
  accept_step account mfa code now none = consume_recovery_code account code now

  unfoldable pub verify_code_for_login :
      UserAccount → Text → Option Text → ℕ → Action Database (Unit {0})
  verify_code_for_login account code key now = do
    found ← gets (load_mfa account.id)
    mfa ← or_raise (active_mfa found) mfa_not_enrolled
    secret ← decrypt_secret lib mfa.encrypted_secret key
    accept_step account mfa code now (matching_counter lib secret code now)
