-- ===== src/Api/Passkeys.antt =====
-- backend/app/api/passkeys.py. A route takes the account that `CurrentUser` yields, and the relying
-- party of the settings. The challenge and the id are read out of a credential by the library.
pub mod Replay
use counselready.Common.{
  ℕ, ◌+◌, Bool, true, false, not, ◌&&◌, leb, Option, none, some, List, [], ◌∷◌, map, if◌then◌else◌,
}
use counselready.Common.Equality.{◌==◌, nat_eq, list_eq}
use counselready.Common.Table.{where_rows, find_row, delete_rows, update_rows, any_row, add_row}
use counselready.Common.Text.{Text}
use counselready.Effects.Exceptions.{Exn, http, passkey_verification}
use counselready.Effects.Action.{
  Action, ◌>>=◌, ◌>>◌, pure, raise, gets, or_raise, modify, catch, insert_unique,
}
use counselready.Effects.Library.{Library, Bytes, RelyingParty, Moment, Draw}
use counselready.Models.Accounts.{UserAccount, Passkey, PasskeyChallenge}
use counselready.Models.Database.{Database}
use counselready.Auth.Passkeys.{
  RegisteredPasskey, RegistrationOptions, AuthenticationOptions, registration_options,
  authentication_options, encode_challenge, decode_challenge, verify_registration,
  verify_authentication,
}
use counselready.Auth.Sessions.{
  normalize_email, account_by_email, account_by_id, enabled, complete_mfa_login,
}
use counselready.Api.Accounts.{TokenResponse, tokens_of}

-- `CHALLENGE_TTL`
abbrev pub challenge_ttl : ℕ
challenge_ttl = 300

abbrev pub invalid : Exn
invalid = http 401 "Passkey could not be verified" none

abbrev pub passkey_not_found : Exn
passkey_not_found = http 404 "Passkey not found" none

-- `except PasskeyVerificationError`
unfoldable pub passkey_error : Exn → Exn
passkey_error passkey_verification = invalid
passkey_error e = e

pub record PasskeyResponse : Type 0 where
  pub id : ℕ
  pub label : Option Text
  pub backed_up : Bool
  pub last_used_at : Option ℕ

abbrev pub passkey_response : Passkey → PasskeyResponse
passkey_response p = record {
  id = p.id;
  label = p.label;
  backed_up = p.backed_up;
  last_used_at = p.last_used_at;
}

abbrev pub passkeys_of : ℕ → Database → List Passkey
passkeys_of user_id db = where_rows (λ p. p.user_id == user_id) db.passkey

abbrev pub credentials_of : ℕ → Database → List Bytes
credentials_of user_id db = map (λ p. p.credential_id) (passkeys_of user_id db)

-- `record is None or record.expires_at <= now`, negated
abbrev pub unexpired : Option PasskeyChallenge → ℕ → Option PasskeyChallenge
unexpired none now = none
unexpired (some c) now = if leb c.expires_at now then none else some c

unfoldable pub list_passkeys : UserAccount → Action Database (List PasskeyResponse)
list_passkeys account = gets (λ db. map passkey_response (passkeys_of account.id db))

-- `[…] if account is not None and account.active else []`
abbrev pub allowed_credentials : Option UserAccount → Database → List Bytes
allowed_credentials none db = []
allowed_credentials (some account) db = if account.active then credentials_of account.id db else []

abbrev pub id_of : Option UserAccount → Option ℕ
id_of none = none
id_of (some account) = some account.id

abbrev pub is_passkey_of : ℕ → UserAccount → Passkey → Bool
is_passkey_of passkey_id account p = (p.id == passkey_id) && (p.user_id == account.id)

unfoldable pub delete_passkey : ℕ → UserAccount → Action Database (Unit {0})
delete_passkey passkey_id account = do
  found ← gets (λ db. find_row (is_passkey_of passkey_id account) db.passkey)
  passkey ← or_raise found passkey_not_found
  modify (λ db. record db { passkey = delete_rows (λ p. p.id == passkey.id) db.passkey })

module _ (lib : Library) where
  -- `_store_challenge`
  unfoldable pub store_challenge : Option ℕ → Bytes → ℕ → Action Database (Unit {0})
  store_challenge user_id challenge now = do
    let encoded = encode_challenge lib challenge
    let row : PasskeyChallenge = record {
      user_id = user_id;
      challenge = encoded;
      expires_at = now + challenge_ttl;
    }
    insert_unique (λ c. c.challenge == encoded) row (λ db. db.passkey_challenge)
        (λ rows db. record db { passkey_challenge = rows })

  -- `_consume_challenge`
  unfoldable pub consume_challenge : Text → ℕ → Action Database Bytes
  consume_challenge credential now = do
    presented ← or_raise (lib.client_challenge credential) invalid
    found ← gets (λ db. find_row (λ c. c.challenge == presented) db.passkey_challenge)
    _ ← or_raise (unexpired found now) invalid
    modify (λ db. record db {
      passkey_challenge = delete_rows (λ c. c.challenge == presented) db.passkey_challenge;
    })
    pure (decode_challenge lib presented)

  module _ (party : RelyingParty) where
    unfoldable pub register_begin : UserAccount → Bytes → ℕ → Action Database RegistrationOptions
    register_begin account challenge now = do
      existing ← gets (credentials_of account.id)
      store_challenge (some account.id) challenge now
      pure (
          registration_options party account.id account.email account.display_name challenge
            existing)

    unfoldable pub register_complete :
        Text → Option Text → UserAccount → ℕ → ℕ → Action Database (Unit {0})
    register_complete credential label account now uuid = do
      challenge ← consume_challenge credential now
      registered ←
          catch (verify_registration lib party credential challenge) (λ e. raise (passkey_error e))
      let passkey : Passkey = record {
        id = uuid;
        user_id = account.id;
        credential_id = registered.credential_id;
        public_key = registered.public_key;
        sign_count = registered.sign_count;
        backed_up = registered.backed_up;
        label = label;
        last_used_at = none;
      }
      insert_unique (λ p. p.credential_id == registered.credential_id) passkey (λ db. db.passkey)
          (λ rows db. record db { passkey = rows })

    unfoldable pub login_begin : Text → Bytes → ℕ → Action Database AuthenticationOptions
    login_begin email challenge now = do
      account ← gets (account_by_email (normalize_email lib email))
      allowed ← gets (allowed_credentials account)
      store_challenge (id_of account) challenge now
      pure (authentication_options party challenge allowed)

    -- The passkey that a credential names, its account, and the new count of an assertion that
    -- verifies.
    unfoldable pub assertion : Text → Bytes → Action Database (Passkey × UserAccount × ℕ)
    assertion credential challenge = do
      credential_id ← or_raise (lib.credential_raw_id credential) invalid
      found ← gets (λ db. find_row (λ p. p.credential_id == credential_id) db.passkey)
      passkey ← or_raise found invalid
      owner ← gets (account_by_id passkey.user_id)
      account ← or_raise (enabled owner) invalid
      new_count ←
          catch
            (verify_authentication lib party credential challenge passkey.public_key
              passkey.sign_count)
            (λ e. raise (passkey_error e))
      pure (passkey, account, new_count)

    -- What follows a verified assertion: the counter moves, and a session is issued.
    unfoldable pub record_assertion :
        Text → Moment → Draw → Passkey × UserAccount × ℕ → Action Database TokenResponse
    record_assertion secret t draw (passkey, account, new_count) = do
      modify (λ db. record db {
        passkey =
            update_rows (λ p. p.id == passkey.id)
              (λ p. record p { sign_count = new_count; last_used_at = some t.now }) db.passkey;
      })
      session ← complete_mfa_login lib account secret t draw
      pure (tokens_of session)

    unfoldable pub login_complete : Text → Text → Moment → Draw → Action Database TokenResponse
    login_complete credential secret t draw = do
      challenge ← consume_challenge credential t.now
      verified ← assertion credential challenge
      record_assertion secret t draw verified
