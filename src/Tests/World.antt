-- ===== src/Tests/World.antt =====
-- A small library that behaves as the libraries' documents say, one account, and its rows.
use counselready.Common.{
  ℕ, zero, suc, ◌+◌, ◌-◌, ◌/◌, ◌%◌, Bool, true, false, ◌&&◌, Option, none, some, List, [], ◌∷◌, ltb,
  leb, length, if◌then◌else◌,
}
use counselready.Common.Equality.{◌==◌, nat_eq, list_eq}
use counselready.Common.Int.{ℤ, pos, negsuc}
use counselready.Common.Text.{Text, codes, Unicode}
use counselready.Effects.Library.{Library, Payload, Claim, Moment, Draw}
use counselready.Models.Accounts.{UserAccount, UserSession, UserMfa}
use counselready.Models.Database.{Database, empty_database}

abbrev is_between : ℕ → ℕ → ℕ → Bool
is_between a b c = leb a c && leb c b

-- The ASCII part of the tables.
abbrev pub ascii : Unicode
ascii = record {
  is_space = λ c. c == 32;
  is_digit = is_between 48 57;
  upper = λ c. (if is_between 97 122 c then c - 32 else c) ∷ [];
  casefold = λ c. (if is_between 65 90 c then c + 32 else c) ∷ [];
}

abbrev number : Text → Option ℕ
number (n ∷ []) = some n
number _ = none

-- A claim as one number, zero if it is missing.
abbrev field : Option Text → ℕ
field (some (n ∷ [])) = suc n
field _ = 0

abbrev time : Option ℕ → ℕ
time none = 0
time (some n) = suc n

abbrev text_of : ℕ → Option Text
text_of zero = none
text_of (suc n) = some (n ∷ [])

abbrev time_of : ℕ → Option ℕ
time_of zero = none
time_of (suc n) = some n

abbrev sign : Payload → Text → Text
sign p secret =
    length secret
    ∷ field p.sub
    ∷ field p.sid
    ∷ time p.iat
    ∷ time p.exp
    ∷ (elim p.typ [ none ↦ [] | some t ↦ t ])

abbrev read : Text → Text → List Claim → ℕ → Option Payload
read (k ∷ a ∷ b ∷ c ∷ d ∷ typ) secret required clock =
    if (k == length secret) && ltb (suc clock) d
    then some (record {
      sub = text_of a;
      sid = text_of b;
      iat = time_of c;
      exp = time_of d;
      typ = some typ;
    })
    else none
read _ secret required clock = none

-- The digit of a step of thirty seconds.
abbrev digit_at : ℤ → Text
digit_at (pos n) = (48 + (n / 30) % 10) ∷ []
digit_at (negsuc n) = codes "-"

abbrev check_hash : Text → Text → Option Bool
check_hash [] password = none
check_hash (salt ∷ hashed) password = some (hashed == password)

abbrev pub toy : Library
toy = record {
  unicode = ascii;
  uuid_str = λ n. n ∷ [];
  uuid_parse = number;
  sha256_hex = λ b. b;
  utf8 = λ t. t;
  argon2_hash = λ salt password. salt ∷ password;
  argon2_verify = check_hash;
  argon2_needs_rehash = λ h. some false;
  jwt_encode = sign;
  jwt_decode = read;
  totp_at = λ secret seconds. digit_at seconds;
  totp_uri = λ secret name. name;
  fernet_key_is_valid = λ key. true;
  fernet_encrypt = λ key nonce secret. secret;
  fernet_decrypt = λ key secret. some secret;
  client_challenge = λ c. some c;
  credential_raw_id = λ c. some c;
  base64url_encode = λ b. b;
  base64url_decode = λ t. t;
  verify_registration_response = λ party credential challenge. none;
  verify_authentication_response = λ party credential challenge key count. none;
}

abbrev pub email : Text
email = codes "a@b"

abbrev pub password : Text
password = codes "correct horse"

abbrev pub secret : Text
secret = codes "s"

abbrev pub alice : UserAccount
alice = record {
  id = 7;
  email = email;
  display_name = none;
  active = true;
  password_hash = some (1 ∷ password);
}

abbrev pub laptop : UserSession
laptop = record {
  id = 3;
  user_id = 7;
  refresh_digest = codes "r1";
  expires_at = 5000;
  revoked_at = none;
  last_used_at = none;
}

abbrev pub with_account : Database
with_account = record empty_database { user_account = alice ∷ []; user_session = laptop ∷ [] }

-- The account's factor, confirmed, and one of its recovery codes.
abbrev pub factor : UserMfa
factor = record {
  user_id = 7;
  encrypted_secret = codes "k";
  confirmed_at = some 50;
  last_used_counter = none;
}

abbrev pub with_factor : Database
with_factor = record with_account {
  user_mfa = factor ∷ [];
  recovery_code = record { user_id = 7; digest = codes "AB"; used_at = none } ∷ [];
}

abbrev pub noon : Moment
noon = record { now = 1000; transaction = 1000 }

abbrev pub draw : Draw
draw = record { uuid = 11; token = codes "r2"; salt = 2 }
