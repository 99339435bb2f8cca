-- ===== src/Effects/Library.antt =====
-- What the program takes from its libraries: PyJWT, argon2, hashlib, pyotp, cryptography's Fernet,
-- py_webauthn, uuid and Python's Unicode tables. Each is a parameter, and its documented behaviour
-- is a hypothesis of the theorem that needs it. A random draw is an argument of the call.
use counselready.Common.{ℕ, Bool, Option, List}
use counselready.Common.Text.{Text, Unicode}
use counselready.Common.Int.{ℤ}

abbrev pub Bytes : Type 0
Bytes = List ℕ

pub data Claim : Type 0 where
  exp iat sub sid : Claim

-- The dictionary that a token signs. A missing key is `none`.
pub record Payload : Type 0 where
  pub sub : Option Text
  pub sid : Option Text
  pub iat : Option ℕ
  pub exp : Option ℕ
  pub typ : Option Text

pub record VerifiedRegistration : Type 0 where
  pub credential_id : Bytes
  pub credential_public_key : Bytes
  pub sign_count : ℕ
  pub credential_backed_up : Bool

-- `RelyingParty` of backend/app/auth/passkeys.py
pub record RelyingParty : Type 0 where
  pub rp_id : Text
  pub name : Text
  pub origin : Text

pub record Library : Type 0 where
  pub unicode : Unicode
  pub uuid_str : ℕ → Text
  pub uuid_parse : Text → Option ℕ
  -- `hashlib.sha256(…).hexdigest()` and `str.encode`
  pub sha256_hex : Bytes → Text
  pub utf8 : Text → Bytes
  -- `PasswordHasher.hash` with its salt; `verify(hash, password)` and `check_needs_rehash`, where
  -- `none` is an exception that the callers catch.
  pub argon2_hash : ℕ → Text → Text
  pub argon2_verify : Text → Text → Option Bool
  pub argon2_needs_rehash : Text → Option Bool
  -- `jwt.encode(payload, secret)`; `jwt.decode(token, secret, require)` at a time of the real clock
  pub jwt_encode : Payload → Text → Text
  pub jwt_decode : Text → Text → List Claim → ℕ → Option Payload
  -- `TOTP(secret).at(seconds)` and its `provisioning_uri(name)`
  pub totp_at : Text → ℤ → Text
  pub totp_uri : Text → Text → Text
  -- `Fernet(key)`; `encrypt` draws a nonce, and `decrypt` may raise `InvalidToken`
  pub fernet_key_is_valid : Text → Bool
  pub fernet_encrypt : Text → ℕ → Text → Text
  pub fernet_decrypt : Text → Text → Option Text
  -- The challenge in a credential's `clientDataJSON`, and its decoded `id`; `none` if malformed
  pub client_challenge : Text → Option Text
  pub credential_raw_id : Text → Option Bytes
  pub base64url_encode : Bytes → Text
  pub base64url_decode : Text → Bytes
  -- `verify_registration_response(credential, challenge, party)` and
  -- `verify_authentication_response(credential, challenge, party, public_key, sign_count)`
  pub verify_registration_response : RelyingParty → Text → Bytes → Option VerifiedRegistration
  pub verify_authentication_response : RelyingParty → Text → Bytes → Bytes → ℕ → Option ℕ

-- The instant of a call: `now` is the application's clock, and `transaction` the database's
-- `now()`, which is the start of the request's transaction and stamps `created_at`.
pub record Moment : Type 0 where
  pub now : ℕ
  pub transaction : ℕ

-- What one request draws at random: the uuid of the row that it creates, the text of a refresh
-- token or the bytes of a challenge, and the salt or nonce of a hash or a cipher.
pub record Draw : Type 0 where
  pub uuid : ℕ
  pub token : Text
  pub salt : ℕ
