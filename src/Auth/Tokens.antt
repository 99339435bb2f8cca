-- ===== src/Auth/Tokens.antt =====
-- backend/app/auth/tokens.py. Each decoder raises one class of exception, so it returns an option.
pub mod Laws
use counselready.Common.{ℕ, ◌+◌, ◌*◌, Option, none, some, List, [], ◌∷◌, if◌then◌else◌}
use counselready.Common.Equality.{◌==◌, option_eq, list_eq, nat_eq}
use counselready.Common.Text.{Text, codes}
use counselready.Effects.Library.{Library, Payload, Claim, exp, iat, sub, sid}

abbrev pub access_token_ttl : ℕ
access_token_ttl = 15 * 60

abbrev pub mfa_challenge_ttl : ℕ
mfa_challenge_ttl = 5 * 60

abbrev pub refresh_token_ttl : ℕ
refresh_token_ttl = 30 * 24 * 60 * 60

abbrev pub type_access : Text
type_access = codes "access"

abbrev pub type_mfa_challenge : Text
type_mfa_challenge = codes "mfa_challenge"

pub record AccessTokenClaims : Type 0 where
  pub user_id : ℕ
  pub session_id : ℕ
  pub expires_at : ℕ

abbrev pub access_required : List Claim
access_required = exp ∷ iat ∷ sub ∷ sid ∷ []

abbrev pub challenge_required : List Claim
challenge_required = exp ∷ iat ∷ sub ∷ []

module _ (lib : Library) where
  abbrev pub access_payload : ℕ → ℕ → ℕ → Payload
  access_payload user_id session_id now = record {
    sub = some (lib.uuid_str user_id);
    sid = some (lib.uuid_str session_id);
    iat = some now;
    exp = some (now + access_token_ttl);
    typ = some type_access;
  }

  unfoldable pub issue_access_token : ℕ → ℕ → Text → ℕ → Text
  issue_access_token user_id session_id secret now =
      lib.jwt_encode (access_payload user_id session_id now) secret

  -- `uuid.UUID(payload[key])`: a missing key and a malformed uuid are both caught.
  parse_uuid : Option Text → Option ℕ
  parse_uuid none = none
  parse_uuid (some text) = lib.uuid_parse text

  access_claims : Option ℕ → Option ℕ → Option ℕ → Option AccessTokenClaims
  access_claims (some user_id) (some session_id) (some expires_at) =
      some (record { user_id = user_id; session_id = session_id; expires_at = expires_at })
  access_claims _ _ _ = none

  unfoldable pub decode_access_token : Text → Text → ℕ → Option AccessTokenClaims
  unfolding parse_uuid access_claims
  decode_access_token token secret clock =
      elim (lib.jwt_decode token secret access_required clock) [
        | none ↦ none
        | some payload ↦
            if payload.typ == some type_access
            then access_claims (parse_uuid payload.sub) (parse_uuid payload.sid) payload.exp
            else none
      ]

  unfoldable pub hash_refresh_token : Text → Text
  hash_refresh_token token = lib.sha256_hex (lib.utf8 token)

  abbrev pub challenge_payload : ℕ → ℕ → Payload
  challenge_payload user_id now = record {
    sub = some (lib.uuid_str user_id);
    sid = none;
    iat = some now;
    exp = some (now + mfa_challenge_ttl);
    typ = some type_mfa_challenge;
  }

  unfoldable pub issue_mfa_challenge : ℕ → Text → ℕ → Text
  issue_mfa_challenge user_id secret now = lib.jwt_encode (challenge_payload user_id now) secret

  unfoldable pub decode_mfa_challenge : Text → Text → ℕ → Option ℕ
  unfolding parse_uuid
  decode_mfa_challenge token secret clock =
      elim (lib.jwt_decode token secret challenge_required clock) [
        | none ↦ none
        | some payload ↦
            if payload.typ == some type_mfa_challenge then parse_uuid payload.sub else none
      ]

unfoldable pub refresh_expiry : ℕ → ℕ
refresh_expiry now = now + refresh_token_ttl
