-- ===== src/Auth/Tokens/Laws.antt =====
-- What the decoders accept.
use counselready.Common.{ℕ, ◌+◌, none, some, ◌≡◌, ◌⊎◌, refl, arith, List, false}
use counselready.Common.Equality.{◌==◌, option_eq, list_eq, nat_eq, ℕ_discrete}
use counselready.Common.Text.{Text}
use counselready.Effects.Library.{Library, Payload, Claim}
use counselready.Auth.Tokens.{
  access_payload, challenge_payload, issue_access_token, issue_mfa_challenge, decode_access_token,
  decode_mfa_challenge, access_required, challenge_required, access_token_ttl, type_access,
  type_mfa_challenge,
}

types_differ : (some type_mfa_challenge == some type_access) ≡ false
unfolding option_eq list_eq ℕ_discrete
types_differ = refl

types_differ_back : (some type_access == some type_mfa_challenge) ≡ false
unfolding option_eq list_eq ℕ_discrete
types_differ_back = refl

-- What PyJWT documents of a token that it signed with the same key: it is refused, or decoded to
-- the payload that was signed.
abbrev pub DecodesOrRefuses : Library → Payload → Text → List Claim → ℕ → Type 0
DecodesOrRefuses lib p secret required clock =
    (lib.jwt_decode (lib.jwt_encode p secret) secret required clock ≡ none)
    ⊎ (lib.jwt_decode (lib.jwt_encode p secret) secret required clock ≡ some p)

module _ (lib : Library) (user_id session_id now clock : ℕ) (secret : Text) where
  -- An access token that PyJWT accepts decodes to the account and the session that it was issued
  -- for, and to an expiry fifteen minutes after its issue, if the texts of the two uuids parse back.
  pub decode-issue_access_token :
      lib.uuid_parse (lib.uuid_str user_id) ≡ some user_id
      → lib.uuid_parse (lib.uuid_str session_id) ≡ some session_id
      → lib.jwt_decode
          (lib.jwt_encode (access_payload lib user_id session_id now) secret)
          secret
          access_required
          clock
        ≡ some (access_payload lib user_id session_id now)
      → decode_access_token lib (issue_access_token lib user_id session_id secret now) secret clock
        ≡ some (record {
          user_id = user_id;
          session_id = session_id;
          expires_at = now + access_token_ttl;
        })
  unfolding decode_access_token issue_access_token
  decode-issue_access_token u s d = ground arith

  -- If PyJWT refuses a token of the same key or returns the payload that was signed, a challenge is
  -- never accepted as an access token, nor an access token as a challenge.
  pub token_kinds_are_apart :
      DecodesOrRefuses lib (challenge_payload lib user_id now) secret access_required clock
      → DecodesOrRefuses lib
          (access_payload lib user_id session_id now)
          secret
          challenge_required
          clock
      → (decode_access_token lib (issue_mfa_challenge lib user_id secret now) secret clock ≡ none)
        × (decode_mfa_challenge lib
              (issue_access_token lib user_id session_id secret now)
              secret
              clock
            ≡ none)
  unfolding decode_access_token issue_access_token decode_mfa_challenge issue_mfa_challenge
  token_kinds_are_apart c a = (ground (arith, types_differ), ground (arith, types_differ_back))
