-- ===== src/Auth/Passkeys.antt =====
-- backend/app/auth/passkeys.py. A credential is the text of its JSON. Options stand as what is handed
-- to the library that generates them, and a call of the library that raises one of the exceptions
-- caught here is `none`.
use counselready.Common.{
  ℕ, Bool, true, false, ◌&&◌, Option, none, some, List, [], ◌∷◌, if◌then◌else◌,
}
use counselready.Common.Equality.{◌==◌, nat_eq}
use counselready.Common.Text.{Text}
use counselready.Effects.Exceptions.{passkey_verification}
use counselready.Effects.Action.{Action, ◌>>=◌, pure, or_raise}
use counselready.Effects.Library.{Library, Bytes, RelyingParty}

pub record RegisteredPasskey : Type 0 where
  pub credential_id : Bytes
  pub public_key : Bytes
  pub sign_count : ℕ
  pub backed_up : Bool

pub record RegistrationOptions : Type 0 where
  pub party : RelyingParty
  pub user_id : ℕ
  pub user_name : Text
  pub user_display_name : Text
  pub challenge : Bytes
  pub exclude_credentials : List Bytes

pub record AuthenticationOptions : Type 0 where
  pub party : RelyingParty
  pub challenge : Bytes
  pub allow_credentials : List Bytes

abbrev is_blank : Text → Bool
is_blank [] = true
is_blank (c ∷ cs) = false

-- `s.rstrip(c)`
unfoldable pub rstrip : ℕ → Text → Text
rstrip c [] = []
rstrip c (x ∷ xs) = let rest = rstrip c xs in if (x == c) && is_blank rest then [] else x ∷ rest

-- The code of "=".
abbrev pub padding : ℕ
padding = 61

-- `display_name or user_name`
abbrev pub display_or : Option Text → Text → Text
display_or none user_name = user_name
display_or (some name) user_name = if is_blank name then user_name else name

abbrev pub registration_options :
    RelyingParty → ℕ → Text → Option Text → Bytes → List Bytes → RegistrationOptions
registration_options party user_id user_name display_name challenge existing_credentials = record {
  party = party;
  user_id = user_id;
  user_name = user_name;
  user_display_name = display_or display_name user_name;
  challenge = challenge;
  exclude_credentials = existing_credentials;
}

abbrev pub authentication_options : RelyingParty → Bytes → List Bytes → AuthenticationOptions
authentication_options party challenge allowed_credentials = record {
  party = party;
  challenge = challenge;
  allow_credentials = allowed_credentials;
}

module _ (lib : Library) where
  abbrev pub encode_challenge : Bytes → Text
  encode_challenge challenge = rstrip padding (lib.base64url_encode challenge)

  abbrev pub decode_challenge : Text → Bytes
  decode_challenge encoded = lib.base64url_decode encoded

  unfoldable pub verify_registration :
      {S : Type 0} → RelyingParty → Text → Bytes → Action S RegisteredPasskey
  verify_registration party credential_json challenge = do
    verified ←
        or_raise (lib.verify_registration_response party credential_json challenge)
          passkey_verification
    pure (record {
      credential_id = verified.credential_id;
      public_key = verified.credential_public_key;
      sign_count = verified.sign_count;
      backed_up = verified.credential_backed_up;
    })

  unfoldable pub verify_authentication :
      {S : Type 0} → RelyingParty → Text → Bytes → Bytes → ℕ → Action S ℕ
  verify_authentication party credential_json challenge public_key stored_sign_count =
      or_raise
        (lib.verify_authentication_response party credential_json challenge public_key
          stored_sign_count)
        passkey_verification
