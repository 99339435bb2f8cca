-- ===== src/Auth/Totp.antt =====
-- backend/app/auth/mfa.py: recovery codes, the cipher of the stored secret, and the window of TOTP
-- steps. Times are whole seconds of the Unix epoch; a step may be negative, as in the source.
pub mod Codes
pub mod Window
use counselready.Common.{
  ℕ, zero, suc, ◌+◌, ◌*◌, ◌/◌, Bool, true, false, Option, none, some, List, [], ◌∷◌, ◌++◌, map,
  take, drop, if◌then◌else◌, is_some,
}
use counselready.Common.Equality.{◌==◌, nat_eq, list_eq}
use counselready.Common.Int.{ℤ, sub_ℕ, scale}
use counselready.Common.Text.{Text, strip, to_upper, without, is_digits}
use counselready.Effects.Exceptions.{mfa_not_configured, secret_decryption}
use counselready.Effects.Action.{
  Action, Result, ok, err, ◌>>=◌, ◌>>◌, pure, raise, or_raise, raise_if,
}
use counselready.Effects.Library.{Library}

abbrev pub recovery_code_count : ℕ
recovery_code_count = 10

abbrev pub valid_window : ℕ
valid_window = 1

abbrev pub totp_interval_seconds : ℕ
totp_interval_seconds = 30

pub record Enrolment : Type 0 where
  pub encrypted_secret : Text
  pub provisioning_uri : Text
  pub recovery_codes : List Text
  pub recovery_digests : List Text

-- What an enrolment draws: the base32 secret, the hexadecimal text of each recovery code, and the
-- nonce of the cipher.
pub record EnrolmentDraw : Type 0 where
  pub secret : Text
  pub raw_code : ℕ → Text
  pub nonce : ℕ

-- `raw[:5]-raw[5:10]-raw[10:15]-raw[15:20]`
unfoldable pub group_code : Text → Text
group_code raw =
    take 5 raw
    ++ (b'-'
        ∷ (take 5 (drop 5 raw) ++ (b'-' ∷ (take 5 (drop 10 raw) ++ (b'-' ∷ take 5 (drop 15 raw))))))

-- `range(n)` from `i` on
unfoldable pub range_from : ℕ → ℕ → List ℕ
range_from i zero = []
range_from i (suc n) = i ∷ range_from (suc i) n

unfoldable pub counter_for : ℕ → ℕ
counter_for timestamp = timestamp / totp_interval_seconds

-- `current + offset` for each offset of `range(-VALID_WINDOW, VALID_WINDOW + 1)`
unfoldable pub window_steps : ℕ → List ℤ
window_steps current =
    map (λ i. sub_ℕ (current + i) valid_window) (range_from 0 (2 * valid_window + 1))

module _ (lib : Library) where
  -- `_cipher`: a missing, an empty and a malformed key are refused alike.
  unfoldable pub cipher : {S : Type 0} → Option Text → Action S Text
  cipher none = raise mfa_not_configured
  cipher (some []) = raise mfa_not_configured
  cipher (some (c ∷ key)) =
      if lib.fernet_key_is_valid (c ∷ key) then pure (c ∷ key) else raise mfa_not_configured

  unfoldable pub encrypt_secret : {S : Type 0} → Text → ℕ → Option Text → Action S Text
  encrypt_secret secret nonce key = do
    fernet ← cipher key
    pure (lib.fernet_encrypt fernet nonce secret)

  unfoldable pub decrypt_secret : {S : Type 0} → Text → Option Text → Action S Text
  decrypt_secret encrypted key = do
    fernet ← cipher key
    or_raise (lib.fernet_decrypt fernet encrypted) secret_decryption

  unfoldable pub generate_recovery_code : Text → Text
  generate_recovery_code hex = group_code (to_upper lib.unicode hex)

  unfoldable pub normalize_recovery_code : Text → Text
  normalize_recovery_code code =
      without b' ' (without b'-' (to_upper lib.unicode (strip lib.unicode code)))

  unfoldable pub hash_recovery_code : Text → Text
  hash_recovery_code code = lib.sha256_hex (lib.utf8 (normalize_recovery_code code))

  unfoldable pub begin_enrolment :
      {S : Type 0} → Text → Option Text → EnrolmentDraw → Action S Enrolment
  begin_enrolment email key draw = do
    let codes =
        map (λ i. generate_recovery_code (draw.raw_code i)) (range_from 0 recovery_code_count)
    encrypted ← encrypt_secret draw.secret draw.nonce key
    pure (record {
      encrypted_secret = encrypted;
      provisioning_uri = lib.totp_uri draw.secret email;
      recovery_codes = codes;
      recovery_digests = map hash_recovery_code codes;
    })

  -- The loop of `matching_counter` over the steps of the window.
  unfoldable pub first_step : Text → Text → List ℤ → Option ℤ
  first_step secret cleaned [] = none
  first_step secret cleaned (step ∷ steps) =
      let rest = first_step secret cleaned steps in
      if lib.totp_at secret (scale totp_interval_seconds step) == cleaned then some step else rest

  -- The texts that `compare_digest` is given are taken to be ASCII.
  abbrev pub cleaned_code : Text → Text
  cleaned_code code = without b' ' (strip lib.unicode code)

  unfoldable pub matching_counter : Text → Text → ℕ → Option ℤ
  matching_counter secret code timestamp =
      if is_digits lib.unicode (cleaned_code code)
      then first_step secret (cleaned_code code) (window_steps (counter_for timestamp))
      else none

  unfoldable pub verify_code : Text → Text → ℕ → Bool
  verify_code secret code timestamp = is_some (matching_counter secret code timestamp)
