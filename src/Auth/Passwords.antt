-- ===== src/Auth/Passwords.antt =====
-- backend/app/auth/passwords.py
use counselready.Common.{
  ℕ, Bool, true, false, Option, none, some, ltb, length, ◌≡◌, arith, ◌≤◌, ◌<◌, ◌⊎◌,
}
use counselready.Common.Text.{Text}
use counselready.Effects.Exceptions.{weak_password}
use counselready.Effects.Action.{Action, ok, err, ◌>>◌, pure, raise_if}
use counselready.Effects.Library.{Library}

abbrev pub min_password_length : ℕ
min_password_length = 12

abbrev pub max_password_length : ℕ
max_password_length = 256

unfoldable pub validate_password : {S : Type 0} → Text → Action S (Unit {0})
validate_password password = do
  raise_if (ltb (length password) min_password_length) weak_password
  raise_if (ltb max_password_length (length password)) weak_password

module _ (lib : Library) where
  unfoldable pub hash_password : {S : Type 0} → ℕ → Text → Action S Text
  unfolding validate_password
  hash_password salt password = do validate_password password; pure (lib.argon2_hash salt password)

  unfoldable pub verify_password : Text → Text → Bool
  verify_password password password_hash = elim (lib.argon2_verify password_hash password) [
    | none ↦ false
    | some matched ↦ matched
  ]

  -- For a missing hash the source verifies against a dummy one and drops the result: what remains
  -- is `False`.
  unfoldable pub verify_password_against : Text → Option Text → Bool
  unfolding verify_password
  verify_password_against password none = false
  verify_password_against password (some password_hash) = verify_password password password_hash

  unfoldable pub needs_rehash : Text → Bool
  needs_rehash password_hash = elim (lib.argon2_needs_rehash password_hash) [
    | none ↦ true
    | some outdated ↦ outdated
  ]

  -- A password is hashed exactly when its length lies in the policy's range, and is refused
  -- with nothing written otherwise.
  pub hash_password_iff :
      {S : Type 0} (salt : ℕ) (password : Text) (s : S)
      → (hash_password salt password s ≡ (ok (lib.argon2_hash salt password), s))
          × (min_password_length ≤ length password)
          × (length password ≤ max_password_length)
        ⊎ (hash_password salt password s ≡ (err weak_password, s))
          × ((length password < min_password_length) ⊎ (max_password_length < length password))
  unfolding hash_password
  hash_password_iff salt password s = ground arith
