-- ===== src/Auth/Totp/Window.antt =====
-- Which codes the window of steps accepts.
use counselready.Common.{
  ℕ, ◌+◌, true, some, ◌≡◌, ◌↔◌, arith, [], ◌∷◌, Bool-cases, inl, inr, ◌⊎◌, is_some, Option-cases,
}
use counselready.Common.Equality.{◌==◌, nat_eq, list_eq, ==-refl}
use counselready.Common.Int.{ℤ, pos, negsuc, sub_ℕ, scale, ◌≤ℤ◌}
use counselready.Common.Text.{Text, is_digits}
use counselready.Effects.Library.{Library}
use counselready.Auth.Totp.{
  first_step, window_steps, range_from, counter_for, matching_counter, cleaned_code, verify_code,
  totp_interval_seconds,
}

in_window :
    (c : ℕ) (step : ℤ)
    → sub_ℕ c 1 ≤ℤ step
    → step ≤ℤ pos (c + 1)
    → (step ≡ sub_ℕ (c + 0) 1) ⊎ (step ≡ sub_ℕ (c + 1) 1) ⊎ (step ≡ sub_ℕ (c + 2) 1)
in_window c (pos n) low high = ground arith
in_window c (negsuc n) low high = ground arith

first_step-hits :
    (lib : Library) (secret cleaned : Text) (step a b c : ℤ)
    → (step ≡ a) ⊎ (step ≡ b) ⊎ (step ≡ c)
    → lib.totp_at secret (scale totp_interval_seconds step) ≡ cleaned
    → is_some (first_step lib secret cleaned (a ∷ b ∷ c ∷ [])) ≡ true
unfolding first_step
first_step-hits lib secret cleaned step a b c (inl e) h = rw (← e, h, ==-refl cleaned)
first_step-hits lib secret cleaned step a b c (inr (inl e)) h =
    elim (Bool-cases (lib.totp_at secret (scale totp_interval_seconds a) == cleaned)) [
      | inl hit ↦ rw hit
      | inr miss ↦ rw (miss, ← e, h, ==-refl cleaned)
    ]
first_step-hits lib secret cleaned step a b c (inr (inr e)) h =
    elim (Bool-cases (lib.totp_at secret (scale totp_interval_seconds a) == cleaned)) [
      | inl hit ↦ rw hit
      | inr miss ↦
          rw miss
            (elim (Bool-cases (lib.totp_at secret (scale totp_interval_seconds b) == cleaned)) [
              | inl hit ↦ rw hit
              | inr miss' ↦ rw (miss', ← e, h, ==-refl cleaned)
            ])
    ]

module _ (lib : Library) (secret code : Text) (timestamp : ℕ) where
  -- The code that the authenticator shows at a step.
  abbrev code_at : ℤ → Text
  code_at step = lib.totp_at secret (scale totp_interval_seconds step)

  -- A step that is found carries the code, and lies at most one step from the timestamp's own.
  pub matching_counter_sound :
      {step : ℤ}
      → matching_counter lib secret code timestamp ≡ some step
      → (is_digits lib.unicode (cleaned_code lib code) ≡ true)
        × (code_at step ≡ cleaned_code lib code)
        × (sub_ℕ (counter_for timestamp) 1 ≤ℤ step)
        × (step ≤ℤ pos (counter_for timestamp + 1))
  unfolding matching_counter first_step window_steps range_from
  matching_counter_sound h = ground arith

  -- A code of digits is accepted exactly when it is the code of the timestamp's own step or of one
  -- of the two beside it.
  pub verify_code_iff :
      is_digits lib.unicode (cleaned_code lib code) ≡ true
      → (verify_code lib secret code timestamp ≡ true) ↔ (
          (step : ℤ) × (sub_ℕ (counter_for timestamp) 1 ≤ℤ step)
          × (step ≤ℤ pos (counter_for timestamp + 1))
          × (code_at step ≡ cleaned_code lib code))
  unfolding verify_code matching_counter first_step window_steps range_from
  verify_code_iff digits = (
    λ h. elim (Option-cases (matching_counter lib secret code timestamp)) [
      | inl missing ↦ absurd (cc)
      | inr (step, found) ↦ let s = matching_counter_sound found in (step, s.2, s.3, s.1)
    ],
    λ (step, low, high, shown). rw digits (
        first_step-hits lib secret _ step _ _ _ (in_window (counter_for timestamp) step low high)
          shown),
  )
