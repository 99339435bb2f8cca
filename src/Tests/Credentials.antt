-- ===== src/Tests/Credentials.antt =====
-- Passwords, tokens and codes at concrete data.
use counselready.Common.{ℕ, ◌+◌, ◌≡◌, ◌↔◌, refl, arith, true, some}
use counselready.Common.Equality.{nat_eq, list_eq, option_eq, ℕ_discrete}
use counselready.Common.Int.{ℤ, scale, pos, sub_ℕ, ◌≤ℤ◌}
use counselready.Common.Text.{Text, codes, strip, without, is_digits}
use counselready.Effects.Exceptions.{weak_password}
use counselready.Effects.Action.{err}
use counselready.Auth.Passwords.{hash_password}
use counselready.Auth.Tokens.{decode_access_token, issue_access_token}
use counselready.Auth.Tokens.Laws.{decode-issue_access_token}
use counselready.Auth.Totp.{
  group_code, normalize_recovery_code, hash_recovery_code, verify_code, cleaned_code, counter_for,
}
use counselready.Auth.Totp.Codes.{normalize-group_code, IsCodeChar}
use counselready.Auth.Totp.Window.{verify_code_iff}
use counselready.Tests.World.{toy, secret}

-- Eleven characters are too few.
short_password : hash_password toy {S = ℕ} 2 (codes "correct hor") 0 ≡ (err weak_password, 0)
unfolding hash_password
short_password = refl

decode-issue_access_token_example :
    decode_access_token toy (issue_access_token toy 7 3 secret 1000) secret 1200
    ≡ some (record { user_id = 7; session_id = 3; expires_at = 1900 })
unfolding list_eq ℕ_discrete
decode-issue_access_token_example =
    decode-issue_access_token toy 7 3 1000 1200 secret refl refl refl

abbrev hex : Text
hex = codes "A7A7A7A7A7A7A7A7A7A7"

letter : IsCodeChar toy.unicode 65
unfolding ℕ_discrete
letter = (refl, refl, λ e. omega arith, λ e. omega arith)

digit : IsCodeChar toy.unicode 55
unfolding ℕ_discrete
digit = (refl, refl, λ e. omega arith, λ e. omega arith)

normalize-group_code_example :
    (normalize_recovery_code toy (group_code hex) ≡ hex)
    × (normalize_recovery_code toy hex ≡ hex)
    × (hash_recovery_code toy (group_code hex) ≡ hash_recovery_code toy hex)
unfolding ℕ_discrete
normalize-group_code_example =
    normalize-group_code toy hex refl refl
      (
        letter,
        (
          digit,
          (
            letter,
            (
              digit,
              (
                letter,
                (
                  digit,
                  (
                    letter,
                    (
                      digit,
                      (
                        letter,
                        (
                          digit,
                          (
                            letter,
                            (
                              digit,
                              (
                                letter,
                                (
                                  digit,
                                  (letter, (digit, (letter, (digit, (letter, (digit, tt)))))),
                                ),
                              ),
                            ),
                          ),
                        ),
                      ),
                    ),
                  ),
                ),
              ),
            ),
          ),
        ),
      )
      refl

verify_code_iff_example : (verify_code toy secret (codes "4") 1000 ≡ true) ↔ (
    (step : ℤ) × (sub_ℕ (counter_for 1000) 1 ≤ℤ step)
    × (step ≤ℤ pos (counter_for 1000 + 1))
    × (toy.totp_at secret (scale 30 step) ≡ cleaned_code toy (codes "4")))
unfolding is_digits strip without ℕ_discrete
verify_code_iff_example = verify_code_iff toy secret (codes "4") 1000 refl
