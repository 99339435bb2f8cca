-- ===== src/Tests/Factors.antt =====
-- The second factor at concrete data.
use counselready.Common.{List, map, Option, ℕ, ◌+◌, ◌≡◌, refl, arith, some, none, [], ◌∷◌}
use counselready.Common.Equality.{nat_eq, list_eq, option_eq, ℕ_discrete}
use counselready.Common.Int.{ℤ, pos}
use counselready.Common.Table.{find_row, update_rows, delete_rows, add_row, any_row}
use counselready.Common.Text.{codes, to_upper, strip, without, is_digits}
use counselready.Effects.Exceptions.{invalid_mfa_code}
use counselready.Effects.Action.{ok, err}
use counselready.Models.Database.{Database}
use counselready.Auth.Totp.{
  EnrolmentDraw, matching_counter, first_step, window_steps, range_from, counter_for,
  hash_recovery_code, normalize_recovery_code, decrypt_secret, cipher, begin_enrolment,
  encrypt_secret, generate_recovery_code, group_code,
}
use counselready.Auth.Mfa.{
  PendingEnrolment, load_mfa, verify_code_for_login, accept_step, consume_recovery_code,
  start_enrolment, put_secret, delete_codes, add_codes, confirm_enrolment,
}
use counselready.Auth.Mfa.Factors.{verify_code_for_login_spent, recovery_code_spent}
use counselready.Tests.World.{email, toy, alice, factor, with_account, with_factor}

-- The factor after the code "3" of step 33 has been accepted.
abbrev after_code : Database
after_code = record with_factor {
  user_mfa = record factor { last_used_counter = some (pos 33) } ∷ [];
}

accepted :
    verify_code_for_login toy alice (codes "3") (some (codes "key")) 1000 with_factor
    ≡ (ok tt, after_code)
unfolding verify_code_for_login load_mfa decrypt_secret cipher matching_counter first_step
    window_steps range_from counter_for is_digits strip without ℕ_discrete list_eq accept_step
    find_row update_rows
accepted = refl

verify_code_for_login_spent_example :
    verify_code_for_login toy alice (codes " 3") (some (codes "key")) 1020 after_code
    ≡ (err invalid_mfa_code, after_code)
unfolding load_mfa find_row matching_counter first_step window_steps range_from counter_for
    is_digits strip without ℕ_discrete list_eq
verify_code_for_login_spent_example =
    verify_code_for_login_spent toy alice b'k' (codes "ey") (codes "k") factor (codes "3")
      (codes " 3") 1000 1020 (pos 33) (pos 33) with_factor refl refl refl refl refl accepted refl
      (omega arith)

abbrev after_recovery : Database
after_recovery = record with_factor {
  recovery_code = record { user_id = 7; digest = codes "AB"; used_at = some 1000 } ∷ [];
}

recovered :
    verify_code_for_login toy alice (codes "a-b") (some (codes "key")) 1000 with_factor
    ≡ (ok tt, after_recovery)
unfolding verify_code_for_login load_mfa decrypt_secret cipher matching_counter first_step
    window_steps range_from counter_for is_digits strip without ℕ_discrete list_eq accept_step
    find_row update_rows consume_recovery_code hash_recovery_code normalize_recovery_code to_upper
recovered = refl

recovery_code_spent_example :
    verify_code_for_login toy alice (codes "AB") (some (codes "key")) 2000 after_recovery
    ≡ (err invalid_mfa_code, after_recovery)
unfolding load_mfa find_row matching_counter first_step window_steps range_from counter_for
    is_digits strip without ℕ_discrete list_eq hash_recovery_code normalize_recovery_code to_upper
recovery_code_spent_example =
    recovery_code_spent toy alice b'k' (codes "ey") (codes "k") factor (codes "a-b") (codes "AB")
      1000 2000 with_factor refl refl refl refl refl recovered refl refl

abbrev bob : ℕ
bob = 8

abbrev enrolment_draw : EnrolmentDraw
enrolment_draw = record { secret = codes "k"; raw_code = λ i. (48 + i) ∷ []; nonce = 1 }

abbrev digits : List ℕ
digits = codes "0123456789"

abbrev pending : PendingEnrolment
pending = record { provisioning_uri = email; recovery_codes = map (λ d. d ∷ codes "---") digits }

-- The account with its enrolment not yet confirmed, or confirmed at 1000.
abbrev enrolled : Option ℕ → Option ℤ → Database
enrolled confirmed_at counter = record with_account {
  user_mfa =
      record {
        user_id = 7;
        encrypted_secret = codes "k";
        confirmed_at = confirmed_at;
        last_used_counter = counter;
      }
      ∷ [];
  recovery_code = map (λ d. record { user_id = 7; digest = d ∷ []; used_at = none }) digits;
}

set_up :
    start_enrolment toy alice (some (codes "key")) enrolment_draw with_account
    ≡ (ok pending, enrolled none none)
unfolding start_enrolment load_mfa find_row any_row begin_enrolment encrypt_secret cipher
    generate_recovery_code group_code range_from hash_recovery_code normalize_recovery_code to_upper
    strip without ℕ_discrete list_eq put_secret delete_codes add_codes delete_rows add_row
set_up = refl

confirmed :
    confirm_enrolment toy alice (codes "2") (some (codes "key")) 1000 (enrolled none none)
    ≡ (ok tt, enrolled (some 1000) (some (pos 32)))
unfolding confirm_enrolment load_mfa find_row decrypt_secret cipher matching_counter first_step
    window_steps range_from counter_for is_digits strip without ℕ_discrete list_eq update_rows
confirmed = refl
