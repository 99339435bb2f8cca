-- ===== src/Tests/Passkeys.antt =====
-- A sign-in by passkey at concrete data.
use counselready.Common.{◌≡◌, refl, some, none, [], ◌∷◌, suc, false}
use counselready.Common.Equality.{nat_eq, list_eq, list_dec, ℕ_discrete}
use counselready.Common.Table.{find_row, any_row}
use counselready.Common.Text.{codes}
use counselready.Effects.Action.{Result, ok, err}
use counselready.Effects.Library.{Library, RelyingParty}
use counselready.Models.Accounts.{Passkey, PasskeyChallenge}
use counselready.Models.Database.{Database}
use counselready.Auth.Passkeys.{verify_authentication}
use counselready.Auth.Sessions.{complete_mfa_login, issue_session}
use counselready.Api.Accounts.{TokenResponse}
use counselready.Api.Passkeys.{
  invalid, login_complete, register_complete, consume_challenge, assertion, record_assertion,
}
use counselready.Api.Passkeys.Replay.{Admits, login_complete-Admits, login_complete_once}
use counselready.Tests.World.{toy, alice, with_account, noon, draw, secret}
use counselready.Auth.Tokens.{hash_refresh_token, issue_access_token}

-- A library by which every assertion verifies.
abbrev keyed : Library
keyed = record toy {
  verify_authentication_response = λ party credential challenge key count. some (suc count);
}

abbrev phone : Passkey
phone = record {
  id = 60;
  user_id = 7;
  credential_id = codes "c";
  public_key = codes "k";
  sign_count = 4;
  backed_up = false;
  label = none;
  last_used_at = none;
}

-- In this library a credential presents its own text as the challenge and as its id.
abbrev pending : PasskeyChallenge
pending = record { user_id = some 7; challenge = codes "c"; expires_at = 1300 }

abbrev with_passkey : Database
with_passkey = record with_account { passkey = phone ∷ []; passkey_challenge = pending ∷ [] }

abbrev party : RelyingParty
party = record { rp_id = codes "x"; name = codes "n"; origin = codes "o" }

abbrev signed : Result TokenResponse × Database
signed = login_complete keyed party (codes "c") secret noon draw with_passkey

abbrev tokens : TokenResponse
tokens = record {
  access_token = 1 ∷ 8 ∷ 12 ∷ 1001 ∷ 1901 ∷ codes "access";
  refresh_token = codes "r2";
}

signs_in :
    login_complete keyed party (codes "c") secret noon draw with_passkey ≡ (ok tokens, signed.1)
unfolding login_complete consume_challenge assertion record_assertion find_row any_row ℕ_discrete
    list_eq list_dec verify_authentication complete_mfa_login issue_session hash_refresh_token
    issue_access_token
signs_in = refl

login_complete-Admits_example :
    Admits keyed (codes "c") party secret noon draw with_passkey (ok tokens, signed.1)
login_complete-Admits_example =
    login_complete-Admits keyed (codes "c") party secret noon draw with_passkey signs_in

login_complete_once_example :
    (login_complete keyed party (codes "c") secret noon draw signed.1 ≡ (err invalid, signed.1))
    × (register_complete keyed party (codes "c") none alice noon.now 61 signed.1
        ≡ (err invalid, signed.1))
login_complete_once_example =
    login_complete_once keyed (codes "c") party secret noon draw with_passkey secret noon draw none
      alice 61 signs_in
