-- ===== src/Tests/Serving.antt =====
-- The start and a serving process at concrete settings.
use counselready.Common.{ℕ, ◌≡◌, ◌≤◌, ◌↔◌, some, true, false, List, [], ◌∷◌, refl, arith}
use counselready.Common.Text.{Text, codes}
use counselready.Effects.Action.{ok}
use counselready.Startup.{Settings, production, check_serving_configuration, resolve_jwt_secret}
use counselready.Startup.Process.{
  Process, start, jwt_secret, readyz, readiness, database_is_reachable, get_engine, new_engine,
}
use counselready.Startup.Lifetime.{
  idle, Use, session, probe, key, store, use_all, IsConfigured, start-IsConfigured,
}
use counselready.Startup.Guards.{IsServable, check_serving_configuration_iff}

abbrev deployed : Settings
deployed = record {
  app_env = production;
  database_url = some (codes "postgresql://db");
  jwt_secret = some (codes "0123456789abcdef0123456789abcdef");
  mfa_encryption_key = some (codes "key");
  webauthn_rp_id = codes "example.org";
  webauthn_origin = codes "https://example.org";
  object_root = codes "/srv/objects";
  web_concurrency = 4;
}

check_serving_configuration_iff_example :
    (check_serving_configuration {S = ℕ} deployed 0 ≡ (ok tt, 0)) ↔ IsServable deployed
check_serving_configuration_iff_example = check_serving_configuration_iff {S = ℕ} deployed 0

abbrev ephemeral : Text
ephemeral = codes "0123456789abcdef0123456789abcdef0123456789a"

abbrev started : Process
started = record idle { jwt_secret_of_app = deployed.jwt_secret }

abbrev uses : List Use
uses = session ∷ probe (λ url. false) ∷ key ∷ store ∷ []

start-IsConfigured_example :
    let later = use_all deployed uses started in
    (jwt_secret later ≡ (ok (codes "0123456789abcdef0123456789abcdef"), later))
    × (32 ≤ 32)
    × IsConfigured deployed (codes "0123456789abcdef0123456789abcdef") later
unfolding start check_serving_configuration resolve_jwt_secret
start-IsConfigured_example = start-IsConfigured deployed ephemeral uses started (omega arith) refl

-- A probe before the database answers, and after.
probed_first : (readyz deployed (λ url. false) started).0 ≡ ok (readiness false)
unfolding readyz database_is_reachable get_engine new_engine
probed_first = refl

probed_later :
    (readyz deployed (λ url. true) (readyz deployed (λ url. false) started).1).0
    ≡ ok (readiness true)
unfolding readyz database_is_reachable get_engine new_engine
probed_later = refl
