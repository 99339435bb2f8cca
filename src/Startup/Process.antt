-- ===== src/Startup/Process.antt =====
-- The serving process: the start and the end of backend/app/main.py, the engine of
-- backend/app/db/session.py, the probes of backend/app/api/health.py, and the dependencies by which
-- the routes read the configuration. An engine and a store are what they were made of, the database's
-- URL and a root; whether a database answers is told by its driver.
use counselready.Common.{ℕ, Bool, true, false, Option, none, some, String}
use counselready.Common.Text.{Text, codes}
use counselready.Effects.Exceptions.{database_not_configured, runtime_error}
use counselready.Effects.Action.{Action, ◌>>◌, ◌>>=◌, pure, gets, or_raise, modify, catch}
use counselready.Effects.Library.{RelyingParty}
use counselready.Startup.{Settings, check_serving_configuration, resolve_jwt_secret}

-- The globals of db/session.py and `app.state`.
pub record Process : Type 0 where
  pub engine : Option Text
  pub sessionmaker : Option Text
  pub jwt_secret_of_app : Option Text
  pub object_store_of_app : Option Text

-- `get_engine`
unfoldable pub new_engine : Settings → Option Text → Action Process Text
new_engine config (some engine) = pure engine
new_engine config none = do
  url ← or_raise config.database_url database_not_configured
  modify (λ p. record p { engine = some url })
  pure url

unfoldable pub get_engine : Settings → Action Process Text
get_engine config = do engine ← gets (λ p. p.engine); new_engine config engine

-- `get_sessionmaker`
unfoldable pub new_sessionmaker : Settings → Option Text → Action Process Text
new_sessionmaker config (some maker) = pure maker
new_sessionmaker config none = do
  engine ← get_engine config
  modify (λ p. record p { sessionmaker = some engine })
  pure engine

unfoldable pub get_sessionmaker : Settings → Action Process Text
get_sessionmaker config = do maker ← gets (λ p. p.sessionmaker); new_sessionmaker config maker

-- `database_is_reachable`: `answers` says whether the engine connects and `SELECT 1` succeeds.
unfoldable pub database_is_reachable : Settings → (Text → Bool) → Action Process Bool
database_is_reachable config answers =
    catch (do engine ← get_engine config; pure (answers engine)) (λ e. pure false)

-- `dispose_engine`
unfoldable pub dispose_engine : Action Process (Unit {0})
dispose_engine = modify (λ p. record p { engine = none; sessionmaker = none })

-- The probes, as a status and the fields of the body.
pub record Readiness : Type 0 where
  pub status_code : ℕ
  pub status : String
  pub database : String

abbrev pub healthz : ℕ × String
healthz = (200, "ok")

abbrev pub readiness : Bool → Readiness
readiness true = record { status_code = 200; status = "ok"; database = "ok" }
readiness false = record { status_code = 503; status = "degraded"; database = "unreachable" }

unfoldable pub readyz : Settings → (Text → Bool) → Action Process Readiness
readyz config answers = do
  reachable ← database_is_reachable config answers
  pure (readiness reachable)

-- `lifespan` up to its `yield`; the log line and the log's handler are left out. `ephemeral` is the draw
-- of a fresh key.
unfoldable pub start : Settings → Text → Action Process (Unit {0})
start config ephemeral = do
  check_serving_configuration config
  modify (λ p. record p { jwt_secret_of_app = some (resolve_jwt_secret config ephemeral) })

-- The dependencies of the routes.
unfoldable pub jwt_secret : Action Process Text
jwt_secret = do secret ← gets (λ p. p.jwt_secret_of_app); or_raise secret runtime_error

abbrev pub encryption_key : Settings → Option Text
encryption_key config = config.mfa_encryption_key

abbrev pub relying_party : Settings → RelyingParty
relying_party config = record {
  rp_id = config.webauthn_rp_id;
  name = codes "CounselReady";
  origin = config.webauthn_origin;
}

unfoldable pub new_store : Settings → Option Text → Action Process Text
new_store config (some store) = pure store
new_store config none = do
  modify (λ p. record p { object_store_of_app = some config.object_root })
  pure config.object_root

unfoldable pub object_store : Settings → Action Process Text
object_store config = do store ← gets (λ p. p.object_store_of_app); new_store config store
