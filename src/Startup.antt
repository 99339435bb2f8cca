-- ===== src/Startup.antt =====
-- backend/app/core/config.py, the guards of backend/app/main.py, and the request log of
-- backend/app/core/logging.py. A setting comes from the environment; a fresh key and a request's uuid
-- are drawn by the library, and a duration is measured by it.
pub mod Guards
pub mod Process
pub mod Lifetime
use counselready.Common.{
  ℕ, Bool, true, false, not, ◌&&◌, ltb, length, is_none, Option, none, some, List, [], ◌∷◌,
}
use counselready.Common.Text.{Text}
use counselready.Effects.Exceptions.{Exn, startup_configuration}
use counselready.Effects.Action.{Action, Result, ok, err, ◌>>◌, ◌>>=◌, raise_if}

pub data AppEnv : Type 0 where
  local staging production : AppEnv

-- The settings that the program reads, but for the level of the log.
pub record Settings : Type 0 where
  pub app_env : AppEnv
  pub database_url : Option Text
  pub jwt_secret : Option Text
  pub mfa_encryption_key : Option Text
  pub webauthn_rp_id : Text
  pub webauthn_origin : Text
  pub object_root : Text
  pub web_concurrency : ℕ

abbrev pub is_local : AppEnv → Bool
is_local local = true
is_local _ = false

abbrev pub min_jwt_secret_length : ℕ
min_jwt_secret_length = 32

abbrev pub is_short : Option Text → Bool
is_short none = false
is_short (some secret) = ltb (length secret) min_jwt_secret_length

unfoldable pub check_serving_configuration : {S : Type 0} → Settings → Action S (Unit {0})
check_serving_configuration config = do
  raise_if (not (is_local config.app_env) && is_none config.database_url) startup_configuration
  raise_if (is_short config.jwt_secret) startup_configuration
  raise_if (not (is_local config.app_env) && is_none config.mfa_encryption_key)
      startup_configuration
  raise_if (is_none config.jwt_secret && not (is_local config.app_env)) startup_configuration
  raise_if (is_none config.jwt_secret && ltb 1 config.web_concurrency) startup_configuration

-- `ephemeral` is the draw of `secrets.token_urlsafe(32)`.
unfoldable pub resolve_jwt_secret : Settings → Text → Text
resolve_jwt_secret config ephemeral = elim config.jwt_secret [
  | none ↦ ephemeral
  | some secret ↦ secret
]

-- What the log can see of a request: its `X-Request-ID`, its method, its path, and the path template of
-- the route that it matched.
pub record HttpRequest : Type 0 where
  pub request_id_header : Option Text
  pub method : Text
  pub path : Text
  pub route : Option Text

pub record LogLine : Type 0 where
  pub request_id : Text
  pub method : Text
  pub route : Option Text
  pub status : ℕ
  pub duration : ℕ

-- The matched template, where `none` is the sentinel `UNMATCHED_ROUTE`.
abbrev pub route_template : HttpRequest → Option Text
route_template request = request.route

-- `request.headers.get(REQUEST_ID_HEADER) or uuid.uuid4().hex`
unfoldable pub request_id_of : Option Text → Text → Text
request_id_of none drawn = drawn
request_id_of (some []) drawn = drawn
request_id_of (some (c ∷ cs)) drawn = c ∷ cs

-- `_log`
abbrev pub log : HttpRequest → Text → ℕ → ℕ → LogLine
log request request_id status duration = record {
  request_id = request_id;
  method = request.method;
  route = route_template request;
  status = status;
  duration = duration;
}

-- A response as its status and the request id of its header.
pub record HttpResponse : Type 0 where
  pub status : ℕ
  pub request_id_header : Option Text

-- `dispatch`: the lines that one request logs, and what it hands on.
unfoldable pub dispatch :
    HttpRequest → Result HttpResponse → Text → ℕ → Result HttpResponse × List LogLine
dispatch request (err e) drawn duration =
    (err e, log request (request_id_of request.request_id_header drawn) 500 duration ∷ [])
dispatch request (ok response) drawn duration =
    let request_id = request_id_of request.request_id_header drawn in
    (
      ok (record response { request_id_header = some request_id }),
      log request request_id response.status duration ∷ [],
    )
