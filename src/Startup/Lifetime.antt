-- ===== src/Startup/Lifetime.antt =====
-- A serving process from its start on (backend/app/main.py, backend/app/db/session.py,
-- backend/app/api/health.py).
use counselready.Common.{
  subst, sym, ap, Bool, false, Option, none, some, List, [], ◌∷◌, ◌≡◌, ◌≤◌, inl, inr, refl, arith,
  length, Option-cases,
}
use counselready.Common.Text.{Text}
use counselready.Effects.Action.{ok}
use counselready.Startup.{
  Settings, check_serving_configuration, resolve_jwt_secret, min_jwt_secret_length,
}
use counselready.Startup.Process.{
  Process, get_engine, new_engine, get_sessionmaker, new_sessionmaker, database_is_reachable,
  readiness, readyz, start, jwt_secret, object_store, new_store,
}

-- The key of a start that succeeds, given that a fresh key is long enough.
key_long :
    (config : Settings) (ephemeral : Text) (p q : Process)
    → min_jwt_secret_length ≤ length ephemeral
    → start config ephemeral p ≡ (ok tt, q)
    → min_jwt_secret_length ≤ length (resolve_jwt_secret config ephemeral)
unfolding start check_serving_configuration resolve_jwt_secret
key_long config ephemeral p q long h = elim (Option-cases config.jwt_secret) [
  | inl unset ↦ ground (arith, unset)
  | inr (secret, set) ↦ ground (arith, set)
]

-- The URL of the engine that the process has or would make.
abbrev pub engine_url : Option Text → Settings → Option Text
engine_url (some engine) config = some engine
engine_url none config = config.database_url

-- Whether there is a database to connect to, and it answers.
abbrev pub reaches : (Text → Bool) → Option Text → Bool
reaches answers none = false
reaches answers (some url) = answers url

-- The readiness probe never raises: it answers with 200 if there is a database to connect to and it
-- answers, and with 503 otherwise. It changes the process only by the engine that it makes where
-- there was none and a URL is set.
pub readyz_lem :
    (config : Settings) (answers : Text → Bool) (p : Process)
    → readyz config answers p ≡ (
      ok (readiness (reaches answers (engine_url p.engine config))),
      record p { engine = engine_url p.engine config },
    )
unfolding readyz database_is_reachable get_engine new_engine
readyz_lem config answers p = elim (Option-cases p.engine) [
  | inl unmade ↦ elim (Option-cases config.database_url) [
    | inl unset ↦ ground (arith, unmade, unset)
    | inr (url, set) ↦ ground (arith, unmade, set)
  ]
  | inr (engine, made) ↦ ground (arith, made)
]

-- The calls that a process serves after its start: a session for a request, a probe, a key, a store.
pub data Use : Type 0 where
  session : Use
  probe : (Text → Bool) → Use
  key : Use
  store : Use

-- A process that has just been made.
abbrev pub idle : Process
idle = record {
  engine = none;
  sessionmaker = none;
  jwt_secret_of_app = none;
  object_store_of_app = none;
}

unfoldable pub use_one : Settings → Use → Process → Process
use_one config session p = (get_sessionmaker config p).1
use_one config (probe answers) p = (readyz config answers p).1
use_one config key p = (jwt_secret p).1
use_one config store p = (object_store config p).1

unfoldable pub use_all : Settings → List Use → Process → Process
use_all config [] p = p
use_all config (u ∷ us) p = use_all config us (use_one config u p)

abbrev pub Among : Option Text → Option Text → Type 0
Among none o = Unit
Among (some a) o = o ≡ some a

-- The process holds nothing but what the configuration says, and the key `secret`.
pub record IsConfigured (config : Settings) (secret : Text) (p : Process) : Type 0 where
  pub engine_from : Among p.engine config.database_url
  pub sessions_from : Among p.sessionmaker config.database_url
  pub store_from : Among p.object_store_of_app (some config.object_root)
  pub key_kept : p.jwt_secret_of_app ≡ some secret

kept :
    (config : Settings) (secret : Text) (p q : Process)
    → p ≡ q
    → IsConfigured config secret p
    → IsConfigured config secret q
kept config secret p q e = subst (IsConfigured config secret) e

Among-some :
    (e : Option Text) (o : Option Text) (url : Text) → e ≡ some url → Among e o → o ≡ some url
Among-some none o url h a = ground arith
Among-some (some v) o url h a = ground arith

engine_url-Among :
    (e : Option Text) (config : Settings)
    → Among e config.database_url
    → Among (engine_url e config) config.database_url
engine_url-Among none config a = elim (Option-cases config.database_url) [
  | inl unset ↦ rw unset tt
  | inr (url, set) ↦ rw set refl
]
engine_url-Among (some url) config a = a

-- A process with an engine and a session factory that the configuration's URL made.
made :
    (config : Settings) (secret : Text) (p : Process) (engine maker : Option Text)
    → IsConfigured config secret p
    → Among engine config.database_url
    → Among maker config.database_url
    → IsConfigured config secret (record p { engine = engine; sessionmaker = maker })
made config secret p engine maker c e m = record {
  engine_from = e;
  sessions_from = m;
  store_from = c.store_from;
  key_kept = c.key_kept;
}

session-IsConfigured :
    (config : Settings) (secret : Text) (p : Process)
    → IsConfigured config secret p
    → IsConfigured config secret (get_sessionmaker config p).1
unfolding get_sessionmaker new_sessionmaker get_engine new_engine
session-IsConfigured config secret p c = elim (Option-cases p.sessionmaker) [
  | inr (maker, there) ↦ kept config secret p _ (ground (arith, there)) c
  | inl unmade ↦ elim (Option-cases p.engine) [
    | inr (engine, there) ↦
        let from = Among-some p.engine config.database_url engine there c.engine_from in
        kept config secret (record p { engine = p.engine; sessionmaker = some engine }) _
          (ground (arith, unmade, there))
          (made config secret p p.engine (some engine) c c.engine_from from)
    | inl unset ↦ elim (Option-cases config.database_url) [
      | inl nowhere ↦ kept config secret p _ (ground (arith, unmade, unset, nowhere)) c
      | inr (url, set) ↦
          kept config secret (record p { engine = some url; sessionmaker = some url }) _
            (ground (arith, unmade, unset, set))
            (made config secret p (some url) (some url) c set set)
    ]
  ]
]

store-IsConfigured :
    (config : Settings) (secret : Text) (p : Process)
    → IsConfigured config secret p
    → IsConfigured config secret (object_store config p).1
unfolding object_store new_store
store-IsConfigured config secret p c = elim (Option-cases p.object_store_of_app) [
  | inr (root, there) ↦ kept config secret p _ (ground (arith, there)) c
  | inl unmade ↦
      kept config secret (record p { object_store_of_app = some config.object_root }) _
        (ground (arith, unmade))
        (record {
          engine_from = c.engine_from;
          sessions_from = c.sessions_from;
          store_from = refl;
          key_kept = c.key_kept;
        })
]

use_one-IsConfigured :
    (config : Settings) (secret : Text) (u : Use) (p : Process)
    → IsConfigured config secret p
    → IsConfigured config secret (use_one config u p)
unfolding use_one jwt_secret
use_one-IsConfigured config secret session p c = session-IsConfigured config secret p c
use_one-IsConfigured config secret (probe answers) p c =
    kept config secret (record p { engine = engine_url p.engine config }) _
      (sym (ap (λ r. r.1) (readyz_lem config answers p)))
      (made config secret p (engine_url p.engine config) p.sessionmaker c
        (engine_url-Among p.engine config c.engine_from) c.sessions_from)
use_one-IsConfigured config secret key p c = kept config secret p _ (ground (arith, c.key_kept)) c
use_one-IsConfigured config secret store p c = store-IsConfigured config secret p c

use_all-IsConfigured :
    (config : Settings) (secret : Text) (us : List Use) (p : Process)
    → IsConfigured config secret p
    → IsConfigured config secret (use_all config us p)
unfolding use_all
use_all-IsConfigured config secret [] p c = c
use_all-IsConfigured config secret (u ∷ us) p c =
    use_all-IsConfigured config secret us (use_one config u p)
      (use_one-IsConfigured config secret u p c)

key_served :
    (config : Settings) (secret : Text) (p : Process)
    → IsConfigured config secret p
    → jwt_secret p ≡ (ok secret, p)
unfolding jwt_secret
key_served config secret p c = ground (arith, c.key_kept)

-- After a start that succeeds and whatever calls the process has served since, a route that asks for
-- the signing key gets the key of the start, of 32 characters at least if a fresh key has as many;
-- and the engine, the session factory and the store are, where they have been made, those of the
-- configured URL and root.
pub start-IsConfigured :
    (config : Settings) (ephemeral : Text) (us : List Use) (q : Process)
    → min_jwt_secret_length ≤ length ephemeral
    → start config ephemeral idle ≡ (ok tt, q)
    → let key = resolve_jwt_secret config ephemeral in
      let later = use_all config us q in
      (jwt_secret later ≡ (ok key, later))
      × (min_jwt_secret_length ≤ length key)
      × IsConfigured config key later
unfolding start check_serving_configuration
start-IsConfigured config ephemeral us q long h =
    let key = resolve_jwt_secret config ephemeral in
    let whole = use_all-IsConfigured config key us q (
      kept config key (record idle { jwt_secret_of_app = some key }) q (ground arith)
        (record { engine_from = tt; sessions_from = tt; store_from = tt; key_kept = refl })) in
    (
      key_served config key (use_all config us q) whole,
      key_long config ephemeral idle q long h,
      whole,
    )
