-- ===== src/Startup/Guards.antt =====
-- What serves, and what is logged of it.
use counselready.Common.{
  map, ℕ, true, false, ◌≡◌, ◌≤◌, ◌⊎◌, ◌↔◌, inl, inr, refl, arith, none, some, [], ◌∷◌, length,
  is_some, Bool-cases, Option-cases,
}
use counselready.Common.Text.{Text}
use counselready.Effects.Action.{Result, ok, err}
use counselready.Startup.{
  Settings, is_local, check_serving_configuration, min_jwt_secret_length, HttpRequest, HttpResponse,
  dispatch,
}

-- Where the process may serve: with a database, a cipher key and a signing key of full length, or
-- locally as the only worker; locally with several workers a signing key of full length is enough.
abbrev pub IsServable : Settings → Type 0
IsServable config =
    ((secret : Text) × (config.jwt_secret ≡ some secret)
      × (min_jwt_secret_length ≤ length secret)
      × ((is_local config.app_env ≡ true)
          ⊎ (is_local config.app_env ≡ false)
            × (is_some config.database_url ≡ true)
            × (is_some config.mfa_encryption_key ≡ true)))
    ⊎ (config.jwt_secret ≡ none) × (is_local config.app_env ≡ true) × (config.web_concurrency ≤ 1)

checked-IsServable :
    {S : Type 0} (config : Settings) (s : S)
    → check_serving_configuration config s ≡ (ok tt, s)
    → IsServable config
unfolding check_serving_configuration
checked-IsServable config s h = elim (Option-cases config.jwt_secret) [
  | inl unset ↦ inr (unset, ground arith, ground arith)
  | inr (secret, set) ↦ elim (Bool-cases (is_local config.app_env)) [
    | inl here ↦ inl (secret, set, ground arith, inl here)
    | inr served ↦ inl (secret, set, ground arith, inr (served, ground arith, ground arith))
  ]
]

IsServable-checked :
    {S : Type 0} (config : Settings) (s : S)
    → IsServable config
    → check_serving_configuration config s ≡ (ok tt, s)
unfolding check_serving_configuration
IsServable-checked config s (inl (secret, set, long, inl here)) = ground arith
IsServable-checked config s (inl (secret, set, long, inr (served, database, cipher))) = ground arith
IsServable-checked config s (inr (unset, here, alone)) = ground arith

-- The guard lets a configuration through exactly when it may serve.
pub check_serving_configuration_iff :
    {S : Type 0} (config : Settings) (s : S)
    → (check_serving_configuration config s ≡ (ok tt, s)) ↔ IsServable config
check_serving_configuration_iff config s =
    (checked-IsServable config s, IsServable-checked config s)

-- A response whose status the log may tell.
abbrev pub status_of : Result HttpResponse → ℕ
status_of (ok response) = response.status
status_of (err e) = 500

-- Every request logs one line, with the status of its response, or 500 if the handler raised, which is
-- raised again. The line tells of the path only the template that it matched: two requests that
-- differ in the path alone log the same.
pub dispatch_logs_template :
    (request : HttpRequest) (path : Text) (result : Result HttpResponse) (drawn : Text)
    (duration : ℕ)
    → let (answer, lines) = dispatch request result drawn duration in
      (lines ≡ (dispatch (record request { path = path }) result drawn duration).1)
      × (status_of answer ≡ status_of result)
      × (length lines ≡ 1)
      × (map (λ line. line.status) lines ≡ status_of result ∷ [])
      × (map (λ line. line.route) lines ≡ request.route ∷ [])
unfolding dispatch
dispatch_logs_template request path (ok response) drawn duration = (refl, refl, refl, refl, refl)
dispatch_logs_template request path (err e) drawn duration = (refl, refl, refl, refl, refl)
