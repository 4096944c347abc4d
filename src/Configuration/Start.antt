-- ===== src/Configuration/Start.antt =====
-- What a start from the environment gives: `LoadFromEnv` of internal/config/config.go together with
-- `AuthenticateRequest` of internal/auth/auth.go.
use graphpost.Prelude.{
  String, false, ◌==◌, if◌then◌else◌, ◌≡◌, refl, sym, ◌∙◌, ap, Bool-cases, inl, inr,
}
use graphpost.Auth.Config.{AuthConfig}
use graphpost.Auth.Outcome.{ok, fails, authentication_required}
use graphpost.Auth.Keys.{Library, Keys}
use graphpost.Auth.Jwks.{JwksCache}
use graphpost.Auth.Signature.{Env}
use graphpost.Auth.Request.{
  Request, Answer, extract_token, session_with_role, is_admin_secret, without_token,
  authenticate_request,
}
use graphpost.Configuration.Defaults.{parse_database_url, default_database}
use graphpost.Configuration.Environment.{
  Parsers, Environment, load_auth, load_database, load_server, load_pool, load_graphql,
  load_telemetry, load_logging, load_cache, load_analytics, load_duckdb, load_refresh, load_router,
  load_with, load_from_env,
}

-- An environment without one of its variables.
abbrev pub unset : String → Environment → Environment
unset name env = λ key. if key == name then "" else env key

-- The database section, whatever the URL.
pub load_database-default :
    {F : Type 0} (parsers : Parsers F) (env : Environment)
    → load_database parsers env default_database ≡ default_database
unfolding load_database parse_database_url
load_database-default parsers env = elim (Bool-cases (env "GRAPHPOST_DATABASE_URL" == "")) [
  | inl e ↦ rw (load_database, e) refl
  | inr e ↦ rw (load_database, e) refl
]

-- No other section reads the URL.
load_with-unset :
    {F : Type 0} (parsers : Parsers F) (env : Environment)
    → load_with parsers env default_database
      ≡ load_with parsers (unset "GRAPHPOST_DATABASE_URL" env) default_database
unfolding load_with load_server load_auth load_pool load_graphql load_telemetry load_logging
    load_cache load_analytics load_duckdb load_refresh load_router
load_with-unset parsers env = refl

module _ {F : Type 0} (parsers : Parsers F) (env : Environment) where
  -- The URL of the database has no effect: the configuration from any environment is that from the
  -- same environment with GRAPHPOST_DATABASE_URL unset.
  pub load_from_env-ignores_url :
      load_from_env parsers env ≡ load_from_env parsers (unset "GRAPHPOST_DATABASE_URL" env)
  unfolding load_from_env
  load_from_env-ignores_url =
      let env' = unset "GRAPHPOST_DATABASE_URL" env in
      ap (load_with parsers env) (load_database-default parsers env)
      ∙ load_with-unset parsers env
      ∙ sym (ap (load_with parsers env') (load_database-default parsers env'))

  abbrev config : AuthConfig
  config = (load_from_env parsers env).auth

  module _ (lib : Library) (keys : Keys) (random : Env) (answer : Answer) where
    -- With a configuration from the environment, a request that has no token and sends no admin secret
    -- is refused if GRAPHPOST_ADMIN_SECRET is set, and is otherwise let in with the role anonymous,
    -- whatever the other variables say: GRAPHPOST_JWT_SECRET, and the variables GRAPHPOST_AUTH_ENABLED,
    -- GRAPHPOST_AUTH_WEBHOOK_URL and GRAPHPOST_ANONYMOUS_ROLE of docs/configuration.md, which nothing
    -- reads.
    pub authenticate_request-load_from_env :
        (r : Request) (cache : JwksCache)
        → r.header "X-Admin-Secret" ≡ ""
        → extract_token config r ≡ ""
        → (authenticate_request lib config keys random answer r cache).0 ≡ (
            if env "GRAPHPOST_ADMIN_SECRET" == ""
            then ok (session_with_role "anonymous" false)
            else fails authentication_required)
    unfolding authenticate_request is_admin_secret without_token load_from_env load_with load_auth
    authenticate_request-load_from_env r cache no_secret no_token =
        elim (Bool-cases (env "GRAPHPOST_ADMIN_SECRET" == "")) [
          | inl e ↦ rw (no_secret, no_token, e) refl
          | inr e ↦ rw (no_secret, no_token, e) refl
        ]
