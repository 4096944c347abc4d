-- ===== src/Server/Administration.antt =====
-- Who may administrate the server of internal/engine/server.go.
use graphpost.Prelude.{
  String, List, [], ◌∷◌, Bool, true, false, ◌||◌, ◌≡◌, refl, sym, ◌∙◌, inl, inr, eqb, arith,
}
use graphpost.Prelude.Text.{ElementOf}
use graphpost.Auth.Config.{AuthConfig, Session}
use graphpost.Configuration.{ConsoleConfig}
use graphpost.Auth.Outcome.{ok, fails, panics}
use graphpost.Auth.Jwks.{JwksCache}
use graphpost.Auth.Request.{is_admin_secret, session_with_role}
use graphpost.Auth.Request.Admission.{is_admin_secret-session}
use graphpost.Server.{
  Codec, Engine, HttpRequest, Body, empty, Headers, Reply, response, aborted, Outcome, http_error,
}
use graphpost.Server.Handlers.{handle_metadata, handle_explain, handle_config}
use graphpost.Server.Middleware.{
  HttpServer, routed, cors_headers, cors_middleware, after_authentication, auth_middleware,
}

-- The paths of metadata, of explanations and of the configuration.
abbrev pub administrative_paths : List String
administrative_paths = "/v1/metadata" ∷ "/v1/query" ∷ "/v1/graphql/explain" ∷ "/v1/config" ∷ []

abbrev is_empty : Body → Bool
is_empty empty = true
is_empty _ = false

-- An error for the client that has no right to an answer, an answer without a body, or none at all.
abbrev is_denial : Reply → Bool
is_denial (response status headers body) = eqb status 401 || eqb status 405 || is_empty body
is_denial aborted = true
is_denial _ = false

-- The engine does nothing, and the client gets nothing of it.
abbrev pub IsDenied : Outcome → Type 0
IsDenied o = (o.0 ≡ []) × (is_denial o.1 ≡ true)

module _ (codec : Codec) (engine : Engine) (headers : Headers) (session : Session) where
  handle_metadata-IsDenied :
      (r : HttpRequest)
      → session.is_admin ≡ false
      → IsDenied (handle_metadata codec engine headers session r)
  unfolding handle_metadata http_error
  handle_metadata-IsDenied r e = ground arith

  handle_explain-IsDenied :
      (r : HttpRequest)
      → session.is_admin ≡ false
      → IsDenied (handle_explain codec engine headers session r)
  unfolding handle_explain http_error
  handle_explain-IsDenied r e = ground arith

  handle_config-IsDenied :
      (auth : AuthConfig) (console : ConsoleConfig)
      → session.is_admin ≡ false
      → IsDenied (handle_config codec engine headers session auth console)
  unfolding handle_config http_error
  handle_config-IsDenied auth console e = ground arith

module _ {F : Type 0} (server : HttpServer F) (r : HttpRequest) where
  routed-IsDenied :
      (session : Session) (headers : Headers)
      → ElementOf r.path administrative_paths
      → session.is_admin ≡ false
      → IsDenied (routed server r session headers)
  unfolding routed
  routed-IsDenied session headers (inl p) e =
      rw (routed, sym p) (handle_metadata-IsDenied server.codec server.engine headers session _ e)
  routed-IsDenied session headers (inr (inl p)) e =
      rw (routed, sym p) (handle_metadata-IsDenied server.codec server.engine headers session _ e)
  routed-IsDenied session headers (inr (inr (inl p))) e =
      rw (routed, sym p) (handle_explain-IsDenied server.codec server.engine headers session _ e)
  routed-IsDenied session headers (inr (inr (inr (inl p)))) e =
      rw (routed, sym p)
        (handle_config-IsDenied server.codec server.engine headers session server.config.auth
          server.config.console e)
  routed-IsDenied session headers (inr (inr (inr (inr x)))) e = elim x [ ]

  cors_middleware-IsDenied :
      (session : Session)
      → ElementOf r.path administrative_paths
      → session.is_admin ≡ false
      → IsDenied (cors_middleware server r session)
  unfolding cors_middleware
  cors_middleware-IsDenied session h e =
      ground (arith, routed-IsDenied session (cors_headers server r) h e)

  after_authentication-IsDenied :
      (result : graphpost.Auth.Outcome.Outcome Session)
      → ElementOf r.path administrative_paths
      → ((session : Session) → result ≡ ok session → session.is_admin ≡ false)
      → IsDenied (after_authentication server r result)
  unfolding after_authentication http_error
  after_authentication-IsDenied (ok session) h e =
      cors_middleware-IsDenied session h (e session refl)
  after_authentication-IsDenied panics h e = (refl, refl)
  after_authentication-IsDenied (fails error) h e = ground (
    arith,
    cors_middleware-IsDenied (session_with_role server.config.auth.unauthorized_role false) h refl,
  )

  -- A request for metadata, an explanation or the configuration that does not send the admin secret is
  -- denied, whatever else it sends and whether or not authentication is enabled: it gets an error, an
  -- answer without a body or none, and the engine does nothing.
  pub auth_middleware-IsDenied :
      (cache : JwksCache)
      → ElementOf r.path administrative_paths
      → is_admin_secret server.config.auth r.sender ≡ false
      → IsDenied ((auth_middleware server r cache).0)
  unfolding auth_middleware
  auth_middleware-IsDenied cache h e = after_authentication-IsDenied _ h (λ session given.
      is_admin_secret-session server.lib server.config.auth server.keys server.env server.answer
        r.sender cache session given
      ∙ e)
