-- ===== src/Server/Middleware.antt =====
-- The paths of `Start` of internal/engine/server.go, and the middleware around its handlers. What the
-- logging middleware prints is not modelled.
use package.text.Mathlib.Text.{starts_with}
use graphpost.Prelude.{
  String, List, [], ◌∷◌, Bool, true, false, not, ◌&&◌, ◌||◌, if◌then◌else◌, ◌==◌,
}
use graphpost.Prelude.Int.{ℤ}
use graphpost.Prelude.Text.{join_texts}
use graphpost.Maps.{put}
use graphpost.Auth.Config.{Session}
use graphpost.Auth.Outcome.{ok, fails, panics}
use graphpost.Auth.Keys.{Library, Keys}
use graphpost.Auth.Jwks.{JwksCache}
use graphpost.Auth.Signature.{Env}
use graphpost.Auth.Request.{Answer, session_with_role, authenticate_request}
use graphpost.Configuration.{Config, CorsConfig}
use graphpost.Server.{
  HttpRequest, empty, Headers, response, console_file, playground_page, aborted, Outcome, Codec,
  Engine, http_error, handle_graph_ql,
}
use graphpost.Server.Handlers.{
  handle_health, handle_version, handle_metadata, handle_explain, handle_config, handle_schema,
}

-- The configuration of a server, and what its requests are checked with.
pub record HttpServer (F : Type 0) : Type 0 where
  pub config : Config F
  pub lib : Library
  pub keys : Keys
  pub env : Env
  pub answer : Answer
  pub codec : Codec
  pub engine : Engine
  pub introspection : String
  pub format_int : ℤ → String

unfoldable pub is_allowed_origin : String → List String → Bool
is_allowed_origin origin [] = false
is_allowed_origin origin (o ∷ os) =
    if (o == "*") || (o == origin) then true else is_allowed_origin origin os

abbrev origin_of : HttpRequest → String
origin_of r = let origin = r.sender.header "Origin" in if origin == "" then "*" else origin

module _ {F : Type 0} (server : HttpServer F) where
  -- The handler of a path.
  unfoldable pub routed : HttpRequest → Session → Headers → Outcome
  routed r session headers =
      let codec = server.codec in
      let engine = server.engine in
      let cfg = server.config in
      if (r.path == "/v1/graphql") || (r.path == "/v1alpha1/graphql")
      then handle_graph_ql codec engine headers session r
      else if r.path == "/healthz"
      then handle_health codec engine headers session
      else if r.path == "/v1/version"
      then handle_version codec engine headers session
      else if (r.path == "/v1/metadata") || (r.path == "/v1/query")
      then handle_metadata codec engine headers session r
      else if r.path == "/v1/graphql/schema"
      then handle_schema codec engine headers session server.introspection
      else if r.path == "/v1/graphql/explain"
      then handle_explain codec engine headers session r
      else if r.path == "/v1/config"
      then handle_config codec engine headers session cfg.auth cfg.console
      else if cfg.console.enabled && ((r.path == "/console") || starts_with r.path "/console/")
      then ([], console_file headers)
      else if cfg.server.enable_playground
      then ([], playground_page headers)
      else ([], http_error "404 page not found" 404 headers)

  allow_headers : CorsConfig → String → Headers → Headers
  allow_headers cors origin headers =
      let named = put "Access-Control-Allow-Headers" (join_texts ", " cors.allowed_headers) (
        put "Access-Control-Allow-Methods" (join_texts ", " cors.allowed_methods)
          (put "Access-Control-Allow-Origin" origin headers)) in
      let trusted =
        if cors.allow_credentials
        then put "Access-Control-Allow-Credentials" "true" named
        else named in
      put "Access-Control-Max-Age" (server.format_int cors.max_age) trusted

  unfoldable pub cors_headers : HttpRequest → Headers
  unfolding is_allowed_origin allow_headers
  cors_headers r =
      let cors = server.config.cors in
      if cors.enabled && is_allowed_origin (origin_of r) cors.allowed_origins
      then allow_headers cors (origin_of r) []
      else []

  -- `corsMiddleware`, which answers OPTIONS itself.
  unfoldable pub cors_middleware : HttpRequest → Session → Outcome
  unfolding cors_headers routed
  cors_middleware r session =
      if server.config.cors.enabled && (r.method == "OPTIONS")
      then ([], response 200 (cors_headers r) empty)
      else routed r session (cors_headers r)

  -- What follows the check of a request: net/http ends the connection of a handler that panics.
  unfoldable pub after_authentication :
      HttpRequest → graphpost.Auth.Outcome.Outcome Session → Outcome
  unfolding cors_middleware http_error
  after_authentication r panics = ([], aborted)
  after_authentication r (ok session) = cors_middleware r session
  after_authentication r (fails e) =
      if not server.config.auth.enabled
      then cors_middleware r (session_with_role server.config.auth.unauthorized_role false)
      else ([], http_error "Authentication required" 401 [])

  -- `authMiddleware`, which is around `corsMiddleware`.
  unfoldable pub auth_middleware : HttpRequest → JwksCache → Outcome × JwksCache
  unfolding after_authentication
  auth_middleware r cache =
      let (result, after) =
        authenticate_request server.lib server.config.auth server.keys server.env server.answer
          r.sender cache in
      (after_authentication r result, after)
