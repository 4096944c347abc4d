-- ===== src/Tests/ServerTests.antt =====
-- Runs of internal/engine/server.go at concrete inputs.
use graphpost.Prelude.{[], ◌∷◌, true, false, none, some, ◌==◌, if◌then◌else◌, ◌≡◌, refl, inl}
use graphpost.Prelude.Int.{ℤ, pos}
use graphpost.Prelude.Text.{contains, join_texts}
use graphpost.Json.{str, null, end, field}
use graphpost.Maps.{lookup, delete}
use graphpost.Auth.Keys.{initialize_keys}
use graphpost.Auth.Request.{
  Request, unreachable, extract_token, is_admin_secret, authenticate_request, without_token,
}
use graphpost.Configuration.{Config}
use graphpost.Configuration.Defaults.{default_auth, default_config}
use graphpost.Server.{
  HttpRequest, reloaded, Codec, Engine, http_error, handle_metadata_request, handle_graph_ql,
}
use graphpost.Server.Handlers.{handle_metadata, metadata_reply}
use graphpost.Server.Middleware.{
  HttpServer, is_allowed_origin, routed, cors_headers, cors_middleware, after_authentication,
  auth_middleware,
}
use graphpost.Server.Administration.{IsDenied, auth_middleware-IsDenied}
use graphpost.Tests.AuthTests.{lib, env, cache}

program : Unit {0}
unfolding http_error handle_metadata_request handle_graph_ql handle_metadata metadata_reply
    is_allowed_origin routed cors_headers cors_middleware after_authentication auth_middleware
    extract_token is_admin_secret authenticate_request without_token contains join_texts lookup
    delete
program = tt

abbrev with_secret : Config ℤ
with_secret = record (default_config (pos 1)) {
  auth = record default_auth { enabled = true; admin_secret = "s3cret" };
}

abbrev codec : Codec
codec = record {
  unmarshal_request = λ s. none;
  unmarshal_variables = λ s. end;
  decode_request = λ s. none;
  decode_metadata =
      λ s. if s == "reload" then some (record { type = "reload_metadata"; args = null }) else none;
}

abbrev engine : Engine
engine = record {
  execute_query = λ s r. null;
  reload = none;
  invoke = λ s f. none;
  health = field "status" (str "ok") end;
  tables = [];
  has_resolver = true;
}

abbrev server : HttpServer ℤ
server = record {
  config = with_secret;
  lib = lib;
  keys = initialize_keys lib with_secret.auth;
  env = env;
  answer = unreachable;
  codec = codec;
  engine = engine;
  introspection = "query";
  format_int = λ n. "86400";
}

abbrev reload_by : Request → HttpRequest
reload_by sender = record {
  sender = sender;
  method = "POST";
  path = "/v1/metadata";
  url_query = λ name. "";
  body = some "reload";
}

abbrev administrator : Request
administrator = record {
  header = λ name. if name == "X-Admin-Secret" then "s3cret" else "";
  cookie = λ name. none;
}

abbrev stranger : Request
stranger = record { header = λ name. ""; cookie = λ name. none }

administrator_reloads :
    ((auth_middleware server (reload_by administrator) cache).0).0 ≡ reloaded ∷ []
unfolding program
administrator_reloads = refl

-- A preflight of a browser is refused, and without a header that allows its origin.
preflight_is_refused :
    ((auth_middleware server
      (record (reload_by stranger) { method = "OPTIONS"; path = "/v1/graphql" })
      cache).0
    ).1
    ≡ http_error "Authentication required" 401 []
unfolding program
preflight_is_refused = refl

is_not_secret : is_admin_secret server.config.auth stranger ≡ false
unfolding program
is_not_secret = refl

auth_middleware-IsDenied_example : IsDenied ((auth_middleware server (reload_by stranger) cache).0)
auth_middleware-IsDenied_example =
    auth_middleware-IsDenied server (reload_by stranger) cache (inl refl) is_not_secret
