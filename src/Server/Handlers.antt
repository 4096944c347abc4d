-- ===== src/Server/Handlers.antt =====
-- The handlers of internal/engine/server.go for administration, health and the schema.
use graphpost.Prelude.{String, [], Bool, false, not, Option, none, some, if◌then◌else◌, ◌==◌}
use graphpost.Prelude.Int.{pos}
use graphpost.Json.{Value, null, bool, num, str, obj, arr, nil, end, field, get?}
use graphpost.Maps.{put}
use graphpost.Auth.Config.{AuthConfig, Session}
use graphpost.Configuration.{ConsoleConfig}
use graphpost.Server.{
  HttpRequest, MetadataRequest, GraphQlRequest, Headers, response, json, Outcome, Codec, Engine,
  http_error, reply_json, text_of, handle_metadata_request, run_query,
}

abbrev intervals : Value
intervals = obj (field "batch_size" (num (pos 100)) (field "refetch_delay" (num (pos 1)) end))

unfoldable pub config_value : AuthConfig → ConsoleConfig → Value
config_value auth console = obj (
    field "is_admin_secret_set" (bool (not (auth.admin_secret == ""))) (
      field "is_auth_hook_set" (bool (not (auth.webhook_url == ""))) (
        field "is_jwt_set" (bool (not (auth.jwt_secret == ""))) (
          field "jwt_secret" null (
            field "is_allow_list_enabled" (bool false) (
              field "live_queries" intervals (
                field "streaming_queries" intervals (
                  field "console_assets_dir" (str console.assets_path)
                    (field "experimental_features" (arr nil) end)))))))))

abbrev explanation : Value
explanation = obj (field "sql" (str "SELECT * FROM table") (field "plan" (str "Seq Scan") end))

abbrev pub decoded_body : {A : Type 0} → (String → Option A) → Option String → Option A
decoded_body decode none = none
decoded_body decode (some body) = decode body

module _ (codec : Codec) (engine : Engine) (headers : Headers) (session : Session) where
  unfoldable pub is_healthy : Bool
  is_healthy = text_of (get? "status" engine.health) == "ok"

  unfoldable pub handle_health : Outcome
  unfolding is_healthy
  handle_health = (
    [],
    response (if is_healthy then 200 else 503) (put "Content-Type" "application/json" headers)
        (json (obj engine.health)),
  )

  unfoldable pub handle_version : Outcome
  handle_version = ([], reply_json (obj (field "version" (str "1.0.0") end)) headers)

  -- A request of the metadata API that its body gives.
  unfoldable pub metadata_reply : Option MetadataRequest → Outcome
  unfolding http_error handle_metadata_request
  metadata_reply none = ([], http_error "Invalid JSON" 400 headers)
  metadata_reply (some request) =
      let (effects, v) = handle_metadata_request engine request in (effects, reply_json v headers)

  unfoldable pub handle_metadata : HttpRequest → Outcome
  unfolding metadata_reply http_error
  handle_metadata r =
      if not (r.method == "POST")
      then ([], http_error "Method not allowed" 405 headers)
      else if not session.is_admin
      then ([], http_error "Admin access required" 401 headers)
      else metadata_reply (decoded_body codec.decode_metadata r.body)

  unfoldable pub explain_reply : Option GraphQlRequest → Outcome
  unfolding http_error
  explain_reply none = ([], http_error "Invalid JSON" 400 headers)
  explain_reply (some request) = ([], reply_json explanation headers)

  unfoldable pub handle_explain : HttpRequest → Outcome
  unfolding explain_reply http_error
  handle_explain r =
      if not session.is_admin
      then ([], http_error "Admin access required" 401 headers)
      else explain_reply (decoded_body codec.decode_request r.body)

  unfoldable pub handle_config : AuthConfig → ConsoleConfig → Outcome
  unfolding config_value http_error
  handle_config auth console =
      if not session.is_admin
      then ([], http_error "Admin access required" 401 headers)
      else ([], reply_json (config_value auth console) headers)

  -- `introspection` is the text of the standard introspection query.
  unfoldable pub handle_schema : String → Outcome
  unfolding run_query
  handle_schema introspection =
      run_query codec engine headers session
        (record { query = introspection; variables = end; operation_name = "" })
