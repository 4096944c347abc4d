-- ===== src/Server.antt =====
-- internal/engine/server.go: the handlers, which write a response and say what they had the engine do.
-- The other parts are the interface `Engine`, and JSON the interface `Codec`.
pub mod Handlers
pub mod Middleware
pub mod Administration
use package.text.Mathlib.Text.{starts_with}
use Prim.Native.String
use graphpost.Prelude.{
  ℕ, String, List, [], ◌∷◌, Bool, true, false, not, ◌||◌, Option, none, some, if◌then◌else◌, ◌==◌,
}
use graphpost.Prelude.Text.{contains}
use graphpost.Json.{Value, null, bool, num, str, obj, arr, nil, Fields, end, field, get?}
use graphpost.Prelude.Int.{pos}
use graphpost.Maps.{GoMap, put}
use graphpost.Auth.Config.{AuthConfig, Session}
use graphpost.Auth.Request.{Request}

-- A request: its headers, method, path, the parameters of its URL, and its body, if that can be read.
pub record HttpRequest : Type 0 where
  pub sender : Request
  pub method : String
  pub path : String
  pub url_query : String → String
  pub body : Option String

pub record GraphQlRequest : Type 0 where
  pub query : String
  pub variables : Fields
  pub operation_name : String

pub record MetadataRequest : Type 0 where
  pub type : String
  pub args : Value

-- What the server has the engine do.
pub data Effect : Type 0 where
  executed : GraphQlRequest → Effect
  reloaded : Effect
  invoked : String → Fields → Effect

pub data Body : Type 0 where
  empty : Body
  error_text : String → Body
  json : Value → Body

abbrev pub Headers : Type 0
Headers = GoMap String

-- The files of the console and the page of the playground are not modelled, nor is what follows the
-- switch to a WebSocket.
pub data Reply : Type 0 where
  response : ℕ → Headers → Body → Reply
  console_file : Headers → Reply
  playground_page : Headers → Reply
  web_socket : Reply
  aborted : Reply

abbrev pub Outcome : Type 0
Outcome = List Effect × Reply

-- JSON texts: `json.Unmarshal` of a body and of variables, and `Decode` of a body.
pub record Codec : Type 0 where
  pub unmarshal_request : String → Option GraphQlRequest
  pub unmarshal_variables : String → Fields
  pub decode_request : String → Option GraphQlRequest
  pub decode_metadata : String → Option MetadataRequest

-- `reload` and `invoke` give the text of their error, if they fail. A table is given by its name and
-- schema.
pub record Engine : Type 0 where
  pub execute_query : Session → GraphQlRequest → Value
  pub reload : Option String
  pub invoke : String → Fields → Option String
  pub health : Fields
  pub tables : GoMap (String × String)
  pub has_resolver : Bool

-- `http.Error`
unfoldable pub http_error : String → ℕ → Headers → Reply
http_error message status headers =
    response status
      (put "X-Content-Type-Options" "nosniff"
        (put "Content-Type" "text/plain; charset=utf-8" headers))
      (error_text message)

abbrev pub reply_json : Value → Headers → Reply
reply_json v headers = response 200 (put "Content-Type" "application/json" headers) (json v)

abbrev pub success : Value
success = obj (field "message" (str "success") end)

abbrev pub failure : String → Value
failure message = obj (field "error" (str message) end)

abbrev pub success_or : Option String → Value
success_or none = success
success_or (some message) = failure message

abbrev pub text_of : Option Value → String
text_of (some (str s)) = s
text_of _ = ""

abbrev pub object_of : Option Value → Fields
object_of (some (obj fields)) = fields
object_of _ = end

-- The fields of a `TableMetadata` and of a `Metadata` that are not set.
abbrev unset_of_table : Fields
unset_of_table = field "configuration" null (
    field "object_relationships" null (
      field "array_relationships" null (
        field "select_permissions" null (
          field "insert_permissions" null (
            field "update_permissions" null
              (field "delete_permissions" null (field "computed_fields" null end)))))))

abbrev unset_metadata : Fields
unset_metadata =
    field "remote_schemas" null
      (field "actions" null (field "custom_types" null (field "event_triggers" null end)))

table_fields : GoMap (String × String) → Fields
table_fields [] = end
table_fields ((key, (name, schema)) ∷ rest) =
    field key (obj (field "name" (str name) (field "schema" (str schema) unset_of_table)))
      (table_fields rest)

-- `strings.Contains(s, part)`
unfoldable pub has_text : String → String → Bool
has_text part String.[] = part == ""
has_text part (String.◌∷◌ c s) = starts_with (String.◌∷◌ c s) part || has_text part s

-- The types of metadata requests that change nothing and succeed.
abbrev pub accepted_types : List String
accepted_types =
    "replace_metadata" ∷ "clear_metadata" ∷ "drop_inconsistent_metadata" ∷ "track_table"
    ∷ "untrack_table" ∷ "create_object_relationship" ∷ "create_array_relationship"
    ∷ "drop_relationship" ∷ "create_event_trigger" ∷ "delete_event_trigger"
    ∷ "create_insert_permission" ∷ "create_select_permission" ∷ "create_update_permission"
    ∷ "create_delete_permission" ∷ "drop_insert_permission" ∷ "drop_select_permission"
    ∷ "drop_update_permission" ∷ "drop_delete_permission" ∷ []

module _ (engine : Engine) where
  unfoldable pub export_metadata : Value
  unfolding table_fields
  export_metadata = obj (field "tables" (obj (table_fields engine.tables)) unset_metadata)

  unfoldable pub invoke_from_args : Value → List Effect × Value
  invoke_from_args (obj args) =
      let name = text_of (get? "name" args) in
      let payload = object_of (get? "payload" args) in
      (invoked name payload ∷ [], success_or (engine.invoke name payload))
  invoke_from_args _ = ([], failure "invalid arguments")

  -- No statement is run.
  unfoldable pub run_sql : Value → Value
  run_sql (obj args) =
      if text_of (get? "sql" args) == ""
      then failure "sql is required"
      else if not engine.has_resolver
      then failure "resolver not available"
      else obj (field "result_type" (str "CommandOk") (field "result" null end))
  run_sql _ = failure "invalid arguments"

  unfoldable pub handle_metadata_request : MetadataRequest → List Effect × Value
  unfolding invoke_from_args
  handle_metadata_request req =
      if req.type == "export_metadata"
      then ([], export_metadata)
      else if req.type == "reload_metadata"
      then (reloaded ∷ [], success_or engine.reload)
      else if req.type == "get_inconsistent_metadata"
      then (
        [],
        obj (field "is_consistent" (bool true) (field "inconsistent_objects" (arr nil) end)),
      )
      else if req.type == "invoke_event_trigger"
      then invoke_from_args req.args
      else if req.type == "run_sql"
      then ([], run_sql req.args)
      else if contains accepted_types req.type
      then ([], success)
      else ([], failure (String.◌++◌ "unknown metadata type: " req.type))

module _ (codec : Codec) (engine : Engine) (headers : Headers) (session : Session) where
  -- The executed request, and the result.
  unfoldable pub run_query : GraphQlRequest → Outcome
  run_query request =
      (executed request ∷ [], reply_json (engine.execute_query session request) headers)

  unfoldable pub query_of_url : HttpRequest → GraphQlRequest
  query_of_url r =
      let vars = r.url_query "variables" in
      record {
        query = r.url_query "query";
        variables = if vars == "" then end else codec.unmarshal_variables vars;
        operation_name = r.url_query "operationName";
      }

  unfoldable pub query_of_body : Option String → Outcome
  unfolding run_query http_error
  query_of_body none = ([], http_error "Failed to read request body" 400 headers)
  query_of_body (some body) = elim (codec.unmarshal_request body) [
    | none ↦ ([], http_error "Invalid JSON" 400 headers)
    | some request ↦ run_query request
  ]

  unfoldable pub handle_graph_ql : HttpRequest → Outcome
  unfolding query_of_url query_of_body run_query http_error
  handle_graph_ql r =
      if has_text "websocket" (r.sender.header "Upgrade")
      then ([], web_socket)
      else if r.method == "GET"
      then run_query (query_of_url r)
      else if r.method == "POST"
      then query_of_body r.body
      else ([], http_error "Method not allowed" 405 headers)
