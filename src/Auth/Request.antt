-- ===== src/Auth/Request.antt =====
-- `AuthenticateRequest`, `extractToken` and `authenticateViaWebhook` of internal/auth/auth.go.
pub mod Admission
use package.text.Mathlib.Text.{starts_with}
use graphpost.Prelude.{
  ℕ, String, List, [], ◌∷◌, Option, none, some, Bool, true, false, not, ◌==◌, eqb, if◌then◌else◌,
}
use graphpost.Prelude.Text.{trim_prefix}
use graphpost.Json.{Value, null, bool, num, str, arr, obj, Fields, end, get?}
use graphpost.Auth.Config.{JwtConfig, JwtHeader, AuthConfig, Session}
use graphpost.Auth.Outcome.{Outcome, ok, fails, webhook_failed, authentication_required}
use graphpost.Auth.Keys.{Library, Keys}
use graphpost.Auth.Jwks.{JwksCache}
use graphpost.Auth.Signature.{Env}
use graphpost.Auth.Jwt.{validate_jwt}

-- A request, as its headers and cookies read: a missing header is the empty text.
pub record Request : Type 0 where
  pub header : String → String
  pub cookie : String → Option String

-- The answer of the webhook.
pub data Answer : Type 0 where
  -- the request cannot be made, or fails
  unreachable : Answer
  -- a status, and the body as a map if it decodes to one
  answered : ℕ → Option Fields → Answer

-- What the configured header says; a bare value is taken too.
bearer : String → String
bearer value = if starts_with value "Bearer " then trim_prefix "Bearer " value else value

default_token : Request → String
default_token r =
    let value = r.header "Authorization" in
    if starts_with value "Bearer " then trim_prefix "Bearer " value else ""

token_of_header : Request → JwtHeader → String
token_of_header r header =
    if header.type == "Cookie"
    then (elim (r.cookie header.name) [ some value ↦ value | none ↦ default_token r ])
    else bearer (r.header (if header.name == "" then "Authorization" else header.name))

unfoldable pub extract_token : AuthConfig → Request → String
unfolding bearer default_token token_of_header
extract_token cfg r = elim cfg.jwt [
  | none ↦ default_token r
  | some jwt ↦ elim jwt.header [ none ↦ default_token r | some header ↦ token_of_header r header ]
]

abbrev text_field : String → Fields → String
text_field key m = elim (get? key m) [ some (str s) ↦ s | _ ↦ "" ]

webhook_session : Fields → Session
webhook_session body = record {
  user_id = text_field "X-GraphPost-User-Id" body;
  role = text_field "X-GraphPost-Role" body;
  allowed_roles = [];
  is_admin = false;
  claims = body;
  expires_at = none;
}

unfoldable pub authenticate_via_webhook : Answer → Outcome Session
unfolding webhook_session
authenticate_via_webhook unreachable = fails webhook_failed
authenticate_via_webhook (answered status none) = fails webhook_failed
authenticate_via_webhook (answered status (some body)) =
    if eqb status 200 then ok (webhook_session body) else fails webhook_failed

abbrev pub session_with_role : String → Bool → Session
session_with_role role is_admin = record {
  user_id = "";
  role = role;
  allowed_roles = [];
  is_admin = is_admin;
  claims = end;
  expires_at = none;
}

-- The header is not empty and is the configured secret.
unfoldable pub is_admin_secret : AuthConfig → Request → Bool
is_admin_secret cfg r =
    let secret = r.header "X-Admin-Secret" in
    if secret == "" then false else secret == cfg.admin_secret

module _ (lib : Library) (cfg : AuthConfig) (keys : Keys) (env : Env) (answer : Answer) where
  -- What follows when the request has no token.
  unfoldable pub without_token : Outcome Session
  without_token =
      if not (cfg.webhook_url == "")
      then authenticate_via_webhook answer
      else if not cfg.enabled
      then ok (session_with_role cfg.unauthorized_role false)
      else fails authentication_required

  unfoldable pub authenticate_request : Request → JwksCache → Outcome Session × JwksCache
  unfolding without_token
  authenticate_request r cache =
      if is_admin_secret cfg r
      then (ok (session_with_role "admin" true), cache)
      else if not (extract_token cfg r == "")
      then validate_jwt lib cfg keys env (extract_token cfg r) cache
      else (without_token, cache)
