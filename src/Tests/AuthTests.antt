-- ===== src/Tests/AuthTests.antt =====
-- Runs of internal/auth/auth.go at concrete inputs.
use graphpost.Prelude.{
  ℕ, ◌+◌, ◌↔◌, ◌⊎◌, ◌≢◌, String, [], ◌∷◌, ◌++◌, none, some, true, false, ◌≡◌, refl, arith,
  if◌then◌else◌, keep, length, eq_iff, eqb, ◌==◌,
}
use graphpost.Prelude.Int.{pos}
use graphpost.Prelude.Text.{split, contains, cut_prefix, trim_prefix, to_lower, ElementOf}
use graphpost.Json.{Value, num, str, arr, obj, nil, cons, Fields, end, field, get?}
use graphpost.Maps.{lookup, delete}
use graphpost.Resolver.Columns.{Encoders, column_conditions, column_operator, infix_operator}
use graphpost.Resolver.Sql.{text, join}
use graphpost.Resolver.Where.{build_where_clause, bracket, filter_conditions, nested, nested_clause}
use graphpost.Auth.Config.{JwtConfig, AuthConfig, Session}
use graphpost.Auth.Outcome.{ok, panics}
use graphpost.Auth.Claims.{
  build_session_from_payload, apply_claim, apply_claims_map, get_or_null, extract_value_by_path,
  strings_of, extract_role_from_claims, extract_allowed_roles, namespace_claims,
  get_claims_namespace, permitted_role,
}
use graphpost.Auth.Claims.Roles.{build_session_from_payload-role}
use graphpost.Auth.Permissions.{
  Permission, select, check_permission, get_permissions, add_permission, admin_permission, first,
}
use graphpost.Auth.Permissions.Rules.{add_permissions, is_about, check_permission-add_permissions}
use graphpost.Auth.Filter.{
  both_filters, substitute_session_variables, session_variable, substitute_text, variable_claims,
}
use graphpost.Auth.Filter.Rows.{build_where_clause-both_filters, missing_variable-drops_filter}
use graphpost.Auth.Keys.{
  Hash, sha256, Library, EcKey, ec, Jwk, initialize_keys, parse_key, jwk_to_public_key, find_key,
}
use graphpost.Auth.Jwks.{JwksCache, fresh_keys, fetch_key, get_jwks_key, fetch_key_once}
use graphpost.Auth.Signature.{
  Env, verify_signature, verify_hmac, same_bytes, looked_up, verify_ecdsa,
}
use graphpost.Auth.Signature.Algorithms.{verify_signature-hmac}
use graphpost.Auth.Signature.JwksKeys.{verify_ecdsa-panics}
use graphpost.Auth.Jwt.{
  validate_jwt, read_parts, get_expected_algorithm, algorithm_allowed, is_expired, is_early,
  check_times, check_issuer, check_audience, check_claims, validate_audience, skips_verification,
  check_signature, validate_token,
}
use graphpost.Auth.Jwt.Soundness.{Accepts, validate_jwt-Accepts}
use graphpost.Auth.Request.{
  Request, unreachable, authenticate_request, extract_token, is_admin_secret, without_token,
  authenticate_via_webhook,
}
use graphpost.Auth.Request.Admission.{HoldsSecret, authenticate_request-is_admin}

program : Unit {0}
unfolding split contains cut_prefix trim_prefix to_lower get? lookup delete
    build_session_from_payload apply_claim apply_claims_map get_or_null extract_value_by_path
    strings_of extract_role_from_claims extract_allowed_roles namespace_claims get_claims_namespace
    permitted_role check_permission get_permissions add_permission add_permissions
    substitute_session_variables session_variable substitute_text variable_claims initialize_keys
    parse_key jwk_to_public_key find_key fresh_keys fetch_key get_jwks_key verify_signature
    verify_hmac same_bytes looked_up verify_ecdsa validate_jwt read_parts get_expected_algorithm
    algorithm_allowed is_expired is_early check_times check_issuer check_audience check_claims
    validate_audience skips_verification check_signature validate_token authenticate_request
    extract_token is_admin_secret without_token authenticate_via_webhook both_filters
    build_where_clause filter_conditions nested nested_clause
program = tt

-- Claims of a token for user "u1", who may be a user or an editor.
abbrev payload : Fields
payload = field "sub" (str "u1") (
    field "exp" (num (pos 100)) (
      field "claims"
        (obj (
          field "x-hasura-default-role" (str "admin") (
            field "x-hasura-allowed-roles" (arr (cons (str "user") (cons (str "editor") nil)))
              end)))
        end))

abbrev cfg : AuthConfig
cfg = record {
  enabled = true;
  admin_secret = "s3cret";
  jwt_secret = "key";
  jwt_algorithm = "";
  jwt_claims_namespace = "claims";
  unauthorized_role = "anonymous";
  allowed_roles = "user" ∷ "admin" ∷ [];
  default_role = "user";
  webhook_url = "";
  jwt = none;
}

abbrev jwt : JwtConfig
jwt = record {
  type = "ES256";
  key = "";
  jwk_url = "https://keys";
  claims_namespace = "";
  claims_map = [];
  issuer = "";
  audience = "";
  allowed_skew = pos 0;
  header = none;
  skip_verification = false;
  skip_expiration_check = false;
}

abbrev jwks_cfg : AuthConfig
jwks_cfg = record cfg { jwt = some jwt }

-- A library whose codecs read the texts "h", "p" and "s" and whose HMAC is a constant.
abbrev pub lib : Library
lib = record {
  decode_base64 = λ s. some (if s == "h" then 1 ∷ [] else if s == "p" then 2 ∷ [] else 3 ∷ []);
  decode_object = λ b.
      some
        (elim b [ [] ↦ end | c ∷ _ ↦ if eqb c 1 then field "alg" (str "HS256") end else payload ]);
  bytes_of = λ s. 7 ∷ [];
  decode_pem = λ b. none;
  parse_pkix = λ b. none;
  parse_pkcs1 = λ b. none;
  hmac = λ h k s. 3 ∷ [];
  verify_pkcs1 = λ k h s b. false;
  verify_ecdsa = λ k h s r t. false;
}

abbrev pub cache : JwksCache
cache = record { keys = none; expires_at = 0 }

abbrev ec_jwk : Jwk
ec_jwk = record { kty = "EC"; kid = "k1"; n = ""; e = ""; x = "x"; y = "y"; crv = "P-256" }

abbrev pub env : Env
env = record { now = 5; jwks_response = some (ec_jwk ∷ []) }

-- A role that is not allowed is replaced by the first that is.
session : (build_session_from_payload cfg payload).role ≡ "user"
unfolding program
session = refl

accepted :
    (validate_jwt lib cfg (initialize_keys lib cfg) env "h.p.s" cache).0
    ≡ ok (build_session_from_payload cfg payload)
unfolding program
accepted = refl

build_session_from_payload-role_example :
    ((build_session_from_payload cfg payload).allowed_roles ≡ [])
    ⊎ ElementOf
        (build_session_from_payload cfg payload).role
        (build_session_from_payload cfg payload).allowed_roles
build_session_from_payload-role_example = build_session_from_payload-role cfg payload

validate_jwt-Accepts_example :
    Accepts lib cfg
      (initialize_keys lib cfg)
      env
      "h.p.s"
      cache
      (build_session_from_payload cfg payload)
validate_jwt-Accepts_example =
    validate_jwt-Accepts lib cfg (initialize_keys lib cfg) env "h.p.s" cache
      (build_session_from_payload cfg payload) accepted

key-set : ◌≢◌ {A = String} "key" ""
key-set = ground (arith, eq_iff "key" "")

signature_passes :
    (verify_signature lib cfg (initialize_keys lib cfg) env "HS256" "h.p" (3 ∷ []) "" cache).0
    ≡ ok tt
unfolding program
signature_passes = refl

verify_signature-hmac_example : (hash : Hash) × (3 ∷ [] ≡ lib.hmac hash (lib.bytes_of "key") "h.p")
verify_signature-hmac_example =
    verify_signature-hmac lib cfg env (refl, refl, key-set) "HS256" "h.p" (3 ∷ []) "" cache
      signature_passes

-- A request with the admin secret, and nothing else.
abbrev admin_request : Request
admin_request = record {
  header = λ name. if name == "X-Admin-Secret" then "s3cret" else "";
  cookie = λ name. none;
}

abbrev admin_session : Session
admin_session = record {
  user_id = "";
  role = "admin";
  allowed_roles = [];
  is_admin = true;
  claims = end;
  expires_at = none;
}

admitted :
    (authenticate_request lib cfg (initialize_keys lib cfg) env unreachable admin_request cache).0
    ≡ ok admin_session
unfolding program
admitted = refl

authenticate_request-is_admin_example :
    (admin_session.is_admin ≡ true) ↔ HoldsSecret cfg admin_request
authenticate_request-is_admin_example =
    authenticate_request-is_admin lib cfg (initialize_keys lib cfg) env unreachable admin_request
      cache admin_session admitted

abbrev row_rule : Permission
row_rule = record {
  role = "user";
  table = "posts";
  operation = select;
  columns = [];
  filter = some (field "author" (obj (field "_eq" (str "X-Hasura-User-Id") end)) end);
  check = none;
  allow_aggregations = false;
}

abbrev user_session : Session
user_session = record admin_session { role = "user"; is_admin = false }

check_permission-add_permissions_example :
    check_permission (add_permissions (row_rule ∷ []) []) user_session "posts" select ≡ (
      if user_session.is_admin
      then some (admin_permission "posts" select)
      else first (keep (is_about "user" "posts" select) (row_rule ∷ [])))
check_permission-add_permissions_example =
    check_permission-add_permissions (row_rule ∷ []) user_session "posts" select

abbrev enc : Encoders
enc = record { marshal = λ v. "{}"; sprint = λ v. "x" }

abbrev is_eq_1 : Value
is_eq_1 = obj (field "_eq" (num (pos 1)) end)

abbrev owner : Fields
owner = field "author" is_eq_1 end

-- The clause of one comparison is not empty.
own_clause : (i : ℕ) → (build_where_clause enc owner i).0 ≢ []
unfolding program column_conditions column_operator infix_operator join
own_clause i h = cc

build_where_clause-both_filters_example : build_where_clause enc (both_filters owner owner) 1 ≡ (
  bracket "(" (
      bracket "(" (build_where_clause enc owner 1).0
      ++ (text " AND "
          ∷ bracket "("
              (build_where_clause enc owner (1 + length (build_where_clause enc owner 1).1)).0)),
  (build_where_clause enc owner 1).1
      ++ (build_where_clause enc owner (1 + length (build_where_clause enc owner 1).1)).1,
)
build_where_clause-both_filters_example =
    build_where_clause-both_filters enc "author" is_eq_1 end owner 1 (own_clause 1) (own_clause _)

no_tenant : session_variable cfg user_session "X-Hasura-Tenant-Id" ≡ none
unfolding program
no_tenant = refl

missing_variable-drops_filter_example :
    build_where_clause enc
      (substitute_session_variables cfg user_session
        (field "tenant" (obj (field "_eq" (str "X-Hasura-Tenant-Id") end)) end))
      1
    ≡ ([], [])
missing_variable-drops_filter_example =
    missing_variable-drops_filter cfg user_session enc "tenant" "_eq" "X-Hasura-Tenant-Id" 1 refl
      no_tenant

abbrev ec_key : EcKey
ec_key = record { x = 3; y = 3; curve = none }

ec_found :
    (looked_up lib jwks_cfg (initialize_keys lib jwks_cfg) env "k1" cache).0 ≡ some (ec ec_key)
unfolding program
ec_found = refl

verify_ecdsa-panics_example :
    (verify_ecdsa lib jwks_cfg
      (initialize_keys lib jwks_cfg)
      env
      "h.p"
      (3 ∷ [])
      sha256
      "k1"
      cache).0
    ≡ panics
verify_ecdsa-panics_example =
    verify_ecdsa-panics lib jwks_cfg (initialize_keys lib jwks_cfg) env "h.p" (3 ∷ []) sha256 "k1"
      cache ec_key ec_found

no_keys_yet : fresh_keys 5 cache ≡ none
unfolding program
no_keys_yet = refl

fetch_key_once_example :
    ((fetch_key lib 5 (some (ec_jwk ∷ [])) "k1" cache).1 ≡ true)
    × (fetch_key lib 6 none "k1" (fetch_key lib 5 (some (ec_jwk ∷ [])) "k1" cache).2 ≡ (
      find_key lib "k1" (ec_jwk ∷ []),
      false,
      (fetch_key lib 5 (some (ec_jwk ∷ [])) "k1" cache).2,
    ))
fetch_key_once_example =
    fetch_key_once lib 5 6 (ec_jwk ∷ []) none "k1" "k1" cache no_keys_yet (omega arith)
